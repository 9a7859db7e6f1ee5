-- ===== src/Sql/Actions/Statements.antt =====
-- sql/dialect/mysql/builder.go: `BuildFindActions`, `BuildUpdateActions`, `BuildDeleteActions`; and
-- `Select`, `Update`, `Delete` of sql/dialect/mysql/{select,update,delete}.go.
use sqlike.Common.{Bool, true, false, List, [], ◌∷◌, ◌++◌, map, Bytes, codes, if◌then◌else◌}
use sqlike.Sql.Primitive.{Any, key_value}
use sqlike.Sql.Stmt.{Step, ◌>>◌, done, fail, write, table_name}
use sqlike.Sql.Builder.{Env, separated}
use sqlike.Sql.Builder.Dispatch.{
  append_select, append_where, append_by, append_limit_and_offset, statement, build, build_each,
}
use sqlike.Sql.Actions.{FindActions, UpdateActions, DeleteActions}

-- `options.LockMode`
pub data LockMode : Type 0 where
  no_lock lock_for_update lock_for_read : LockMode

-- The suffix of `Select` for a lock.
unfoldable pub lock_suffix : LockMode → Bytes
lock_suffix no_lock = []
lock_suffix lock_for_update = codes " FOR UPDATE"
lock_suffix lock_for_read = codes " LOCK IN SHARE MODE"

abbrev pub no_name : Bytes → Bool
no_name [] = true
no_name (x ∷ n) = false

module _ (env : Env) where
  -- `BuildFindActions`: the havings and the index hints are not written.
  unfoldable pub build_find_actions : (Bytes → Bytes) → FindActions → Step
  build_find_actions trim x =
      let table = trim x.table in
      if no_name table then fail "mysql: empty table name" else (do
        write (codes "SELECT ")
        if x.distinct_on then write (codes "DISTINCT ") else done
        append_select (build_each env statement x.projections)
        write (codes " FROM " ++ table_name x.database table)
        append_where (build_each env statement x.conditions)
        append_by (codes " GROUP BY ") (build_each env statement x.group_bys)
        append_by (codes " ORDER BY ") (build_each env statement x.sorts)
        append_limit_and_offset env x.count x.skip)

  -- `appendSet`
  unfoldable pub append_set : List (Bytes × Any) → Step
  append_set [] = done
  append_set (kv ∷ kvs) =
      write (codes "SET ")
      >> separated (codes ",") (map (λ p. build env statement (key_value p.0 p.1)) (kv ∷ kvs))

  -- `BuildUpdateActions`
  unfoldable pub build_update_actions : UpdateActions → Step
  build_update_actions x = do
    write (codes "UPDATE " ++ (table_name x.database x.table ++ codes " "))
    append_set x.values
    append_where (build_each env statement x.conditions)
    append_by (codes " ORDER BY ") (build_each env statement x.sorts)
    append_limit_and_offset env x.limit 0

  -- `BuildDeleteActions`
  unfoldable pub build_delete_actions : DeleteActions → Step
  build_delete_actions x = do
    write (codes "DELETE FROM " ++ table_name x.database x.table)
    append_where (build_each env statement x.conditions)
    append_by (codes " ORDER BY ") (build_each env statement x.sorts)
    append_limit_and_offset env x.limit 0

  -- `MySQL.Select`
  unfoldable pub select_query : (Bytes → Bytes) → LockMode → FindActions → Step
  select_query trim lock x = do
    build_find_actions trim x
    write (lock_suffix lock)
    write (codes ";")

  -- `MySQL.Update`, `MySQL.Delete`
  unfoldable pub update_query : UpdateActions → Step
  update_query x = build_update_actions x >> write (codes ";")

  unfoldable pub delete_query : DeleteActions → Step
  delete_query x = build_delete_actions x >> write (codes ";")
