-- ===== src/Sql/Actions/Balanced.antt =====
-- Placeholders against arguments for whole queries, as they are handed to the driver.
use Prim.Native.String.{String}
use sqlike.Common.{◌≡◌, refl, List, [], ◌∷◌, ◌++◌, map, Bytes, codes, length, arith}
use sqlike.Sql.Outcome.{ok}
use sqlike.Sql.Primitive.{Any, Anys, key_value, empty, cons}
use sqlike.Sql.Stmt.{Stmt, fail, table_name, quote, new_stmt}
use sqlike.Sql.Builder.{Env}
use sqlike.Sql.Builder.Dispatch.{statement, build, build_each}
use sqlike.Sql.Builder.Balance.{
  holes, Balanced, Plain, Plain-append, Plain-quote, wrote, did_nothing, ◌▸◌, either, AllBalanced,
  separated-Balanced, Prints, NoMarks, NoMarksEach,
}
use sqlike.Sql.Builder.Balance.Build.{
  limit-Balanced, select-Balanced, where-Balanced, by-Balanced, build-Balanced,
}
use sqlike.Sql.Actions.{FindActions, UpdateActions, DeleteActions}
use sqlike.Sql.Actions.Statements.{
  LockMode, no_lock, lock_for_update, lock_for_read, lock_suffix, build_find_actions, append_set,
  build_update_actions, build_delete_actions, select_query, update_query, delete_query, no_name,
}

failed : (e : String) → Balanced (fail e)
failed e = record { matches = λ s t h. cc }

pub table-Plain : (d t : Bytes) → Plain d → Plain t → Plain (table_name d t)
unfolding holes
table-Plain d t h k =
    Plain-append (quote d) _ (Plain-quote d h)
      (Plain-append (codes ".") (quote t) refl (Plain-quote t k))

suffix-Plain : (l : LockMode) → Plain (lock_suffix l)
unfolding lock_suffix holes
suffix-Plain no_lock = refl
suffix-Plain lock_for_update = refl
suffix-Plain lock_for_read = refl

-- The names and the texts of a query hold no question mark.
pub record FindNoMarks (trim : Bytes → Bytes) (x : FindActions) : Type 0 where
  pub names : Plain x.database × Plain (trim x.table)
  pub outputs : NoMarksEach x.projections
  pub conditions : NoMarksEach x.conditions
  pub groups : NoMarksEach x.group_bys
  pub sorts : NoMarksEach x.sorts

abbrev pub AllKeyed : List (Bytes × Any) → Type 0
AllKeyed [] = Unit {0}
AllKeyed (kv ∷ kvs) = (Plain kv.0 × NoMarks kv.1) × AllKeyed kvs

module _ (env : Env) (prints : Prints env) where
  each-Balanced : (xs : Anys) → NoMarksEach xs → AllBalanced (build_each env statement xs)
  unfolding build NoMarks
  each-Balanced empty h = tt
  each-Balanced (cons x xs) (hx, h) = (
    record { matches = λ s t e. build-Balanced env prints statement x s t hx e },
    each-Balanced xs h,
  )

  set-Balanced : (kvs : List (Bytes × Any)) → AllKeyed kvs → Balanced (append_set env kvs)
  unfolding append_set NoMarks holes
  set-Balanced [] h = did_nothing
  set-Balanced (kv ∷ kvs) h =
      wrote _ refl ▸ separated-Balanced (codes ",") _ refl (pairs (kv ∷ kvs) h)
    where
      pairs :
          (kvs : List (Bytes × Any))
          → AllKeyed kvs
          → AllBalanced (map (λ p. build env statement (key_value p.0 p.1)) kvs)
      pairs [] h = tt
      pairs (kv ∷ kvs) (hk, h) = (
        record {
          matches = λ s t e. build-Balanced env prints statement (key_value kv.0 kv.1) s t hk e;
        },
        pairs kvs h,
      )

  find-Balanced :
      (trim : Bytes → Bytes) (x : FindActions)
      → FindNoMarks trim x
      → Balanced (build_find_actions env trim x)
  unfolding build_find_actions holes
  find-Balanced trim x h = either (no_name (trim x.table)) (failed _) (
      wrote _ refl
      ▸ either x.distinct_on (wrote _ refl) did_nothing
      ▸ select-Balanced env prints _ (each-Balanced x.projections h.outputs)
      ▸ wrote _ (
          Plain-append (codes " FROM ") (table_name x.database (trim x.table)) refl
            (table-Plain x.database (trim x.table) h.names.0 h.names.1))
      ▸ where-Balanced env prints _ (each-Balanced x.conditions h.conditions)
      ▸ by-Balanced env prints (codes " GROUP BY ") _ refl (each-Balanced x.group_bys h.groups)
      ▸ by-Balanced env prints (codes " ORDER BY ") _ refl (each-Balanced x.sorts h.sorts)
      ▸ limit-Balanced env prints x.count x.skip)

-- The query that `Select` hands to the driver has as many placeholders as arguments, if the database,
-- the trimmed table, and the names and texts of the projections, the conditions, the groups and the
-- sorts hold no question mark and `strconv` prints none.
pub select_query-holes :
    (env : Env) (prints : Prints env) (trim : Bytes → Bytes) (lock : LockMode) (x : FindActions)
    (t : Stmt)
    → FindNoMarks trim x
    → select_query env trim lock x new_stmt ≡ ok t
    → holes t.text ≡ length t.args
unfolding select_query holes
select_query-holes env prints trim lock x t h e =
    let b =
      find-Balanced env prints trim x h
      ▸ wrote (lock_suffix lock) (suffix-Plain lock)
      ▸ wrote (codes ";") refl in
    omega (arith, b.matches new_stmt t e)

-- The query that `Update` hands to the driver has as many placeholders as arguments, if the database,
-- the table, and the names and texts of the values, the conditions and the sorts hold no question mark
-- and `strconv` prints none.
pub update_query-holes :
    (env : Env) (prints : Prints env) (x : UpdateActions) (t : Stmt)
    → Plain x.database
    → Plain x.table
    → AllKeyed x.values
    → NoMarksEach x.conditions
    → NoMarksEach x.sorts
    → update_query env x new_stmt ≡ ok t
    → holes t.text ≡ length t.args
unfolding update_query build_update_actions holes
update_query-holes env prints x t hd ht hv hc hs e =
    let b =
      (wrote _ (
          Plain-append (codes "UPDATE ") (table_name x.database x.table ++ codes " ") refl (
            Plain-append (table_name x.database x.table) (codes " ")
              (table-Plain x.database x.table hd ht) refl))
        ▸ set-Balanced env prints x.values hv
        ▸ where-Balanced env prints _ (each-Balanced env prints x.conditions hc)
        ▸ by-Balanced env prints (codes " ORDER BY ") _ refl (each-Balanced env prints x.sorts hs)
        ▸ limit-Balanced env prints x.limit 0)
      ▸ wrote (codes ";") refl in
    omega (arith, b.matches new_stmt t e)

-- The query that `Delete` hands to the driver has as many placeholders as arguments, if the database,
-- the table, and the names and texts of the conditions and the sorts hold no question mark and
-- `strconv` prints none.
delete_query-holes :
    (env : Env) (prints : Prints env) (x : DeleteActions) (t : Stmt)
    → Plain x.database
    → Plain x.table
    → NoMarksEach x.conditions
    → NoMarksEach x.sorts
    → delete_query env x new_stmt ≡ ok t
    → holes t.text ≡ length t.args
unfolding delete_query build_delete_actions holes
delete_query-holes env prints x t hd ht hc hs e =
    let b =
      (wrote _ (
          Plain-append (codes "DELETE FROM ") (table_name x.database x.table) refl
            (table-Plain x.database x.table hd ht))
        ▸ where-Balanced env prints _ (each-Balanced env prints x.conditions hc)
        ▸ by-Balanced env prints (codes " ORDER BY ") _ refl (each-Balanced env prints x.sorts hs)
        ▸ limit-Balanced env prints x.limit 0)
      ▸ wrote (codes ";") refl in
    omega (arith, b.matches new_stmt t e)
