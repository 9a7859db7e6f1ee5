-- ===== src/Sql/Modify.antt =====
-- `update` of sqlike/update.go, `modifyOne` of sqlike/modify.go and `skipColumns` of sqlike/helper.go, up to the
-- call of the database.
pub mod Set
mod Tests
use sqlike.Common.{
  ℕ, Bool, true, false, List, [], ◌∷◌, ◌++◌, Option, none, some, Bytes, codes, ◌&&◌, ◌||◌, ltb,
  same, if◌then◌else◌, length,
}
use sqlike.Sql.Primitive.{and, equal, Any, scalar, text, empty, cons}
use sqlike.Sql.Stmt.{Step, fail}
use sqlike.Sql.Names.{index_of, is_some}
use sqlike.Sql.Builder.{Env}
use sqlike.Sql.Expr.{make_clause, build_group}
use sqlike.Sql.Actions.{UpdateActions}
use sqlike.Sql.Actions.Update as Update
use sqlike.Sql.Actions.Statements.{update_query}
use sqlike.Sql.Insert.{Field, look_up, Record}
use sqlike.Sql.Table.{or_default}

-- `skipColumns`
unfoldable pub skip_columns : List Bytes → List Field → List Field
unfolding index_of
skip_columns omits [] = []
skip_columns omits (f ∷ fs) =
    let rest = skip_columns omits fs in
    if look_up f (codes "generated_column")
    then rest
    else if ltb 0 (length omits) && is_some (index_of omits f.name)
    then rest
    else f ∷ rest

-- A column and its value (`ColumnValue`).
abbrev pub Pair : Type 0
Pair = Bytes × Any

abbrev pub pair_of : Record → Field → Pair
pair_of v f = (f.name, v f)

-- A round of the loop of `modifyOne`: the primary key that is found and the values that are set.
unfoldable pub modify_field :
    Bytes → Record → Option Pair × List Pair → Field → Option Pair × List Pair
unfolding index_of
modify_field pk v (none, values) f =
    if look_up f (codes "primary_key")
    then (some (pair_of v f), values)
    else if same f.name pk
    then (some (pair_of v f), values)
    else (none, values ++ pair_of v f ∷ [])
modify_field pk v (some k, values) f =
    if look_up f (codes "primary_key")
    then (some (pair_of v f), values ++ k ∷ [])
    else (some k, values ++ pair_of v f ∷ [])

unfoldable pub modify_loop :
    Bytes → Record → Option Pair × List Pair → List Field → Option Pair × List Pair
unfolding modify_field
modify_loop pk v st [] = st
modify_loop pk v st (f ∷ fs) = modify_loop pk v (modify_field pk v st f) fs

-- The action of `modifyOne` for a key and the other values.
unfoldable pub modify_action : Bytes → Bytes → Pair → List Pair → UpdateActions
unfolding build_group make_clause
modify_action db_name tb_name k values = record {
  database = db_name;
  table = tb_name;
  conditions = build_group and (cons (make_clause (scalar (text k.0)) equal k.1) empty);
  values = values;
  sorts = empty;
  limit = 1;
}

module _ (env : Env) where
  abbrev pub modify_found : Bytes → Bytes → Option Pair × List Pair → Step
  unfolding modify_action update_query
  modify_found db_name tb_name (none, values) = fail "sqlike: missing primary key field"
  modify_found db_name tb_name (some k, values) =
      update_query env (modify_action db_name tb_name k values)

  -- `modifyOne`, up to the query.
  unfoldable pub modify_one : Bytes → Bytes → Bytes → List Bytes → List Field → Record → Step
  unfolding skip_columns modify_loop modify_found modify_action update_query
  modify_one db_name tb_name pk omits fields v =
      modify_found db_name tb_name (modify_loop pk v (none, []) (skip_columns omits fields))

  abbrev no_values : List Pair → Bool
  no_values [] = true
  no_values (kv ∷ kvs) = false

  -- `update`, up to the query.
  unfoldable pub update : Bytes → Bytes → UpdateActions → Step
  unfolding update_query
  update db_name tb_name act =
      if no_values act.values
      then fail "sqlike: no value to update"
      else update_query env (record act {
        database = or_default db_name act.database;
        table = or_default tb_name act.table;
      })

  -- `UpdateOne`
  abbrev update_one : Bytes → Bytes → UpdateActions → Step
  unfolding update
  update_one db_name tb_name act = update db_name tb_name (Update.limit 1 act)
