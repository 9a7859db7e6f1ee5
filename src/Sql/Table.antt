-- ===== src/Sql/Table.antt =====
-- The queries that a `Table` sends: sqlike/find.go, sqlike/delete.go and sqlike/context.go, up to the call of
-- the database.
pub mod Injected
pub mod Guard
mod Tests
use Prim.Native.String.{String}
use sqlike.Common.{
  ℕ, Bool, true, false, List, [], ◌∷◌, Option, none, some, Bytes, codes, ◌&&◌, not, ltb, same,
  if◌then◌else◌,
}
use sqlike.Sql.Outcome.{Outcome, ok, err}
use sqlike.Sql.Primitive.{and, equal, Any, Anys, scalar, text, operator, empty, cons, append}
use sqlike.Sql.Stmt.{Step, fail}
use sqlike.Sql.Builder.{Env}
use sqlike.Sql.Expr.{make_clause, build_group}
use sqlike.Sql.Actions.{FindActions, DeleteActions}
use sqlike.Sql.Actions.Find as Find
use sqlike.Sql.Actions.Delete as Delete
use sqlike.Sql.Actions.Statements.{LockMode, select_query, delete_query}

-- `if act.Database == "" { act.Database = dbName }`
abbrev pub or_default : Bytes → Bytes → Bytes
or_default d [] = d
or_default d (c ∷ n) = c ∷ n

-- `InjectResolution`: the groups of a context, and new ones behind them.
abbrev inject_resolution : List Anys → List Anys → List Anys
inject_resolution [] queries = queries
inject_resolution (g ∷ groups) queries = g ∷ inject_resolution groups queries

abbrev pub joined : List Anys → Anys
joined [] = empty
joined (g ∷ groups) = append g (joined groups)

-- The conditions of `find` with the groups of the context.
abbrev pub find_conditions : Anys → List Anys → Anys
find_conditions conditions [] = conditions
find_conditions empty (g ∷ groups) = joined (g ∷ groups)
find_conditions (cons x xs) (g ∷ groups) =
    append (append (cons x xs) (cons (operator and) empty)) (joined (g ∷ groups))

module _ (env : Env) (trim : Bytes → Bytes) where
  -- `find`, up to the query.
  unfoldable pub find : Bytes → Bytes → List Anys → FindActions → LockMode → Step
  unfolding select_query
  find db_name tb_name groups act lock = select_query env trim lock (record act {
    database = or_default db_name act.database;
    table = or_default tb_name act.table;
    conditions = find_conditions act.conditions groups;
  })

  -- `Find`: without a limit it takes 100, unless the options say otherwise.
  unfoldable pub find_many : Bytes → Bytes → List Anys → Bool → FindActions → LockMode → Step
  unfolding find
  find_many db_name tb_name groups no_limit act lock =
      if not no_limit && ltb act.count 1
      then find db_name tb_name groups (Find.limit 100 act) lock
      else find db_name tb_name groups act lock

  -- `FindOne`
  unfoldable pub find_one : Bytes → Bytes → List Anys → FindActions → LockMode → Step
  unfolding find
  find_one db_name tb_name groups act lock = find db_name tb_name groups (Find.limit 1 act) lock

abbrev pub empty_condition : String
empty_condition = "sqlike: empty condition is not allow for delete, please use truncate instead"

abbrev pub is_empty : Anys → Bool
is_empty empty = true
is_empty (cons x xs) = false

-- The fields of a `StructFielder` that `destroyOne` asks for, with the value of the record.
pub record KeyField : Type 0 where
  pub name : Bytes
  pub is_primary : Bool
  pub value : Any

-- The loop of `destroyOne`: a primary key by its tag goes before one by its name.
unfoldable pub key_of : Bytes → Option (Bytes × Any) → List KeyField → Option (Bytes × Any)
key_of pk found [] = found
key_of pk found (f ∷ fs) = elim f.is_primary [
  | true ↦ key_of pk (some (f.name, f.value)) fs
  | false ↦ elim found [
    | some kv ↦ key_of pk (some kv) fs
    | none ↦ key_of pk (if same f.name pk then some (f.name, f.value) else none) fs
  ]
]

module _ (env : Env) where
  -- `deleteMany`, up to the query.
  unfoldable pub delete_many : Bytes → Bytes → DeleteActions → Step
  unfolding delete_query
  delete_many db_name tb_name act =
      if is_empty act.conditions
      then fail empty_condition
      else delete_query env (record act {
        database = or_default db_name act.database;
        table = or_default tb_name act.table;
      })

  -- `Delete` and `DeleteOne`
  abbrev delete_one : Bytes → Bytes → DeleteActions → Step
  unfolding delete_many
  delete_one db_name tb_name act = delete_many db_name tb_name (Delete.limit 1 act)

  -- `destroyOne`, up to the query.
  unfoldable pub destroy_one : Bytes → Bytes → Bytes → List KeyField → Step
  unfolding key_of build_group delete_query make_clause
  destroy_one db_name tb_name pk fields = elim (key_of pk none fields) [
    | none ↦ fail "sqlike: missing primary key field"
    | some kv ↦ delete_query env (record {
      database = db_name;
      table = tb_name;
      conditions = build_group and (cons (make_clause (scalar (text kv.0)) equal kv.1) empty);
      sorts = empty;
      limit = 1;
    })
  ]
