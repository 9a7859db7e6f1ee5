-- ===== src/Sql/Actions.antt =====
-- Package `actions` (sqlike/actions): the records of a query and the methods that fill them. The methods
-- of `FindOneActions`, `UpdateOneActions` and `DeleteOneActions` are those of the records they embed,
-- `FindOneActions.From` apart.
pub mod Find
pub mod Update
pub mod Delete
pub mod Statements
pub mod Balanced
use sqlike.Common.{ℕ, Bool, false, List, [], Bytes}
use sqlike.Sql.Primitive.{Any, Anys, empty}

-- `FindActions`
pub record FindActions : Type 0 where
  pub distinct_on : Bool
  pub database : Bytes
  pub table : Bytes
  pub projections : Anys
  pub index_hints : Bytes
  pub conditions : Anys
  pub havings : Anys
  pub group_bys : Anys
  pub sorts : Anys
  pub skip : ℕ
  pub count : ℕ

-- `Find`, `FindOne`
abbrev pub new_find : FindActions
new_find = record {
  distinct_on = false;
  database = [];
  table = [];
  projections = empty;
  index_hints = [];
  conditions = empty;
  havings = empty;
  group_bys = empty;
  sorts = empty;
  skip = 0;
  count = 0;
}

-- `UpdateActions`; a pair is a `KV`.
pub record UpdateActions : Type 0 where
  pub database : Bytes
  pub table : Bytes
  pub conditions : Anys
  pub values : List (Bytes × Any)
  pub sorts : Anys
  pub limit : ℕ

-- `DeleteActions`; the field `Record` is `limit`.
pub record DeleteActions : Type 0 where
  pub database : Bytes
  pub table : Bytes
  pub conditions : Anys
  pub sorts : Anys
  pub limit : ℕ
