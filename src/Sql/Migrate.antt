-- ===== src/Sql/Migrate.antt =====
-- `CreateTable` and `AlterTable` of sql/dialect/mysql/table.go, `buildSchemaByColumn` of
-- sql/dialect/mysql/schema.go and `Column`, `buildName` of sqlike/indexes. The statement is a list of the pieces
-- that are written; what `GetColumn` returns for a field stands in the field.
pub mod Walk
pub mod Table
pub mod Refines
mod Tests
use Prim.Native.String.{String}
use sqlike.Common.{
  ℕ, zero, suc, ◌+◌, Bool, true, false, List, [], ◌∷◌, ◌++◌, Option, none, some, Bytes, codes, ◌==◌,
  ◌&&◌, ◌||◌, not, ltb, same, if◌then◌else◌, length, take, drop,
}
use sqlike.Sql.Outcome.{Outcome, ok, err, panic, ◌>>=◌ as bind}
use sqlike.Sql.Stmt.{quote, wrap, table_name}
use sqlike.Sql.Names.{index_of, splice, is_some}

-- `columns.Column`
pub record Column : Type 0 where
  pub name : Bytes
  pub type_name : Bytes
  pub nullable : Bool
  pub default_value : Option Bytes
  pub charset : Option Bytes
  pub collation : Option Bytes
  pub extra : Bytes

-- A tag: its keys and their values, the first that counts in front.
abbrev pub Tag : Type 0
Tag = List (Bytes × Bytes)

abbrev pub look_up : Tag → Bytes → Option Bytes
look_up [] k = none
look_up (kv ∷ kvs) k = if same kv.0 k then some kv.1 else look_up kvs k

-- A `StructFielder` that is the child of a field: its name, its tag, its column and its children.
mutual
  pub data Child : Type 0 where
    child : Bytes → Tag → Outcome Column → Children → Child

  pub data Children : Type 0 where
    no_children : Children
    and_child : Child → Children → Children

abbrev pub child_list : Children → List Child
child_list no_children = []
child_list (and_child c cs) = c ∷ child_list cs

pub record Field : Type 0 where
  pub name : Bytes
  pub tag : Tag
  pub column : Outcome Column
  -- `reflext.Deref(sf.Type()).Kind() == reflect.Struct`
  pub is_struct : Bool
  pub children : List Child

abbrev is_empty : Bytes → Bool
is_empty [] = true
is_empty (c ∷ w) = false

abbrev has_byte : ℕ → Bytes → Bool
has_byte x [] = false
has_byte x (c ∷ w) = c == x || has_byte x w

-- `WrapOnlyValue`
abbrev pub wrap_only_value : Bytes → Bytes
wrap_only_value n = if has_byte b'(' n then n else wrap n

abbrev with_prefix : Bytes → Option Bytes → Bytes
with_prefix w none = []
with_prefix w (some v) = w ++ v

abbrev with_default : Option Bytes → Bytes
with_default none = []
with_default (some v) = codes " DEFAULT " ++ wrap_only_value v

-- `buildSchemaByColumn`
unfoldable pub build_schema_by_column : Column → Bytes
build_schema_by_column col =
    quote col.name
    ++ (codes " " ++ col.type_name)
    ++ with_prefix (codes " CHARACTER SET ") col.charset
    ++ with_prefix (codes " COLLATE ") col.collation
    ++ (if is_empty col.extra then [] else codes " " ++ col.extra)
    ++ (if col.nullable then [] else codes " NOT NULL" ++ with_default col.default_value)

-- `strings.TrimLeft(strings.TrimPrefix(w, p), ".")`
abbrev trim_dots : Bytes → Bytes
trim_dots [] = []
trim_dots (c ∷ w) = if c == b'.' then trim_dots w else c ∷ w

abbrev trim_prefix : Bytes → Bytes → Bytes
trim_prefix p w = if same (take (length p) w) p then drop (length p) w else w

abbrev is_virtual : Tag → Bool
is_virtual t = is_some (look_up t (codes "virtual_column"))

abbrev is_stored : Tag → Bool
is_stored t = is_some (look_up t (codes "stored_column"))

abbrev or_name : Option Bytes → Bytes → Bytes
or_name none n = n
or_name (some []) n = n
or_name (some (c ∷ k)) n = c ∷ k

-- The name of a generated column.
abbrev generated_name : Tag → Column → Bytes
generated_name t col =
    or_name (look_up t (codes "stored_column"))
      (or_name (look_up t (codes "virtual_column")) col.name)

-- The definition of a generated column, from its name on.
abbrev generated : Bytes → Bytes → Tag → Column → Bytes
generated sf n t col =
    quote (generated_name t col)
    ++ (codes " " ++ col.type_name)
    ++ codes " AS "
    ++ (codes "(" ++ quote sf ++ codes "->>'$." ++ trim_dots (trim_prefix sf n) ++ codes "')")
    ++ (if is_stored t then codes " STORED" else [])
    ++ (if col.nullable then [] else codes " NOT NULL")

-- A column of the table that is to be: its name, its definition, and the columns that want an index in front.
pub record Entry : Type 0 where
  pub name : Bytes
  pub definition : Bytes
  pub index : Option Bytes

abbrev pub push {ℓ} : {A : Type ℓ} → A → Outcome (List A) → Outcome (List A)
push a o = bind o (λ r. ok (a ∷ r))

-- The generated columns of a field, level by level; the fuel is the number of children below the field.
unfoldable pub generated_entries : ℕ → Bytes → List Child → Outcome (List Entry)
generated_entries f sf [] = ok []
generated_entries zero sf (c ∷ cs) = err "out of fuel"
generated_entries (suc f) sf (child n t col below ∷ cs) =
    let rest = generated_entries f sf (cs ++ child_list below) in
    if is_virtual t || is_stored t
    then bind col (λ c.
      push (record { name = generated_name t c; definition = generated sf n t c; index = none })
        rest)
    else rest

mutual
  pub size : Child → ℕ
  size (child n t col below) = suc (sizes below)

  pub sizes : Children → ℕ
  sizes no_children = 0
  sizes (and_child c cs) = size c + sizes cs

unfoldable pub all_sizes : List Child → ℕ
unfolding size
all_sizes [] = 0
all_sizes (c ∷ cs) = size c + all_sizes cs

-- A comment of more than 60 bytes panics.
abbrev with_comment : Tag → Bytes → Outcome Bytes
with_comment t w = elim (look_up t (codes "comment")) [
  | none ↦ ok w
  | some v ↦ if ltb 60 (length v) then panic else ok (w ++ (codes " COMMENT '" ++ (v ++ codes "'")))
]
