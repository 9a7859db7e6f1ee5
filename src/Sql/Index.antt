-- ===== src/Sql/Index.antt =====
-- sql/dialect/mysql/index.go, with the indexes of sqlike/indexes/index.go.
pub mod Drop
mod Tests
use sqlike.Common.{
  ℕ, suc, Bool, true, false, List, [], ◌∷◌, ◌++◌, Bytes, codes, ltb, same, if◌then◌else◌, length,
}
use sqlike.Sql.Primitive.{pos, text, boolean, int}
use sqlike.Sql.Stmt.{Arg, plain, Step, ◌>>◌, done, write, append_arg, quote, table_name}
use sqlike.Sql.Builder.{Env}

-- `Type`; the zero value is no type.
pub data IndexType : Type 0 where
  no_type b_tree full_text unique spatial primary multi_valued : IndexType

-- `Col`
pub record Col : Type 0 where
  pub name : Bytes
  pub is_descending : Bool

pub record Index : Type 0 where
  pub name : Bytes
  pub cast : Bytes
  pub cast_type : Bytes
  pub kind : IndexType
  pub columns : List Col
  pub comment : Bytes

-- The loop over the columns in `buildName`, from index `i` on.
abbrev name_columns : ℕ → List Col → Bytes
name_columns i [] = []
name_columns i (c ∷ cs) =
    (if ltb 0 i then codes ";" else [])
    ++ (c.name
        ++ ((if c.is_descending then codes "@DESC" else codes "@ASC") ++ name_columns (suc i) cs))

-- `buildName`
abbrev pub build_name : Index → Bytes
build_name idx = elim idx.kind [
  | primary ↦ codes "PRIMARY"
  | unique ↦ codes "UX-" ++ name_columns 0 idx.columns
  | full_text ↦ codes "FTX-" ++ name_columns 0 idx.columns
  | multi_valued ↦ codes "MVX-" ++ name_columns 0 idx.columns
  | no_type ↦ codes "IX-" ++ name_columns 0 idx.columns
  | b_tree ↦ codes "IX-" ++ name_columns 0 idx.columns
  | spatial ↦ codes "IX-" ++ name_columns 0 idx.columns
]

-- `getIndexByType`
abbrev pub index_by_type : IndexType → Bytes
index_by_type full_text = codes "FULLTEXT INDEX"
index_by_type spatial = codes "SPATIAL INDEX"
index_by_type unique = codes "UNIQUE INDEX"
index_by_type primary = codes "PRIMARY KEY"
index_by_type _ = codes "INDEX"

-- The loop over the columns in `CreateIndexes`, from index `i` on.
abbrev index_columns : Bool → ℕ → List Col → Bytes
index_columns support_desc i [] = []
index_columns support_desc i (c ∷ cs) =
    (if ltb 0 i then codes "," else [])
    ++ (quote c.name
        ++ ((if support_desc then if c.is_descending then codes " DESC" else [] else [])
            ++ index_columns support_desc (suc i) cs))

abbrev is_multi_valued : IndexType → Bool
is_multi_valued multi_valued = true
is_multi_valued _ = false

-- The hash of `HashName` in hexadecimal, and the test of the regular expression in `CreateIndexes`.
module _ (env : Env) (md5_hex : Bytes → Bytes) (is_path : Bytes → Bool) where
  -- `GetName`
  abbrev pub get_name : Index → Bytes
  get_name idx = if same idx.name [] then md5_hex (build_name idx) else idx.name

  abbrev cast_column : Bytes → Bytes
  cast_column w = if is_path w then w else quote w ++ codes " -> '$'"

  -- What the loop of `CreateIndexes` writes for an index behind the comma.
  abbrev create_index : Bool → Index → Bytes
  create_index support_desc idx =
      codes " ADD "
      ++ (index_by_type idx.kind
          ++ (codes " "
              ++ ((if is_multi_valued idx.kind
                    then get_name idx
                      ++ (codes "( (CAST("
                          ++ (cast_column idx.cast
                              ++ (codes " AS " ++ (idx.cast_type ++ codes ")) )"))))
                    else (if same (get_name idx) [] then [] else quote (get_name idx))
                      ++ (codes " (" ++ (index_columns support_desc 0 idx.columns ++ codes ")")))
                  ++ (if same idx.comment []
                      then []
                      else codes " COMMENT " ++ env.go_quote idx.comment))))

  abbrev create_loop : Bool → ℕ → List Index → Bytes
  create_loop support_desc i [] = []
  create_loop support_desc i (idx ∷ idxs) =
      (if ltb 0 i then codes "," else [])
      ++ (create_index support_desc idx ++ create_loop support_desc (suc i) idxs)

  -- `CreateIndexes`
  abbrev pub create_indexes : Bytes → Bytes → List Index → Bool → Step
  create_indexes db table idxs support_desc = do
    write (codes "ALTER TABLE " ++ table_name db table)
    write (create_loop support_desc 0 idxs)
    write (codes ";")

-- The loop of `DropIndexes`, from index `i` on.
unfoldable pub drop_loop : ℕ → List Bytes → Bytes
drop_loop i [] = []
drop_loop i (idx ∷ idxs) =
    let rest = drop_loop (suc i) idxs in
    if same idx (codes "PRIMARY")
    then rest
    else (if ltb 0 i then codes "," else []) ++ (codes "DROP INDEX " ++ (quote idx ++ rest))

-- `DropIndexes`
unfoldable pub drop_indexes : Bytes → Bytes → List Bytes → Step
unfolding drop_loop
drop_indexes db table idxs = do
  write (codes "ALTER TABLE " ++ (table_name db table ++ codes " "))
  write (drop_loop 0 idxs)
  write (codes ";")

-- `nonUnique` and `idxType` of `HasIndex`.
abbrev non_unique : IndexType → Bool
non_unique unique = false
non_unique primary = false
non_unique _ = true

abbrev type_word : IndexType → Bytes
type_word full_text = codes "FULLTEXT"
type_word spatial = codes "SPATIAL"
type_word _ = codes "BTREE"

abbrev arg_text : Bytes → Step
arg_text w = append_arg (plain (text w))

-- The loop of `HasIndex`: the placeholders, and the arguments, which are appended at the end.
abbrev column_holes : ℕ → List Col → Bytes
column_holes i [] = []
column_holes i (c ∷ cs) =
    (if ltb 0 i then codes "," else []) ++ (codes "?" ++ column_holes (suc i) cs)

abbrev column_args : List Col → Step
column_args [] = done
column_args (c ∷ cs) = arg_text c.name >> column_args cs

-- `HasIndex`
abbrev pub has_index : Bytes → Bytes → Index → Step
has_index db table idx = do
  write (
      codes
        "SELECT COUNT(1) FROM (SELECT INDEX_NAME, COUNT(*) AS c FROM INFORMATION_SCHEMA.STATISTICS ")
  write (codes "WHERE TABLE_SCHEMA = ? AND TABLE_NAME = ? AND INDEX_TYPE = ? AND NON_UNIQUE = ? ")
  write (codes "AND COLUMN_NAME IN (")
  write (column_holes 0 idx.columns)
  write (codes ") GROUP BY INDEX_NAME) AS temp WHERE temp.c = ?;")
  arg_text db
  arg_text table
  arg_text (type_word idx.kind)
  append_arg (plain (boolean (non_unique idx.kind)))
  column_args idx.columns
  append_arg (plain (int (pos (length idx.columns))))

-- `HasIndexByName`
abbrev pub has_index_by_name : Bytes → Bytes → Bytes → Step
has_index_by_name db table index_name = do
  write (codes "SELECT COUNT(1) FROM INFORMATION_SCHEMA.STATISTICS WHERE TABLE_SCHEMA = ? ")
  write (codes "AND TABLE_NAME = ? AND INDEX_NAME = ?;")
  arg_text db
  arg_text table
  arg_text index_name

-- `GetIndexes`
abbrev pub get_indexes : Bytes → Bytes → Step
get_indexes db table = do
  write (
      codes
        "SELECT DISTINCT INDEX_NAME, INDEX_TYPE, NON_UNIQUE FROM INFORMATION_SCHEMA.STATISTICS ")
  write (codes "WHERE TABLE_SCHEMA = ? AND TABLE_NAME = ?;")
  arg_text db
  arg_text table
