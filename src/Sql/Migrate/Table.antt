-- ===== src/Sql/Migrate/Table.antt =====
-- `CreateTable` and `AlterTable` of sql/dialect/mysql/table.go.
use sqlike.Common.{
  ℕ, Bool, true, false, List, [], ◌∷◌, ◌++◌, Option, none, some, Bytes, codes, ◌==◌, ◌&&◌, ◌||◌,
  not, same, if◌then◌else◌,
}
use sqlike.Sql.Outcome.{Outcome, ok, panic, ◌>>=◌ as bind}
use sqlike.Sql.Stmt.{quote, table_name}
use sqlike.Sql.Names.{index_of, splice, is_some}
use sqlike.Sql.Migrate.{
  look_up, Field, Entry, build_schema_by_column, generated_entries, all_sizes, with_comment,
}

-- `indexes.Columns` of one name and `GetName` of its index, over `md5` in hexadecimal and `strings.TrimSpace`.
abbrev column_index : (Bytes → Bytes) → Bytes → Outcome Bytes
column_index md5 [] = panic
column_index md5 (c ∷ n) =
    if c == b'-'
    then ok (md5 (codes "IX-" ++ (n ++ codes "@DESC")))
    else ok (md5 (codes "IX-" ++ ((c ∷ n) ++ codes "@ASC")))

abbrev has_tag : Field → Bytes → Bool
has_tag f k = is_some (look_up f.tag k)

module _ (md5 trim : Bytes → Bytes) where
  abbrev index_name : Bytes → Outcome Bytes
  index_name n = column_index md5 (trim n)

  -- `GetColumn`, `buildSchemaByColumn` and the comment.
  abbrev definition : Field → Outcome Bytes
  definition f = bind f.column (λ col. with_comment f.tag (build_schema_by_column col))

  -- The column of a field in `AlterTable`; an index is wanted for two tags.
  abbrev altered_entry : Field → Outcome Entry
  altered_entry f =
      if has_tag f (codes "unique_index") || has_tag f (codes "auto_increment")
      then bind (index_name f.name) (λ i.
        bind (definition f) (λ d. ok (record { name = f.name; definition = d; index = some i })))
      else bind (definition f) (λ d. ok (record { name = f.name; definition = d; index = none }))

  -- The column of a field in `CreateTable`, where the name of the index is always computed.
  abbrev created_entry : Field → Outcome Entry
  created_entry f = bind (index_name f.name) (λ i. bind (definition f) (λ d. ok (record {
    name = f.name;
    definition = d;
    index = if has_tag f (codes "unique_index") then some i else none;
  })))

  -- The columns of the fields in the order in which they are written, the generated ones behind their field.
  unfoldable pub entries : (Field → Outcome Entry) → List Field → Outcome (List Entry)
  entries entry [] = ok []
  entries entry (f ∷ fs) =
      let rest = entries entry fs in
      bind (entry f) (λ e.
        bind
          (if f.is_struct
            then generated_entries (all_sizes f.children) f.name f.children
            else ok [])
          (λ gs. bind rest (λ es. ok (e ∷ (gs ++ es)))))

-- `pkk` behind the loop of `AlterTable` for a table without a primary key, and of `CreateTable`.
unfoldable pub altered_key : Bytes → Option Bytes → List Field → Option Bytes
altered_key pk key [] = key
altered_key pk key (f ∷ fs) =
    altered_key pk
      (if has_tag f (codes "primary_key")
        then some f.name
        else if same f.name pk && not (is_some key)
        then some f.name
        else key)
      fs

unfoldable pub created_key : Bytes → Option Bytes → List Field → Option Bytes
created_key pk key [] = key
created_key pk key (f ∷ fs) =
    created_key pk
      (if has_tag f (codes "primary_key")
        then some f.name
        else if has_tag f (codes "auto_increment")
        then some f.name
        else if same f.name pk && not (is_some key)
        then some f.name
        else key)
      fs

pub data Action : Type 0 where
  add modify : Action

pub data Position : Type 0 where
  first : Position
  after : Bytes → Position

-- What `AlterTable` writes, piece by piece.
pub data Piece : Type 0 where
  comma : Piece
  unique_index : Bytes → Bytes → Piece
  place : Action → Bytes → Bytes → Position → Piece
  primary_key : Bytes → Piece
  drop_column : Bytes → Piece
  character_set : Piece

abbrev print_action : Action → Bytes
print_action add = codes "ADD"
print_action modify = codes "MODIFY"

abbrev print_position : Position → Bytes
print_position first = codes "FIRST"
print_position (after n) = codes "AFTER " ++ quote n

unfoldable pub print_piece : Piece → Bytes
print_piece comma = codes ","
print_piece (unique_index i n) =
    codes "ADD" ++ (codes " UNIQUE INDEX " ++ (i ++ (codes " (" ++ (quote n ++ codes ")"))))
print_piece (place a n d p) =
    print_action a ++ (codes " " ++ (d ++ (codes " " ++ print_position p)))
print_piece (primary_key n) = codes "ADD PRIMARY KEY (" ++ (quote n ++ codes ")")
print_piece (drop_column n) = codes "DROP COLUMN " ++ quote n
print_piece character_set = codes "CHARACTER SET utf8mb4" ++ codes " COLLATE utf8mb4_unicode_ci"

unfoldable pub print : List Piece → Bytes
print [] = []
print (p ∷ ps) = print_piece p ++ print ps

-- The action on a column, and what is left of `cols`.
abbrev pub action_on : List Bytes → Option ℕ → Action × List Bytes
action_on cols none = (add, cols)
action_on cols (some i) = (modify, splice cols i)

abbrev pub with_index : List Bytes → Entry → List Piece
with_index idxs e = elim e.index [
  | none ↦ []
  | some i ↦ if is_some (index_of idxs i) then [] else unique_index i e.name ∷ comma ∷ []
]

-- The loop of `AlterTable` over the columns, with the columns of the table that are not yet placed.
unfoldable pub place_all :
    List Bytes → Bool → Position → List Bytes → List Entry → List Piece × List Bytes
unfolding index_of
place_all idxs start suffix cols [] = ([], cols)
place_all idxs start suffix cols (e ∷ es) =
    let act = action_on cols (index_of cols e.name) in
    let rest = place_all idxs false (after e.name) act.1 es in
    (
      (if start then [] else comma ∷ [])
          ++ (with_index idxs e ++ (place act.0 e.name e.definition suffix ∷ rest.0)),
      rest.1,
    )

unfoldable pub drops : List Bytes → List Piece
drops [] = []
drops (c ∷ cs) = comma ∷ drop_column c ∷ drops cs

abbrev pub key_pieces : Option Bytes → List Piece
key_pieces none = []
key_pieces (some n) = comma ∷ primary_key n ∷ []

-- `AlterTable` behind the table's name.
unfoldable pub alter_pieces :
    List Entry → Option Bytes → List Bytes → List Bytes → Bool → List Piece
unfolding place_all drops
alter_pieces es key cols idxs unsafe =
    let placed = place_all idxs true first cols es in
    placed.0
    ++ (key_pieces key ++ ((if unsafe then drops placed.1 else []) ++ (comma ∷ character_set ∷ [])))

-- One column of `CreateTable`.
abbrev created_column : Entry → Bytes
created_column e = elim e.index [
  | none ↦ e.definition
  | some i ↦
      codes "UNIQUE INDEX " ++ (i ++ (codes " (" ++ (quote e.name ++ (codes ")," ++ e.definition))))
]

unfoldable pub created_columns : List Entry → Bytes
created_columns [] = []
created_columns (e ∷ []) = created_column e
created_columns (e ∷ d ∷ es) = created_column e ++ (codes "," ++ created_columns (d ∷ es))

abbrev key_column : Option Bytes → Bytes
key_column none = []
key_column (some n) = codes "," ++ (codes "PRIMARY KEY (" ++ (quote n ++ codes ")"))

-- The character set of the connection and its collation.
abbrev created_charset : Bytes → Bytes → Bytes
created_charset [] collate = codes " CHARACTER SET utf8mb4" ++ codes " COLLATE utf8mb4_unicode_ci"
created_charset (c ∷ code) [] = codes " CHARACTER SET " ++ (c ∷ code)
created_charset (c ∷ code) (d ∷ collate) =
    codes " CHARACTER SET " ++ ((c ∷ code) ++ (codes " COLLATE " ++ (d ∷ collate)))

module _ (md5 trim : Bytes → Bytes) where
  unfoldable pub alter_table :
      Bytes → Bytes → Bytes → Bool → List Field → List Bytes → List Bytes → Bool → Outcome Bytes
  unfolding alter_pieces entries altered_key print
  alter_table db table pk has_pk fields cols idxs unsafe =
      bind (entries md5 trim (altered_entry md5 trim) fields) (λ es.
        let key = if has_pk then none else altered_key pk none fields in
        ok (
          codes "ALTER TABLE "
          ++ (table_name db table
              ++ (codes " " ++ (print (alter_pieces es key cols idxs unsafe) ++ codes ";")))))

  unfoldable pub create_table : Bytes → Bytes → Bytes → Bytes → Bytes → List Field → Outcome Bytes
  unfolding created_columns entries created_key
  create_table db table pk charset collate fields =
      bind (entries md5 trim (created_entry md5 trim) fields) (λ es. ok (
        codes "CREATE TABLE "
        ++ (table_name db table
            ++ (codes " ("
                ++ (created_columns es
                    ++ (key_column (created_key pk none fields)
                        ++ (codes ")"
                            ++ (codes " ENGINE=INNODB"
                                ++ (created_charset charset collate ++ codes ";")))))))))
