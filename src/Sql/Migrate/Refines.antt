-- ===== src/Sql/Migrate/Refines.antt =====
-- What the statement of `AlterTable` does to a table, that is, to its columns, its indexes and its keys: a piece of
-- the statement is a step on it that may be refused, and there is one comma between any two pieces. Names are compared
-- byte by byte here; Refines/Folded has a server that takes some names for the same.
pub mod Leave
pub mod Placed
pub mod Runs
pub mod Folded
use sqlike.Common.{
  ℕ, zero, suc, ◌+◌, ◌≡◌, ◌≢◌, refl, sym, ap, subst, ◌∙◌, Bool, true, false, List, [], ◌∷◌, ◌++◌,
  map, Option, none, some, Bytes, arith, same, same_iff, same_self, if◌then◌else◌, ◌||◌, inl, inr,
  Bool-cases, Option-cases, append_assoc, append-nil, take, drop, ◌&&◌,
}
use sqlike.Sql.Names.{index_of, splice, is_some}
use sqlike.Sql.Migrate.{Entry}
use sqlike.Sql.Migrate.Table.{
  Action, add, modify, Position, first, after, Piece, comma, unique_index, place, primary_key,
  drop_column, character_set, action_on, with_index, place_all, drops, key_pieces, alter_pieces,
}

-- A name stands in a table.
unfoldable pub has : Bytes → List Bytes → Bool
has n [] = false
has n (x ∷ xs) = same x n || has n xs

unfoldable pub remove : Bytes → List Bytes → List Bytes
remove n [] = []
remove n (x ∷ xs) = let rest = remove n xs in if same x n then xs else x ∷ rest

abbrev put_first : Bytes → Option (List Bytes) → Option (List Bytes)
put_first x none = none
put_first x (some xs) = some (x ∷ xs)

unfoldable pub insert_after : Bytes → Bytes → List Bytes → Option (List Bytes)
insert_after p n [] = none
insert_after p n (x ∷ xs) =
    let rest = insert_after p n xs in if same x p then some (x ∷ n ∷ xs) else put_first x rest

unfoldable pub insert_at : Position → Bytes → List Bytes → Option (List Bytes)
insert_at first n t = some (n ∷ t)
insert_at (after p) n t = insert_after p n t

-- A piece on the columns of a table: a column is added if it is not there, modified or dropped if it is.
unfoldable pub alter_columns : Piece → List Bytes → Option (List Bytes)
alter_columns (place add n d p) t = if has n t then none else insert_at p n t
alter_columns (place modify n d p) t = if has n t then insert_at p n (remove n t) else none
alter_columns (drop_column n) t = if has n t then some (remove n t) else none
alter_columns _ t = some t

-- A table: its columns, the names of its indexes, whether it has a primary key, and the columns that the statement
-- has put keys on.
pub data Table : Type 0 where
  table : List Bytes → List Bytes → Bool → List Bytes → Table

abbrev pub columns_of : Table → List Bytes
columns_of (table cols ix b ky) = cols

abbrev pub with_columns : List Bytes → Bool → List Bytes → Option (List Bytes) → Option Table
with_columns ix b ky none = none
with_columns ix b ky (some cols) = some (table cols ix b ky)

-- A piece between commas: an index or a primary key is added if the table has none such.
unfoldable pub execute : Piece → Table → Option Table
execute comma t = none
execute (unique_index i n) (table cols ix b ky) =
    if has i ix then none else some (table cols (i ∷ ix) b (n ∷ ky))
execute (primary_key n) (table cols ix b ky) =
    if b then none else some (table cols ix true (n ∷ ky))
execute character_set t = some t
execute (drop_column n) (table cols ix b ky) =
    with_columns ix b ky (alter_columns (drop_column n) cols)
execute (place a n d p) (table cols ix b ky) =
    with_columns ix b ky (alter_columns (place a n d p) cols)

abbrev pub then_run : Option Table → (Table → Option Table) → Option Table
then_run none k = none
then_run (some t) k = k t

abbrev pub all_in : List Bytes → List Bytes → Bool
all_in [] cols = true
all_in (n ∷ ns) cols = has n cols && all_in ns cols

-- At the end the keys are put on columns that the table has.
abbrev pub finish : Table → Option Table
finish (table cols ix b ky) = if all_in ky cols then some (table cols ix b ky) else none

-- The statement: pieces with one comma between any two of them. The flag says that a piece is to come.
unfoldable pub run : Bool → List Piece → Table → Option Table
run false [] t = finish t
run true [] t = none
run false (comma ∷ ps) t = run true ps t
run false (p ∷ ps) t = none
run true (p ∷ ps) t = then_run (execute p t) (run false ps)

-- No name stands twice.
abbrev pub Distinct : List Bytes → Type 0
Distinct [] = Unit {0}
Distinct (x ∷ xs) = (has x xs ≡ false) × Distinct xs

-- The columns of a table that are not among the names.
pub leave : List Bytes → List Bytes → List Bytes
leave [] cols = cols
leave (n ∷ ns) cols = leave ns (remove n cols)

pub has-append : (n : Bytes) (xs ys : List Bytes) → has n (xs ++ ys) ≡ (has n xs || has n ys)
unfolding has
has-append n [] ys = refl
has-append n (x ∷ xs) ys = ground (arith, has-append n xs ys)

-- What `IndexOf` and `Splice` do.
pub index_of-has : (n : Bytes) (cols : List Bytes) → is_some (index_of cols n) ≡ has n cols
unfolding index_of has
index_of-has n [] = refl
index_of-has n (x ∷ xs) = ground (arith, index_of-has n xs)

pub splice-remove :
    (n : Bytes) (cols : List Bytes) (i : ℕ)
    → index_of cols n ≡ some i
    → splice cols i ≡ remove n cols
unfolding index_of remove
splice-remove n [] i e = cc
splice-remove n (x ∷ xs) i e = elim (Bool-cases (same x n)) [
  | inl h ↦ ground arith
  | inr h ↦ elim (Option-cases (index_of xs n)) [
    | inl k ↦ ground arith
    | inr (j, k) ↦
        let ij : i ≡ suc j = ground arith in rw (ij, h) (ap (λ v. x ∷ v) (splice-remove n xs j k))
  ]
]

pub remove-absent : (n : Bytes) (cols : List Bytes) → has n cols ≡ false → remove n cols ≡ cols
unfolding has remove
remove-absent n [] h = refl
remove-absent n (x ∷ xs) h = ground (arith, remove-absent n xs)

pub remove-append :
    (n : Bytes) (xs ys : List Bytes) → has n xs ≡ false → remove n (xs ++ ys) ≡ xs ++ remove n ys
unfolding has remove
remove-append n [] ys h = refl
remove-append n (x ∷ xs) ys h = ground (arith, remove-append n xs ys)

pub insert_after-append :
    (p n : Bytes) (xs ys : List Bytes)
    → has p xs ≡ false
    → insert_after p n (xs ++ p ∷ ys) ≡ some (xs ++ p ∷ n ∷ ys)
unfolding has insert_after
insert_after-append p n [] ys h = rw (same_self p) refl
insert_after-append p n (x ∷ xs) ys h = ground (arith, insert_after-append p n xs ys)
