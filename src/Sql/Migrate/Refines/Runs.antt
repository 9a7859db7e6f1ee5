-- ===== src/Sql/Migrate/Refines/Runs.antt =====
-- The statement of `AlterTable`, run on a table.
use sqlike.Common.{
  ◌||◌, ◌≡◌, refl, sym, ap, ◌∙◌, Bool, true, false, List, [], ◌∷◌, ◌++◌, Option, none, some, Bytes,
  arith, same_self, if◌then◌else◌, inl, inr, Bool-cases, append-nil, ||_false,
}
use sqlike.Sql.Names.{is_some}
use sqlike.Sql.Migrate.{Entry}
use sqlike.Sql.Migrate.Table.{
  first, Piece, comma, character_set, place_all, drops, key_pieces, alter_pieces,
}
use sqlike.Sql.Migrate.Refines.{
  has, remove, alter_columns, table, execute, run, all_in, Distinct, leave, has-append,
  remove-append,
}
use sqlike.Sql.Migrate.Refines.Leave.{Apart, leave-Apart}
use sqlike.Sql.Migrate.Refines.Placed.{
  names, index_names, add_keyed, indexes_after, keyed_after, place_all-left, place_start,
}

drops-run :
    (cs ds ix : List Bytes) (b : Bool) (ky : List Bytes) (ps : List Piece)
    → Apart cs ds
    → run false (drops cs ++ ps) (table (ds ++ cs) ix b ky) ≡ run false ps (table ds ix b ky)
unfolding drops run execute alter_columns has remove
drops-run [] ds ix b ky ps a = ap (λ c. run false ps (table c ix b ky)) (append-nil ds)
drops-run (c ∷ cs) ds ix b ky ps (h, a) =
    let l : has c (ds ++ c ∷ cs) ≡ true = ground (arith, has-append c ds (c ∷ cs), same_self c) in
    let e : remove c (ds ++ c ∷ cs) ≡ ds ++ cs =
      remove-append c ds (c ∷ cs) h ∙ rw (same_self c) refl in
    rw (l, e) (drops-run cs ds ix b ky ps a)

-- The primary key that is added, if any, is for a table without one and on one of these columns.
abbrev pub KeyFits : Option Bytes → Bool → List Bytes → Type 0
KeyFits none b ns = Unit {0}
KeyFits (some n) b ns = (b ≡ false) × (has n ns ≡ true)

abbrev pub key_onto : Option Bytes → List Bytes → List Bytes
key_onto none ky = ky
key_onto (some n) ky = n ∷ ky

key_pieces-run :
    (key : Option Bytes) (ns cols ix : List Bytes) (b : Bool) (ky : List Bytes) (ps : List Piece)
    → KeyFits key b ns
    → run false (key_pieces key ++ ps) (table cols ix b ky)
      ≡ run false ps (table cols ix (b || is_some key) (key_onto key ky))
unfolding run execute
key_pieces-run none ns cols ix b ky ps h =
    ap (λ d. run false ps (table cols ix d ky)) (sym (||_false b))
key_pieces-run (some n) ns cols ix b ky ps (h, k) = rw h refl

all_in-append : (ky ns cols : List Bytes) → all_in ky ns ≡ true → all_in ky (ns ++ cols) ≡ true
all_in-append [] ns cols h = refl
all_in-append (n ∷ ky) ns cols h = ground (arith, all_in-append ky ns cols, has-append n ns cols)

add_keyed-all_in :
    (idxs : List Bytes) (o : Option Bytes) (n : Bytes) (ky cols : List Bytes)
    → has n cols ≡ true
    → all_in ky cols ≡ true
    → all_in (add_keyed idxs o n ky) cols ≡ true
unfolding add_keyed
add_keyed-all_in idxs none n ky cols h k = k
add_keyed-all_in idxs (some i) n ky cols h k = elim (Bool-cases (has i idxs)) [
  | inl e ↦ rw e k
  | inr e ↦ rw (e, h) k
]

-- Keys are put on entries only.
keyed_after-all_in :
    (idxs : List Bytes) (es : List Entry) (ky cols : List Bytes)
    → all_in (names es) cols ≡ true
    → all_in ky cols ≡ true
    → all_in (keyed_after idxs es ky) cols ≡ true
keyed_after-all_in idxs [] ky cols h k = k
keyed_after-all_in idxs (e ∷ es) ky cols h k =
    keyed_after-all_in idxs es (add_keyed idxs e.index e.name ky) cols (ground arith)
      (add_keyed-all_in idxs e.index e.name ky cols (ground arith) k)

all_in-more :
    (ns cols : List Bytes) (n : Bytes) → all_in ns cols ≡ true → all_in ns (n ∷ cols) ≡ true
unfolding has
all_in-more [] cols n h = refl
all_in-more (m ∷ ns) cols n h = ground (arith, all_in-more ns cols n)

all_in_self : (ns : List Bytes) → all_in ns ns ≡ true
unfolding has
all_in_self [] = refl
all_in_self (n ∷ ns) = ground (arith, same_self n, all_in-more ns ns n, all_in_self ns)

key_onto-all_in :
    (key : Option Bytes) (b : Bool) (ky ns : List Bytes)
    → KeyFits key b ns
    → all_in ky ns ≡ true
    → all_in (key_onto key ky) ns ≡ true
key_onto-all_in none b ky ns h k = k
key_onto-all_in (some n) b ky ns (h, l) k = rw l k

abbrev closing : List Piece
closing = comma ∷ character_set ∷ []

closing-run :
    (ns cols ix : List Bytes) (b : Bool) (ky : List Bytes)
    → all_in ky ns ≡ true
    → run false closing (table (ns ++ cols) ix b ky) ≡ some (table (ns ++ cols) ix b ky)
unfolding run execute
closing-run ns cols ix b ky h = rw (all_in-append ky ns cols h) refl

drops_or_not-run :
    (unsafe : Bool) (cs ds ix : List Bytes) (b : Bool) (ky : List Bytes)
    → Apart cs ds
    → all_in ky ds ≡ true
    → run false ((if unsafe then drops cs else []) ++ closing) (table (ds ++ cs) ix b ky)
      ≡ some (table (ds ++ (if unsafe then [] else cs)) ix b ky)
drops_or_not-run true cs ds ix b ky a h =
    drops-run cs ds ix b ky closing a
    ∙ ap (λ c. run false closing (table c ix b ky)) (sym (append-nil ds))
    ∙ closing-run ds [] ix b ky h
drops_or_not-run false cs ds ix b ky a h = closing-run ds cs ix b ky h

-- The statement on a server that compares names byte by byte.
pub alter_pieces-run :
    (e : Entry) (es : List Entry) (key : Option Bytes) (cols idxs : List Bytes)
    (has_pk unsafe : Bool)
    → Distinct (names (e ∷ es))
    → Distinct cols
    → Distinct (index_names (e ∷ es))
    → KeyFits key has_pk (names (e ∷ es))
    → run true (alter_pieces (e ∷ es) key cols idxs unsafe) (table cols idxs has_pk [])
      ≡ some (
          table
            (names (e ∷ es) ++ (if unsafe then [] else leave (names (e ∷ es)) cols))
            (indexes_after idxs (e ∷ es) idxs)
            (has_pk || is_some key)
            (key_onto key (keyed_after idxs (e ∷ es) [])))
unfolding alter_pieces place_all
alter_pieces-run e es key cols idxs has_pk unsafe h k d f =
    let ns = names (e ∷ es) in
    let placed = place_all idxs true first cols (e ∷ es) in
    let left = leave ns cols in
    let ix = indexes_after idxs (e ∷ es) idxs in
    let ky = keyed_after idxs (e ∷ es) [] in
    let last = (if unsafe then drops placed.1 else []) ++ closing in
    let keyed = keyed_after-all_in idxs (e ∷ es) [] ns (all_in_self ns) refl in
    place_start idxs e es cols has_pk (key_pieces key ++ last) h d
    ∙ key_pieces-run key ns (ns ++ left) ix has_pk ky last f
    ∙ ap
        (λ v.
          run false ((if unsafe then drops v else []) ++ closing)
            (table (ns ++ left) ix (has_pk || is_some key) (key_onto key ky)))
        (place_all-left idxs true first cols (e ∷ es))
    ∙ drops_or_not-run unsafe left ns ix (has_pk || is_some key) (key_onto key ky)
        (leave-Apart ns cols k) (key_onto-all_in key has_pk ky ns f keyed)
