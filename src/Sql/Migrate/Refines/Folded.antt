-- ===== src/Sql/Migrate/Refines/Folded.antt =====
-- The statement of `AlterTable` on a server that compares names without regard to case.
use sqlike.Common.{
  ◌≡◌, refl, sym, ap, ◌∙◌, Bool, true, false, List, [], ◌∷◌, ◌++◌, map, Option, none, some, Bytes,
  same, if◌then◌else◌, ◌||◌, inl, inr, Option-cases, ℕ, zero, suc,
}
use sqlike.Sql.Names.{index_of, splice, is_some}
use sqlike.Sql.Migrate.{Entry}
use sqlike.Sql.Migrate.Table.{
  modify, Position, first, after, Piece, comma, unique_index, place, primary_key, drop_column,
  character_set, action_on, with_index, place_all, drops, key_pieces, alter_pieces,
}
use sqlike.Sql.Migrate.Refines.{table, run, Distinct, leave}
use sqlike.Sql.Migrate.Refines.Placed.{names, index_names, indexes_after, keyed_after}
use sqlike.Sql.Migrate.Refines.Runs.{KeyFits, key_onto, alter_pieces-run}

module _ (fold : Bytes → Bytes) where
  abbrev pub fold_option : Option Bytes → Option Bytes
  fold_option none = none
  fold_option (some n) = some (fold n)

  abbrev fold_position : Position → Position
  fold_position first = first
  fold_position (after n) = after (fold n)

  -- A piece as the server reads it: `fold` gives the same for names that it takes for the same.
  abbrev pub fold_piece : Piece → Piece
  fold_piece comma = comma
  fold_piece character_set = character_set
  fold_piece (unique_index i n) = unique_index (fold i) (fold n)
  fold_piece (primary_key n) = primary_key (fold n)
  fold_piece (drop_column n) = drop_column (fold n)
  fold_piece (place a n d p) = place a (fold n) d (fold_position p)

  abbrev pub fold_entry : Entry → Entry
  fold_entry e = record {
    name = fold e.name;
    definition = e.definition;
    index = fold_option e.index;
  }

  -- The server takes a name for one of these only if it is that one.
  abbrev pub Exact : Bytes → List Bytes → Type 0
  Exact n [] = Unit {0}
  Exact n (c ∷ cs) = (same (fold c) (fold n) ≡ same c n) × Exact n cs

  abbrev pub AllExact : List Bytes → List Bytes → Type 0
  AllExact [] cs = Unit {0}
  AllExact (n ∷ ns) cs = Exact n cs × AllExact ns cs

  index_of-fold :
      (n : Bytes) (cs : List Bytes) → Exact n cs → index_of (map fold cs) (fold n) ≡ index_of cs n
  unfolding index_of
  index_of-fold n [] h = refl
  index_of-fold n (c ∷ cs) (h, k) = rw (h, index_of-fold n cs k) refl

  splice-fold : (cs : List Bytes) (i : ℕ) → splice (map fold cs) i ≡ map fold (splice cs i)
  splice-fold [] zero = refl
  splice-fold [] (suc i) = refl
  splice-fold (c ∷ cs) zero = refl
  splice-fold (c ∷ cs) (suc i) = ap (λ v. fold c ∷ v) (splice-fold cs i)

  Exact-splice : (n : Bytes) (cs : List Bytes) (i : ℕ) → Exact n cs → Exact n (splice cs i)
  Exact-splice n [] zero h = tt
  Exact-splice n [] (suc i) h = tt
  Exact-splice n (c ∷ cs) zero (h, k) = k
  Exact-splice n (c ∷ cs) (suc i) (h, k) = (h, Exact-splice n cs i k)

  AllExact-action :
      (ns cs : List Bytes) (o : Option ℕ) → AllExact ns cs → AllExact ns (action_on cs o).1
  AllExact-action [] cs o h = tt
  AllExact-action (n ∷ ns) cs none h = h
  AllExact-action (n ∷ ns) cs (some i) (h, k) =
      (Exact-splice n cs i h, AllExact-action ns cs (some i) k)

  action_on-fold :
      (cs : List Bytes) (o : Option ℕ)
      → action_on (map fold cs) o ≡ ((action_on cs o).0, map fold (action_on cs o).1)
  action_on-fold cs none = refl
  action_on-fold cs (some i) = ap (λ v. (modify, v)) (splice-fold cs i)

  map-append :
      (xs ys : List Piece) → map fold_piece (xs ++ ys) ≡ map fold_piece xs ++ map fold_piece ys
  map-append [] ys = refl
  map-append (x ∷ xs) ys = ap (λ v. fold_piece x ∷ v) (map-append xs ys)

  -- The indexes that an entry wants.
  abbrev ExactIndex : Option Bytes → List Bytes → Type 0
  ExactIndex none idxs = Unit {0}
  ExactIndex (some i) idxs = Exact i idxs

  abbrev pub AllExactIndexes : List Entry → List Bytes → Type 0
  AllExactIndexes [] idxs = Unit {0}
  AllExactIndexes (e ∷ es) idxs = ExactIndex e.index idxs × AllExactIndexes es idxs

  with_index-fold :
      (idxs : List Bytes) (n d : Bytes) (o : Option Bytes)
      → ExactIndex o idxs
      → with_index (map fold idxs) (fold_entry (record { name = n; definition = d; index = o }))
        ≡ map fold_piece (with_index idxs (record { name = n; definition = d; index = o }))
  with_index-fold idxs n d none h = refl
  with_index-fold idxs n d (some i) h = elim (Option-cases (index_of idxs i)) [
    | inl e ↦ rw (index_of-fold i idxs h, e) refl
    | inr (k, e) ↦ rw (index_of-fold i idxs h, e) refl
  ]

  abbrev fold_placed : List Piece × List Bytes → List Piece × List Bytes
  fold_placed r = (map fold_piece r.0, map fold r.1)

  place_all-fold :
      (idxs : List Bytes) (start : Bool) (suffix : Position) (cs : List Bytes) (es : List Entry)
      → AllExact (names es) cs
      → AllExactIndexes es idxs
      → place_all (map fold idxs) start (fold_position suffix) (map fold cs) (map fold_entry es)
        ≡ fold_placed (place_all idxs start suffix cs es)
  unfolding place_all
  place_all-fold idxs start suffix cs [] h k = refl
  place_all-fold idxs true suffix cs (e ∷ es) (h, hs) (k, ks) =
      let o = index_of cs e.name in
      let ih =
        place_all-fold idxs false (after e.name) (action_on cs o).1 es
          (AllExact-action (names es) cs o hs) ks in
      rw
        (
          index_of-fold e.name cs h,
          action_on-fold cs o,
          ih,
          with_index-fold idxs e.name e.definition e.index k,
          map-append (with_index idxs e) (
              place (action_on cs o).0 e.name e.definition suffix
              ∷ (place_all idxs false (after e.name) (action_on cs o).1 es).0),
        )
        refl
  place_all-fold idxs false suffix cs (e ∷ es) (h, hs) (k, ks) =
      let o = index_of cs e.name in
      let ih =
        place_all-fold idxs false (after e.name) (action_on cs o).1 es
          (AllExact-action (names es) cs o hs) ks in
      rw
        (
          index_of-fold e.name cs h,
          action_on-fold cs o,
          ih,
          with_index-fold idxs e.name e.definition e.index k,
          map-append (with_index idxs e) (
              place (action_on cs o).0 e.name e.definition suffix
              ∷ (place_all idxs false (after e.name) (action_on cs o).1 es).0),
        )
        refl

  drops-fold : (cs : List Bytes) → drops (map fold cs) ≡ map fold_piece (drops cs)
  unfolding drops
  drops-fold [] = refl
  drops-fold (c ∷ cs) = ap (λ v. comma ∷ drop_column (fold c) ∷ v) (drops-fold cs)

  drops_or_not-fold :
      (unsafe : Bool) (cs : List Bytes)
      → (if unsafe then drops (map fold cs) else [])
        ≡ map fold_piece (if unsafe then drops cs else [])
  drops_or_not-fold true cs = drops-fold cs
  drops_or_not-fold false cs = refl

  key_pieces-fold :
      (key : Option Bytes) → key_pieces (fold_option key) ≡ map fold_piece (key_pieces key)
  key_pieces-fold none = refl
  key_pieces-fold (some n) = refl

  alter_pieces-fold :
      (es : List Entry) (key : Option Bytes) (cs idxs : List Bytes) (unsafe : Bool)
      → AllExact (names es) cs
      → AllExactIndexes es idxs
      → alter_pieces (map fold_entry es) (fold_option key) (map fold cs) (map fold idxs) unsafe
        ≡ map fold_piece (alter_pieces es key cs idxs unsafe)
  unfolding alter_pieces
  alter_pieces-fold es key cs idxs unsafe h k =
      let placed = place_all idxs true first cs es in
      let last = comma ∷ character_set ∷ [] in
      rw
        (
          place_all-fold idxs true first cs es h k,
          key_pieces-fold key,
          drops_or_not-fold unsafe placed.1,
        )
        (sym (
          map-append placed.0 (key_pieces key ++ ((if unsafe then drops placed.1 else []) ++ last))
          ∙ ap (λ v. map fold_piece placed.0 ++ v)
              (map-append (key_pieces key) ((if unsafe then drops placed.1 else []) ++ last)
                ∙ ap (λ v. map fold_piece (key_pieces key) ++ v)
                    (map-append (if unsafe then drops placed.1 else []) last))))

  -- The statement of `AlterTable` takes effect on a server that takes two names for the same if `fold` does, as
  -- without regard to case, on every table whose columns are different to it and whose indexes are `idxs`. The
  -- columns to be are different to it and not none, and want different indexes; a column of the table or an index
  -- that it takes for one of them is spelled like it; a primary key, if one is added, is on one of them while the
  -- table has none. The pieces have one comma between any two; the statement never adds a column, an index or a key
  -- that is there, nor modifies, drops or follows a column that is not, nor puts a key on one. The columns of the
  -- table are then those to be, in their order, and behind them, unless the migration is unsafe, the ones that are
  -- not among them; the table has the indexes that are wanted, and the key.
  pub alter_pieces-run_folded :
      (e : Entry) (es : List Entry) (key : Option Bytes) (cols idxs : List Bytes)
      (has_pk unsafe : Bool)
      → AllExact (names (e ∷ es)) cols
      → AllExactIndexes (e ∷ es) idxs
      → Distinct (names (map fold_entry (e ∷ es)))
      → Distinct (map fold cols)
      → Distinct (index_names (map fold_entry (e ∷ es)))
      → KeyFits (fold_option key) has_pk (names (map fold_entry (e ∷ es)))
      → run true
          (map fold_piece (alter_pieces (e ∷ es) key cols idxs unsafe))
          (table (map fold cols) (map fold idxs) has_pk [])
        ≡ some (
            table
              (names (map fold_entry (e ∷ es))
                ++ (if unsafe then [] else leave (names (map fold_entry (e ∷ es))) (map fold cols)))
              (indexes_after (map fold idxs) (map fold_entry (e ∷ es)) (map fold idxs))
              (has_pk || is_some (fold_option key))
              (key_onto
                (fold_option key)
                (keyed_after (map fold idxs) (map fold_entry (e ∷ es)) [])))
  alter_pieces-run_folded e es key cols idxs has_pk unsafe h i n c d f =
      ap (λ ps. run true ps (table (map fold cols) (map fold idxs) has_pk []))
        (sym (alter_pieces-fold (e ∷ es) key cols idxs unsafe h i))
      ∙ alter_pieces-run (fold_entry e) (map fold_entry es) (fold_option key) (map fold cols)
          (map fold idxs) has_pk unsafe n c d f
