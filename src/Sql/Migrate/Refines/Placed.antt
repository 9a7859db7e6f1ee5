-- ===== src/Sql/Migrate/Refines/Placed.antt =====
-- The columns that `AlterTable` places, run on a table.
use sqlike.Common.{
  same, ◌≡◌, refl, sym, ap, subst, ◌∙◌, Bool, true, false, List, [], ◌∷◌, ◌++◌, Option, none, some,
  Bytes, arith, if◌then◌else◌, inl, inr, Bool-cases, Option-cases, append_assoc,
}
use sqlike.Sql.Names.{index_of, is_some}
use sqlike.Sql.Migrate.{Entry}
use sqlike.Sql.Migrate.Table.{
  Action, Position, first, after, Piece, place, action_on, with_index, place_all,
}
use sqlike.Sql.Migrate.Refines.{
  has, remove, insert_at, alter_columns, table, with_columns, execute, run, then_run, Distinct,
  leave, has-append, index_of-has, splice-remove, remove-absent, remove-append, insert_after-append,
}
use sqlike.Sql.Migrate.Refines.Leave.{same_sym, has-before}

action_on-left :
    (n : Bytes) (cols : List Bytes) → (action_on cols (index_of cols n)).1 ≡ remove n cols
action_on-left n cols = elim (Option-cases (index_of cols n)) [
  | inl h ↦ rw h (sym (remove-absent n cols (sym (index_of-has n cols) ∙ ap is_some h)))
  | inr (i, h) ↦ rw h (splice-remove n cols i h)
]

-- A column is placed behind the last one.
place_next :
    (n d p : Bytes) (ds cols : List Bytes)
    → has n (ds ++ p ∷ []) ≡ false
    → has p ds ≡ false
    → alter_columns (place (action_on cols (index_of cols n)).0 n d (after p)) (ds ++ p ∷ cols)
      ≡ some (ds ++ p ∷ n ∷ remove n cols)
unfolding alter_columns insert_at has remove
place_next n d p ds cols h k = elim (Option-cases (index_of cols n)) [
  | inl e ↦
      let a : has n cols ≡ false = sym (index_of-has n cols) ∙ ap is_some e in
      ground (
        arith,
        has-append n ds (p ∷ cols),
        has-append n ds (p ∷ []),
        insert_after-append p n ds cols k,
        remove-absent n cols a,
      )
  | inr (i, e) ↦
      let a : has n cols ≡ true = sym (index_of-has n cols) ∙ ap is_some e in
      let b : has n ds ≡ false = ground (arith, has-append n ds (p ∷ [])) in
      ground (
        arith,
        has-append n ds (p ∷ cols),
        has-append n ds (p ∷ []),
        remove-append n ds (p ∷ cols) b,
        insert_after-append p n ds (remove n cols) k,
      )
]

place_first :
    (n d : Bytes) (cols : List Bytes)
    → alter_columns (place (action_on cols (index_of cols n)).0 n d first) cols
      ≡ some (n ∷ remove n cols)
unfolding alter_columns insert_at
place_first n d cols = elim (Option-cases (index_of cols n)) [
  | inl e ↦
      let a : has n cols ≡ false = sym (index_of-has n cols) ∙ ap is_some e in
      ground (arith, remove-absent n cols a)
  | inr (i, e) ↦
      let a : has n cols ≡ true = sym (index_of-has n cols) ∙ ap is_some e in ground arith
]

abbrev pub names : List Entry → List Bytes
names [] = []
names (e ∷ es) = e.name ∷ names es

pub place_all-left :
    (idxs : List Bytes) (start : Bool) (suffix : Position) (cols : List Bytes) (es : List Entry)
    → (place_all idxs start suffix cols es).1 ≡ leave (names es) cols
unfolding place_all leave
place_all-left idxs start suffix cols [] = refl
place_all-left idxs start suffix cols (e ∷ es) =
    place_all-left idxs false (after e.name) (action_on cols (index_of cols e.name)).1 es
    ∙ ap (leave (names es)) (action_on-left e.name cols)

abbrev pub and_index : Option Bytes → List Bytes → List Bytes
and_index none ns = ns
and_index (some i) ns = i ∷ ns

-- The names of the indexes that the entries want.
abbrev pub index_names : List Entry → List Bytes
index_names [] = []
index_names (e ∷ es) = and_index e.index (index_names es)

-- The indexes of a table, and the columns with keys, behind the entries; `idxs` are those it has before.
unfoldable pub add_index : List Bytes → Option Bytes → List Bytes → List Bytes
add_index idxs none ix = ix
add_index idxs (some i) ix = if has i idxs then ix else i ∷ ix

unfoldable pub add_keyed : List Bytes → Option Bytes → Bytes → List Bytes → List Bytes
add_keyed idxs none n ky = ky
add_keyed idxs (some i) n ky = if has i idxs then ky else n ∷ ky

abbrev pub indexes_after : List Bytes → List Entry → List Bytes → List Bytes
indexes_after idxs [] ix = ix
indexes_after idxs (e ∷ es) ix = indexes_after idxs es (add_index idxs e.index ix)

abbrev pub keyed_after : List Bytes → List Entry → List Bytes → List Bytes
keyed_after idxs [] ky = ky
keyed_after idxs (e ∷ es) ky = keyed_after idxs es (add_keyed idxs e.index e.name ky)

-- Of the indexes that the entries want the table has those that it had before.
abbrev Fresh : List Bytes → List Bytes → List Entry → Type 0
Fresh idxs ix [] = Unit {0}
Fresh idxs ix (e ∷ es) = ((i : Bytes) → e.index ≡ some i → has i ix ≡ has i idxs) × Fresh idxs ix es

Fresh-self : (idxs : List Bytes) (es : List Entry) → Fresh idxs idxs es
Fresh-self idxs [] = tt
Fresh-self idxs (e ∷ es) = ((λ i h. refl), Fresh-self idxs es)

absent_below :
    (i : Bytes) (o : Option Bytes) (ns : List Bytes)
    → has i (and_index o ns) ≡ false
    → has i ns ≡ false
unfolding has
absent_below i none ns h = h
absent_below i (some j) ns h = ground arith

absent_other :
    (i : Bytes) (o : Option Bytes) (ns : List Bytes) (j : Bytes)
    → has i (and_index o ns) ≡ false
    → o ≡ some j
    → same i j ≡ false
unfolding has
absent_other i none ns j h e = cc
absent_other i (some k) ns j h e =
    let a : same k i ≡ false = ground arith in
    let b : same j i ≡ false = ground arith in same_sym j i b

Fresh-more :
    (i : Bytes) (idxs ix : List Bytes) (es : List Entry)
    → has i (index_names es) ≡ false
    → Fresh idxs ix es
    → Fresh idxs (i ∷ ix) es
unfolding has
Fresh-more i idxs ix [] d f = tt
Fresh-more i idxs ix (e ∷ es) d (f, fs) = (
  (λ j q. rw (absent_other i e.index (index_names es) j d q) (f j q)),
  Fresh-more i idxs ix es (absent_below i e.index (index_names es) d) fs,
)

-- What is fresh stays so when the index of an entry is added.
Fresh-next :
    (idxs ix : List Bytes) (o : Option Bytes) (es : List Entry)
    → Distinct (and_index o (index_names es))
    → Fresh idxs ix es
    → Fresh idxs (add_index idxs o ix) es × Distinct (index_names es)
unfolding add_index
Fresh-next idxs ix none es d f = (f, d)
Fresh-next idxs ix (some i) es (a, d) f = elim (Bool-cases (has i idxs)) [
  | inl h ↦ rw h (f, d)
  | inr h ↦ rw h (Fresh-more i idxs ix es a f, d)
]

-- An index that is not there yet, and the comma behind it.
with_index-run :
    (idxs : List Bytes) (e : Entry) (cols ix : List Bytes) (b : Bool) (ky : List Bytes)
    (ps : List Piece)
    → ((i : Bytes) → e.index ≡ some i → has i ix ≡ has i idxs)
    → run true (with_index idxs e ++ ps) (table cols ix b ky)
      ≡ run true ps (table cols (add_index idxs e.index ix) b (add_keyed idxs e.index e.name ky))
unfolding run execute add_index add_keyed
with_index-run idxs e cols ix b ky ps f = elim (Option-cases e.index) [
  | inl h ↦ rw h refl
  | inr (i, h) ↦ elim (Bool-cases (has i idxs)) [
    | inl k ↦ rw (h, index_of-has i idxs, k) refl
    | inr k ↦ rw (h, index_of-has i idxs, k, f i h ∙ k) refl
  ]
]

-- A column that is placed.
run_place :
    (a : Action) (n d : Bytes) (p : Position) (cols after_cols ix : List Bytes) (b : Bool)
    (ky : List Bytes) (ps : List Piece)
    → alter_columns (place a n d p) cols ≡ some after_cols
    → run true (place a n d p ∷ ps) (table cols ix b ky) ≡ run false ps (table after_cols ix b ky)
unfolding run execute
run_place a n d p cols after_cols ix b ky ps h =
    ap (λ o. then_run (with_columns ix b ky o) (run false ps)) h

place_rest :
    (idxs : List Bytes) (es : List Entry) (ds : List Bytes) (p : Bytes) (cols ix : List Bytes)
    (b : Bool) (ky : List Bytes) (ps : List Piece)
    → Distinct (ds ++ p ∷ names es)
    → Distinct (index_names es)
    → Fresh idxs ix es
    → run false ((place_all idxs false (after p) cols es).0 ++ ps) (table (ds ++ p ∷ cols) ix b ky)
      ≡ run false ps (
          table
            ((ds ++ p ∷ names es) ++ leave (names es) cols)
            (indexes_after idxs es ix)
            b
            (keyed_after idxs es ky))
unfolding place_all leave run
place_rest idxs [] ds p cols ix b ky ps h d f =
    ap (λ c. run false ps (table c ix b ky)) (sym (append_assoc ds (p ∷ []) cols))
place_rest idxs (e ∷ es) ds p cols ix b ky ps h d (f, fs) =
    let n = e.name in
    let act = action_on cols (index_of cols n) in
    let rest = (place_all idxs false (after n) act.1 es).0 in
    let ix' = add_index idxs e.index ix in
    let ky' = add_keyed idxs e.index n ky in
    let q = sym (append_assoc ds (p ∷ []) (n ∷ names es)) in
    let h' : Distinct ((ds ++ p ∷ []) ++ n ∷ names es) = subst Distinct q h in
    let (fs', d') = Fresh-next idxs ix e.index es d fs in
    ap (λ qs. run true qs (table (ds ++ p ∷ cols) ix b ky))
      (append_assoc (with_index idxs e) (place act.0 n e.definition (after p) ∷ rest) ps)
    ∙ with_index-run idxs e (ds ++ p ∷ cols) ix b ky
        (place act.0 n e.definition (after p) ∷ rest ++ ps) f
    ∙ run_place act.0 n e.definition (after p) (ds ++ p ∷ cols) (ds ++ p ∷ n ∷ remove n cols) ix' b
        ky' (rest ++ ps)
        (place_next n e.definition p ds cols (has-before n (ds ++ p ∷ []) (names es) h')
          (has-before p ds (n ∷ names es) h))
    ∙ ap (λ c. run false (rest ++ ps) (table c ix' b ky'))
        (ap (λ v. ds ++ p ∷ n ∷ v) (sym (action_on-left n cols))
          ∙ sym (append_assoc ds (p ∷ []) (n ∷ act.1)))
    ∙ place_rest idxs es (ds ++ p ∷ []) n act.1 ix' b ky' ps h' d' fs'
    ∙ ap (λ c. run false ps (table c (indexes_after idxs es ix') b (keyed_after idxs es ky')))
        (ap (λ v. ((ds ++ p ∷ []) ++ n ∷ names es) ++ leave (names es) v) (action_on-left n cols)
          ∙ ap (λ v. v ++ leave (names es) (remove n cols))
              (append_assoc ds (p ∷ []) (n ∷ names es)))

pub place_start :
    (idxs : List Bytes) (e : Entry) (es : List Entry) (cols : List Bytes) (b : Bool)
    (ps : List Piece)
    → Distinct (names (e ∷ es))
    → Distinct (index_names (e ∷ es))
    → run true ((place_all idxs true first cols (e ∷ es)).0 ++ ps) (table cols idxs b [])
      ≡ run false ps (
          table
            (names (e ∷ es) ++ leave (names (e ∷ es)) cols)
            (indexes_after idxs (e ∷ es) idxs)
            b
            (keyed_after idxs (e ∷ es) []))
unfolding place_all leave
place_start idxs e es cols b ps h d =
    let n = e.name in
    let act = action_on cols (index_of cols n) in
    let rest = (place_all idxs false (after n) act.1 es).0 in
    let ix' = add_index idxs e.index idxs in
    let ky' = add_keyed idxs e.index n [] in
    let (fs', d') = Fresh-next idxs idxs e.index es d (Fresh-self idxs es) in
    ap (λ qs. run true qs (table cols idxs b []))
      (append_assoc (with_index idxs e) (place act.0 n e.definition first ∷ rest) ps)
    ∙ with_index-run idxs e cols idxs b [] (place act.0 n e.definition first ∷ rest ++ ps)
        (λ i q. refl)
    ∙ run_place act.0 n e.definition first cols (n ∷ remove n cols) ix' b ky' (rest ++ ps)
        (place_first n e.definition cols)
    ∙ ap (λ v. run false (rest ++ ps) (table (n ∷ v) ix' b ky')) (sym (action_on-left n cols))
    ∙ place_rest idxs es [] n act.1 ix' b ky' ps h d' fs'
    ∙ ap
        (λ v. run false ps (
          table (names (e ∷ es) ++ leave (names es) v) (indexes_after idxs es ix') b
            (keyed_after idxs es ky')))
        (action_on-left n cols)
