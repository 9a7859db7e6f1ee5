-- ===== src/Reflext/Ends.antt =====
-- Whether the first loop of `getCodec` of reflext/reflext.go ends.
use sqlike.Common.{
  ℕ, zero, suc, ◌≡◌, refl, ◌<◌, ◌⊎◌, inl, inr, true, false, List, [], ◌∷◌, ◌++◌, Option, none, some,
  Bytes, arith, ◌==◌, append_assoc, append-nil, subst, Bool-cases,
}
use sqlike.Reflext.Tag.{Library, parse_tag}
use sqlike.Reflext.Walk.{Decl, StructField, Item, is_skipped, field_of, enqueued, visit, walk, root}

-- The struct types of the fields are of lower rank than this one, or are this one.
abbrev pub Descends : (ℕ → ℕ) → ℕ → List Decl → Type 0
Descends rank t [] = Unit {0}
Descends rank t (d ∷ ds) =
    ((u : ℕ) → d.struct_type ≡ some u → ((t == u) ≡ true) ⊎ (rank u < rank t)) × Descends rank t ds

-- The struct types on the queue are of a rank below this.
abbrev Below : (ℕ → ℕ) → ℕ → List Item → Type 0
Below rank n [] = Unit {0}
Below rank n (q ∷ qs) = (rank q.struct_type < n) × Below rank n qs

append-Below :
    (rank : ℕ → ℕ) (n : ℕ) (ps qs : List Item)
    → Below rank n ps
    → Below rank n qs
    → Below rank n (ps ++ qs)
append-Below rank n [] qs h k = k
append-Below rank n (p ∷ ps) qs (h, i) k = (h, append-Below rank n ps qs i k)

enqueued-Below :
    (rank : ℕ → ℕ) (n : ℕ) (q : Item) (d : Decl) (sf : StructField) (s : Option ℕ)
    → rank q.struct_type < suc n
    → ((u : ℕ) → s ≡ some u → ((q.struct_type == u) ≡ true) ⊎ (rank u < rank q.struct_type))
    → Below rank n (enqueued q d sf s)
enqueued-Below rank n q d sf none r h = _
enqueued-Below rank n q d sf (some u) r h = elim (h u refl) [
  | inl e ↦ rw e _
  | inr l ↦ elim (Bool-cases (q.struct_type == u)) [
    | inl e ↦ rw e _
    | inr e ↦ rw e (omega arith, _)
  ]
]

visit-Below :
    (lib : Library) (fmt : Option (Bytes → Bytes)) (rank : ℕ → ℕ) (n : ℕ) (q : Item) (i : ℕ)
    (ds : List Decl)
    → rank q.struct_type < suc n
    → Descends rank q.struct_type ds
    → Below rank n (visit lib fmt q i ds).1
unfolding visit
visit-Below lib fmt rank n q i [] r h = _
visit-Below lib fmt rank n q i (d ∷ ds) r (h, k) =
    let rest = visit-Below lib fmt rank n q (suc i) ds r k in
    let tag = parse_tag lib fmt d.name d.tag_text in
    elim (Bool-cases (is_skipped d tag)) [
      | inl e ↦ rw e rest
      | inr e ↦ rw e (
          append-Below rank n _ _ (enqueued-Below rank n q d (field_of q i d tag) d.struct_type r h)
            rest)
    ]

abbrev Ends : Library → Option (Bytes → Bytes) → (ℕ → List Decl) → List Item → Type 0
Ends lib fmt types qs = (f : ℕ) × (fs : List StructField) × (walk lib fmt types f qs ≡ some fs)

level-Ends :
    (lib : Library) (fmt : Option (Bytes → Bytes)) (types : ℕ → List Decl) (rank : ℕ → ℕ) (n : ℕ)
    (qs next : List Item)
    → ((t : ℕ) → Descends rank t (types t))
    → Below rank (suc n) qs
    → Below rank n next
    → ((ps : List Item) → Below rank n ps → Ends lib fmt types ps)
    → Ends lib fmt types (qs ++ next)
unfolding walk
level-Ends lib fmt types rank n [] next d b c h = h next c
level-Ends lib fmt types rank n (q ∷ qs) next d (r, b) c h =
    let seen = visit lib fmt q 0 (types q.struct_type) in
    let below = visit-Below lib fmt rank n q 0 (types q.struct_type) r (d q.struct_type) in
    let e =
      level-Ends lib fmt types rank n qs (next ++ seen.1) d b (append-Below rank n _ _ c below) h in
    (suc e.0, seen.0 ++ e.1, rw (append_assoc qs next seen.1, e.2) refl)

queue-Ends :
    (lib : Library) (fmt : Option (Bytes → Bytes)) (types : ℕ → List Decl) (rank : ℕ → ℕ) (n : ℕ)
    (qs : List Item)
    → ((t : ℕ) → Descends rank t (types t))
    → Below rank n qs
    → Ends lib fmt types qs
unfolding walk
queue-Ends lib fmt types rank zero [] d b = (0, [], refl)
queue-Ends lib fmt types rank zero (q ∷ qs) d (r, b) = absurd (omega arith)
queue-Ends lib fmt types rank (suc n) qs d b =
    subst (Ends lib fmt types) (append-nil qs)
      (level-Ends lib fmt types rank n qs [] d b _ (λ ps c. queue-Ends lib fmt types rank n ps d c))

-- If each struct type holds, behind pointers, itself or struct types of lower rank only, then the first loop of
-- `getCodec` ends on every struct type.
pub walk-ends :
    (lib : Library) (fmt : Option (Bytes → Bytes)) (types : ℕ → List Decl) (rank : ℕ → ℕ) (t : ℕ)
    → ((u : ℕ) → Descends rank u (types u))
    → (f : ℕ) × (fs : List StructField) × (walk lib fmt types f (root t ∷ []) ≡ some fs)
walk-ends lib fmt types rank t d =
    queue-Ends lib fmt types rank (suc (rank t)) (root t ∷ []) d (omega arith, _)

-- The struct type has a field that is not left out and that is of another struct type of this kind.
abbrev pub LeadsOn : Library → Option (Bytes → Bytes) → (ℕ → Type 0) → ℕ → List Decl → Type 0
LeadsOn lib fmt P t [] = ⊥
LeadsOn lib fmt P t (d ∷ ds) =
    ((is_skipped d (parse_tag lib fmt d.name d.tag_text) ≡ false)
      × (u : ℕ) × (d.struct_type ≡ some u)
      × ((t == u) ≡ false)
      × P u)
    ⊎ LeadsOn lib fmt P t ds

abbrev Has : (ℕ → Type 0) → List Item → Type 0
Has P [] = ⊥
Has P (q ∷ qs) = P q.struct_type ⊎ Has P qs

in_front-Has : (P : ℕ → Type 0) (ps qs : List Item) → Has P ps → Has P (ps ++ qs)
in_front-Has P [] qs h = elim h [ ]
in_front-Has P (p ∷ ps) qs (inl h) = inl h
in_front-Has P (p ∷ ps) qs (inr h) = inr (in_front-Has P ps qs h)

behind-Has : (P : ℕ → Type 0) (ps qs : List Item) → Has P qs → Has P (ps ++ qs)
behind-Has P [] qs h = h
behind-Has P (p ∷ ps) qs h = inr (behind-Has P ps qs h)

visit-Has :
    (lib : Library) (fmt : Option (Bytes → Bytes)) (P : ℕ → Type 0) (q : Item) (i : ℕ)
    (ds : List Decl)
    → LeadsOn lib fmt P q.struct_type ds
    → Has P (visit lib fmt q i ds).1
unfolding visit
visit-Has lib fmt P q i [] h = elim h [ ]
visit-Has lib fmt P q i (d ∷ ds) (inl (s, u, e, o, p)) = rw (s, e, o) (inl p)
visit-Has lib fmt P q i (d ∷ ds) (inr h) =
    let rest = visit-Has lib fmt P q (suc i) ds h in
    elim (Bool-cases (is_skipped d (parse_tag lib fmt d.name d.tag_text))) [
      | inl e ↦ rw e rest
      | inr e ↦ rw e (behind-Has P (enqueued q d _ d.struct_type) _ rest)
    ]

queue-Has :
    (lib : Library) (fmt : Option (Bytes → Bytes)) (types : ℕ → List Decl) (P : ℕ → Type 0) (f : ℕ)
    (qs : List Item)
    → ((t : ℕ) → P t → LeadsOn lib fmt P t (types t))
    → Has P qs
    → walk lib fmt types f qs ≡ none
unfolding walk
queue-Has lib fmt types P zero [] l h = elim h [ ]
queue-Has lib fmt types P (suc f) [] l h = elim h [ ]
queue-Has lib fmt types P zero (q ∷ qs) l h = refl
queue-Has lib fmt types P (suc f) (q ∷ qs) l (inl p) =
    rw
      (queue-Has lib fmt types P f _ l
        (behind-Has P qs _ (visit-Has lib fmt P q 0 (types q.struct_type) (l q.struct_type p))))
      refl
queue-Has lib fmt types P (suc f) (q ∷ qs) l (inr h) =
    rw (queue-Has lib fmt types P f _ l (in_front-Has P qs _ h)) refl

-- Struct types of a kind of which each has a field, not left out, of another one of the kind, behind pointers:
-- the first loop of `getCodec` does not end on them, in any number of rounds.
pub walk-runs_on :
    (lib : Library) (fmt : Option (Bytes → Bytes)) (types : ℕ → List Decl) (P : ℕ → Type 0) (t : ℕ)
    → ((u : ℕ) → P u → LeadsOn lib fmt P u (types u))
    → P t
    → (f : ℕ) → walk lib fmt types f (root t ∷ []) ≡ none
walk-runs_on lib fmt types P t l p f = queue-Has lib fmt types P f (root t ∷ []) l (inl p)
