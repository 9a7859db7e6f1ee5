-- ===== src/Sql/Expr/Join.antt =====
-- `And` and `Or` of sql/expr/expr.go (`buildGroup`), read by Expr/Meaning.
use sqlike.Common.{
  ◌≡◌, refl, sym, ap, subst, ◌∙◌, Bool, true, false, not, arith, ◌&&◌, ◌||◌, List, [], ◌∷◌, codes,
  same, Bool-cases, &&_true, &&_assoc, ||_false, ||_assoc, ◌⊎◌, inl, inr,
}
use sqlike.Sql.Primitive.{Operator, and, or, Any, Anys, raw, operator, group, empty, cons, append}
use sqlike.Sql.Zero.{is_zero, is_empty}
use sqlike.Sql.Expr.{join_to, gather, enclose, build_group, and_group, or_group}
use sqlike.Sql.Expr.Meaning.{
  Frame, truth, evaluate, read, holds, truth-Splices, Splices, IsCondition, AllConditions, terms,
  all_true, any_true, read_condition,
}

pub append_assoc : (a b c : Anys) → append (append a b) c ≡ append a (append b c)
append_assoc empty b c = refl
append_assoc (cons x a) b c = ap (cons x) (append_assoc a b c)

-- `buildGroup` passes one group on as it is, and encloses all else.
pub group-cases :
    (op : Operator) (xs : Anys)
    → ((ys : Anys) × (xs ≡ cons (group ys) empty))
      ⊎ (build_group op xs ≡ enclose (gather op xs empty))
unfolding build_group gather enclose
group-cases op empty = inr refl
group-cases op (cons (group ys) empty) = inl (ys, refl)
group-cases op (cons (group ys) (cons y xs)) = inr refl
group-cases op (cons _ empty) = inr refl
group-cases op (cons _ (cons y xs)) = inr refl

pub build_lone : (op : Operator) (ys : Anys) → build_group op (cons (group ys) empty) ≡ ys
unfolding build_group
build_lone op ys = refl

-- A value is not left out.
abbrev pub some_nonzero : Anys → Bool
some_nonzero empty = false
some_nonzero (cons x xs) = not (is_zero x) || some_nonzero xs

join_to-nonempty : (op : Operator) (x : Any) (sg : Anys) → is_empty (join_to op x sg) ≡ false
join_to-nonempty op x empty = refl
join_to-nonempty op x (cons y sg) = refl

gather-nonempty :
    (op : Operator) (xs sg : Anys)
    → (not (is_empty sg) || some_nonzero xs) ≡ true
    → is_empty (gather op xs sg) ≡ false
unfolding gather
gather-nonempty op empty empty h = cc
gather-nonempty op empty (cons y sg) h = refl
gather-nonempty op (cons x xs) sg h = elim (Bool-cases (is_zero x)) [
  | inl z ↦ rw z (
      gather-nonempty op xs sg
        (sym (ap (λ b. not (is_empty sg) || (not b || some_nonzero xs)) z) ∙ h))
  | inr z ↦ rw z (
      gather-nonempty op xs (join_to op x sg)
        (ap (λ b. not b || some_nonzero xs) (join_to-nonempty op x sg)))
]

enclose-empty : (sg : Anys) → is_empty (enclose sg) ≡ is_empty sg
unfolding enclose
enclose-empty empty = refl
enclose-empty (cons x empty) = refl
enclose-empty (cons x (cons y sg)) = refl

-- A group of values of which one is not left out has tokens.
pub build_group-nonempty :
    (op : Operator) (xs : Anys)
    → some_nonzero xs ≡ true
    → is_zero (group (build_group op xs)) ≡ false
unfolding is_zero
build_group-nonempty op xs h = elim (group-cases op xs) [
  | inl (ys, e) ↦
      let n : some_nonzero (cons (group ys) empty) ≡ true = sym (ap some_nonzero e) ∙ h in
      ap is_empty (ap (build_group op) e ∙ build_lone op ys) ∙ ground arith
  | inr e ↦ ap is_empty e ∙ enclose-empty (gather op xs empty) ∙ gather-nonempty op xs empty h
]

module _ (v : Any → Bool) where
  -- The tokens `sg`, where a condition is to come, lead from a fresh frame to the frame `(p, q)` behind a condition.
  abbrev Reads : Anys → Bool → Bool → Type 0
  Reads sg p q =
      (st : List Frame) (rest : Anys)
      → read v (append sg rest) st false true true ≡ read v rest st p q false

  -- A condition that is not left out.
  abbrev Stands : Any → Type 0
  Stands x = (is_zero x ≡ false) × IsCondition v x

  -- A single token is a condition.
  abbrev Single : Anys → Type 0
  Single (cons x empty) = Stands x
  Single _ = Unit {0}

  Reads-condition : (x : Any) → Stands x → Reads (cons x empty) false (truth v x)
  Reads-condition x (z, h) st rest = read_condition v x rest st false true z h

  Reads-and :
      (x y : Any) (sg : Anys) (q : Bool)
      → Stands x
      → Reads (cons y sg) false q
      → Reads (join_to and x (cons y sg)) false (q && truth v x)
  unfolding read
  Reads-and x y sg q (z, h) r st rest =
      ap (λ ys. read v ys st false true true)
        (append_assoc (cons y sg) (cons (operator and) (cons x empty)) rest)
      ∙ r st (cons (operator and) (cons x rest))
      ∙ read_condition v x rest st false q z h

  Reads-or :
      (x y : Any) (sg : Anys) (p q : Bool)
      → Stands x
      → Reads (cons y sg) p q
      → Reads (join_to or x (cons y sg)) (p || q) (truth v x)
  unfolding read
  Reads-or x y sg p q (z, h) r st rest =
      ap (λ ys. read v ys st false true true)
        (append_assoc (cons y sg) (cons (operator or) (cons x empty)) rest)
      ∙ r st (cons (operator or) (cons x rest))
      ∙ read_condition v x rest st (p || q) true z h

  Single-join : (op : Operator) (x : Any) (sg : Anys) → Stands x → Single (join_to op x sg)
  Single-join op x empty h = h
  Single-join op x (cons y empty) h = tt
  Single-join op x (cons y (cons z sg)) h = tt

  -- The tokens of a group that is being built: their truth is `b`.
  abbrev Joined : Anys → Bool → Type 0
  Joined empty b = true ≡ b
  Joined (cons x sg) b =
      Single (cons x sg) × (p : Bool) × (q : Bool) × Reads (cons x sg) p q × ((p || q) ≡ b)

  -- Alternatives that are read so far, and the conditions that follow.
  gather-or :
      (xs : Anys) (y : Any) (sg : Anys) (p q : Bool)
      → AllConditions v xs
      → Single (cons y sg)
      → Reads (cons y sg) p q
      → Joined (gather or xs (cons y sg)) ((p || q) || any_true v (terms v xs))
  unfolding gather is_zero
  gather-or empty y sg p q h k r = (k, p, q, r, sym (||_false (p || q)))
  gather-or (cons x xs) y sg p q (hx, h) k r = elim (Bool-cases (is_zero x)) [
    | inl z ↦ rw z (gather-or xs y sg p q h k r)
    | inr z ↦ rw z (
        subst (Joined (gather or xs (join_to or x (cons y sg))))
          (||_assoc (p || q) (truth v x) (any_true v (terms v xs)))
          (gather-or xs y (append sg (cons (operator or) (cons x empty))) (p || q) (truth v x) h
            (Single-join or x (cons y sg) (z, hx)) (Reads-or x y sg p q (z, hx) r)))
  ]

  gather-and :
      (xs : Anys) (y : Any) (sg : Anys) (q : Bool)
      → AllConditions v xs
      → Single (cons y sg)
      → Reads (cons y sg) false q
      → Joined (gather and xs (cons y sg)) (q && all_true v (terms v xs))
  unfolding gather is_zero
  gather-and empty y sg q h k r = (k, false, q, r, sym (&&_true q))
  gather-and (cons x xs) y sg q (hx, h) k r = elim (Bool-cases (is_zero x)) [
    | inl z ↦ rw z (gather-and xs y sg q h k r)
    | inr z ↦ rw z (
        subst (Joined (gather and xs (join_to and x (cons y sg))))
          (&&_assoc q (truth v x) (all_true v (terms v xs)))
          (gather-and xs y (append sg (cons (operator and) (cons x empty))) (q && truth v x) h
            (Single-join and x (cons y sg) (z, hx)) (Reads-and x y sg q (z, hx) r)))
  ]

  -- The truth of alternatives; a group without any is no restriction.
  abbrev pub some_true : List Any → Bool
  some_true [] = true
  some_true (x ∷ xs) = any_true v (x ∷ xs)

  gather-or_empty :
      (xs : Anys) → AllConditions v xs → Joined (gather or xs empty) (some_true (terms v xs))
  unfolding gather is_zero
  gather-or_empty empty h = refl
  gather-or_empty (cons x xs) (hx, h) = elim (Bool-cases (is_zero x)) [
    | inl z ↦ rw z (gather-or_empty xs h)
    | inr z ↦ rw z (gather-or xs x empty false (truth v x) h (z, hx) (Reads-condition x (z, hx)))
  ]

  gather-and_empty :
      (xs : Anys) → AllConditions v xs → Joined (gather and xs empty) (all_true v (terms v xs))
  unfolding gather is_zero
  gather-and_empty empty h = refl
  gather-and_empty (cons x xs) (hx, h) = elim (Bool-cases (is_zero x)) [
    | inl z ↦ rw z (gather-and_empty xs h)
    | inr z ↦ rw z (gather-and xs x empty (truth v x) h (z, hx) (Reads-condition x (z, hx)))
  ]

  -- The tokens of a group of truth `b`: none, or such that they read as one condition.
  abbrev Grouped : Anys → Bool → Type 0
  Grouped empty b = true ≡ b
  Grouped (cons x xs) b = Splices v (cons x xs) b

  single-truth :
      (x : Any) (p q b : Bool) → Stands x → Reads (cons x empty) p q → (p || q) ≡ b → truth v x ≡ b
  unfolding read
  single-truth x p q b (z, h) r e =
      ap holds (sym (read_condition v x empty [] false true z h) ∙ r [] empty) ∙ e

  enclose-Grouped : (sg : Anys) (b : Bool) → Joined sg b → Grouped (enclose sg) b
  unfolding enclose read same
  enclose-Grouped empty b e = e
  enclose-Grouped (cons x empty) b ((z, k), p, q, r, e) = λ st o c rest.
      read_condition v x rest st o c z k
      ∙ ap (λ d. read v rest st o (c && d) false) (single-truth x p q b (z, k) r e)
  enclose-Grouped (cons x (cons y sg)) b (k, p, q, r, e) = λ st o c rest.
      ap (λ ys. read v ys ((o, c) ∷ st) false true true)
        (append_assoc (cons x (cons y sg)) (cons (raw (codes ")")) empty) rest)
      ∙ r ((o, c) ∷ st) (cons (raw (codes ")")) rest)
      ∙ ap (λ d. read v rest st o (c && d) false) e

  lone_group :
      (op : Operator) (ys : Anys) (b : Bool)
      → IsCondition v (group ys)
      → Joined (gather op (cons (group ys) empty) empty) b
      → Grouped ys b
  unfolding gather is_zero
  lone_group op empty b h j = j
  lone_group op (cons y ys) b h (k, p, q, r, e) =
      subst (Splices v (cons y ys)) (single-truth (group (cons y ys)) p q b k r e) h

  build_group-Grouped :
      (op : Operator) (xs : Anys) (b : Bool)
      → AllConditions v xs
      → Joined (gather op xs empty) b
      → Grouped (build_group op xs) b
  build_group-Grouped op xs b h j = elim (group-cases op xs) [
    | inl (ys, e) ↦
        subst (λ zs. Grouped zs b) (sym (ap (build_group op) e ∙ build_lone op ys))
          (lone_group op ys b (subst (AllConditions v) e h).0
            (subst (λ zs. Joined (gather op zs empty) b) e j))
    | inr e ↦ subst (λ zs. Grouped zs b) (sym e) (enclose-Grouped (gather op xs empty) b j)
  ]

  Grouped-IsCondition :
      (xs : Anys) (b : Bool) → Grouped xs b → (truth v (group xs) ≡ b) × IsCondition v (group xs)
  unfolding truth evaluate
  Grouped-IsCondition empty b e = (e, tt)
  Grouped-IsCondition (cons x xs) b h =
      let t = truth-Splices v x xs b h in (t, subst (Splices v (cons x xs)) (sym t) h)

-- `And` of values that each read as one condition is, under any valuation, the conjunction of those
-- that are not zero, and again reads as one condition among others, or has no tokens. Tokens without an operator
-- between conditions, or with one that has no condition on a side, read as a syntax error, which is not true.
pub and_group-all_true :
    (v : Any → Bool) (xs : Anys)
    → AllConditions v xs
    → (truth v (and_group xs) ≡ all_true v (terms v xs)) × IsCondition v (and_group xs)
and_group-all_true v xs h =
    Grouped-IsCondition v (build_group and xs) (all_true v (terms v xs))
      (build_group-Grouped v and xs (all_true v (terms v xs)) h (gather-and_empty v xs h))

-- `Or` of values that each read as one condition is, under any valuation, the disjunction of those
-- that are not zero, true if all are zero, and again reads as one condition among others, or has no tokens.
pub or_group-some_true :
    (v : Any → Bool) (xs : Anys)
    → AllConditions v xs
    → (truth v (or_group xs) ≡ some_true v (terms v xs)) × IsCondition v (or_group xs)
or_group-some_true v xs h =
    Grouped-IsCondition v (build_group or xs) (some_true v (terms v xs))
      (build_group-Grouped v or xs (some_true v (terms v xs)) h (gather-or_empty v xs h))
