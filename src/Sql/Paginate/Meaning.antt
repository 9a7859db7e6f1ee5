-- ===== src/Sql/Paginate/Meaning.antt =====
-- What the condition of `buildAction` means for a row.
use sqlike.Common.{
  ◌≡◌, refl, sym, ap, ◌∙◌, Bool, true, false, ◌&&◌, List, [], ◌∷◌, Bool-cases, inl, inr, &&_true,
  &&_assoc, ||_false,
}
use sqlike.Sql.Outcome.{ok}
use sqlike.Sql.Primitive.{
  Operator, Order, ascending, descending, and, or, Any, Anys, sort, operator, group, empty, cons,
  append, greater_or_equal, lesser_or_equal, greater_than, lesser_than, clause,
}
use sqlike.Sql.Zero.{is_zero, is_nil}
use sqlike.Sql.Expr.{and_group, or_group, build_group, wrap_column, make_clause}
use sqlike.Sql.Expr.Meaning.{
  truth, evaluate, read, truth-Splices, IsCondition, AllConditions, terms, all_true, any_true,
  read_condition,
}
use sqlike.Sql.Expr.Join.{
  and_group-all_true, or_group-some_true, some_true, append_assoc, some_nonzero,
  build_group-nonempty,
}
use sqlike.Sql.Actions.{FindActions}
use sqlike.Sql.Paginate.{
  to_string, from_cursor, behind_cursor, cursor_loop, build_action, joined_by_and,
}
use sqlike.Sql.Paginate.Rows.{bounded, beyond}

-- A sort with the cursor's value for it.
pub record Key : Type 0 where
  pub place : Any
  pub order : Order
  pub value : Any

abbrev pub sorts_of : List Key → Anys
sorts_of [] = empty
sorts_of (k ∷ ks) = cons (sort k.place k.order) (sorts_of ks)

abbrev pub values_of : List Key → List Any
values_of [] = []
values_of (k ∷ ks) = k.value ∷ values_of ks

abbrev from_operator : Order → Operator
from_operator ascending = greater_or_equal
from_operator descending = lesser_or_equal

abbrev behind_operator : Order → Operator
behind_operator ascending = greater_than
behind_operator descending = lesser_than

-- The comparison that says that a row is not before the cursor in a sort, and the one that it is behind.
abbrev pub from_key : Key → Any
from_key k = clause (wrap_column k.place) (from_operator k.order) (to_string k.value)

abbrev pub behind_key : Key → Any
behind_key k = clause (wrap_column k.place) (behind_operator k.order) (to_string k.value)

from_cursor-clause :
    (o : Order) (x y : Any) → from_cursor o x y ≡ clause (wrap_column x) (from_operator o) y
unfolding from_cursor make_clause
from_cursor-clause ascending x y = refl
from_cursor-clause descending x y = refl

behind_cursor-clause :
    (o : Order) (x y : Any) → behind_cursor o x y ≡ clause (wrap_column x) (behind_operator o) y
unfolding behind_cursor make_clause
behind_cursor-clause ascending x y = refl
behind_cursor-clause descending x y = refl

abbrev filters : List Key → Anys
filters [] = empty
filters (k ∷ []) = empty
filters (k ∷ l ∷ ks) = cons (from_key k) (filters (l ∷ ks))

abbrev choices : List Key → Anys
choices [] = empty
choices (k ∷ []) = cons (from_key k) empty
choices (k ∷ l ∷ ks) = cons (behind_key k) (choices (l ∷ ks))

loop-parts :
    (ks : List Key) → cursor_loop (sorts_of ks) (values_of ks) ≡ ok (filters ks, choices ks)
unfolding cursor_loop
loop-parts [] = refl
loop-parts (k ∷ []) = rw (from_cursor-clause k.order k.place (to_string k.value)) refl
loop-parts (k ∷ l ∷ ks) =
    rw
      (
        loop-parts (l ∷ ks),
        from_cursor-clause k.order k.place (to_string k.value),
        behind_cursor-clause k.order k.place (to_string k.value),
      )
      refl

&&-false : (b c : Bool) → ((b && false) && c) ≡ false
&&-false true c = refl
&&-false false c = refl

-- A comparison that is not `equal` is not zero.
from_nonzero : (k : Key) → is_zero (from_key k) ≡ false
unfolding is_zero
from_nonzero k = go k.order
  where
    go :
        (o : Order)
        → is_zero (clause (wrap_column k.place) (from_operator o) (to_string k.value)) ≡ false
    go ascending = &&-false (is_nil (wrap_column k.place)) (is_nil (to_string k.value))
    go descending = &&-false (is_nil (wrap_column k.place)) (is_nil (to_string k.value))

behind_nonzero : (k : Key) → is_zero (behind_key k) ≡ false
unfolding is_zero
behind_nonzero k = go k.order
  where
    go :
        (o : Order)
        → is_zero (clause (wrap_column k.place) (behind_operator o) (to_string k.value)) ≡ false
    go ascending = &&-false (is_nil (wrap_column k.place)) (is_nil (to_string k.value))
    go descending = &&-false (is_nil (wrap_column k.place)) (is_nil (to_string k.value))

module _ (v : Any → Bool) where
  -- For each sort, what the row's valuation says of its two conditions.
  abbrev pub marks : List Key → List (Bool × Bool)
  marks [] = []
  marks (k ∷ ks) = (v (from_key k), v (behind_key k)) ∷ marks ks

  choices-AllConditions : (ks : List Key) → AllConditions v (choices ks)
  choices-AllConditions [] = tt
  choices-AllConditions (k ∷ []) = (tt, tt)
  choices-AllConditions (k ∷ l ∷ ks) = (tt, choices-AllConditions (l ∷ ks))

  any-choices : (ks : List Key) → any_true v (terms v (choices ks)) ≡ beyond (marks ks)
  unfolding truth
  any-choices [] = refl
  any-choices (k ∷ []) = rw (from_nonzero k) (||_false (v (from_key k)))
  any-choices (k ∷ l ∷ ks) = rw (behind_nonzero k, any-choices (l ∷ ks)) refl

  filters-AllConditions :
      (ks : List Key) (g : Any)
      → IsCondition v g
      → AllConditions v (append (filters ks) (cons g empty))
  filters-AllConditions [] g h = (h, tt)
  filters-AllConditions (k ∷ []) g h = (h, tt)
  filters-AllConditions (k ∷ l ∷ ks) g h = (tt, filters-AllConditions (l ∷ ks) g h)

  -- A last condition that is left out, if it is zero, has to be true.
  last-filter :
      (g : Any)
      → (is_zero g ≡ true → truth v g ≡ true)
      → all_true v (terms v (cons g empty)) ≡ truth v g
  last-filter g h = elim (Bool-cases (is_zero g)) [
    | inl z ↦ rw z (sym (h z))
    | inr z ↦ rw z (&&_true (truth v g))
  ]

  all-filters :
      (ks : List Key) (g : Any)
      → (is_zero g ≡ true → truth v g ≡ true)
      → all_true v (terms v (append (filters ks) (cons g empty)))
        ≡ (bounded (marks ks) && truth v g)
  unfolding truth
  all-filters [] g h = last-filter g h
  all-filters (k ∷ []) g h = last-filter g h
  all-filters (k ∷ l ∷ ks) g h =
      rw (from_nonzero k, all-filters (l ∷ ks) g h)
        (sym (&&_assoc (v (from_key k)) (bounded (marks (l ∷ ks))) (truth v g)))

  some-any :
      (x : Any) (xs : Anys)
      → is_zero x ≡ false
      → some_true v (terms v (cons x xs)) ≡ any_true v (terms v (cons x xs))
  some-any x xs h = rw h refl

  nonempty-choices :
      (k : Key) (ks : List Key) → some_true v (terms v (choices (k ∷ ks))) ≡ beyond (marks (k ∷ ks))
  nonempty-choices k [] = some-any (from_key k) empty (from_nonzero k) ∙ any-choices (k ∷ [])
  nonempty-choices k (l ∷ ks) =
      some-any (behind_key k) (choices (l ∷ ks)) (behind_nonzero k) ∙ any-choices (k ∷ l ∷ ks)

  zero_group : (xs : Anys) → is_zero (group xs) ≡ true → truth v (group xs) ≡ true
  unfolding is_zero truth evaluate
  zero_group empty h = refl
  zero_group (cons x xs) h = cc

  joined-condition :
      (cs : Anys) (g : Any)
      → IsCondition v (group cs)
      → is_zero g ≡ false
      → IsCondition v g
      → truth v (group (append (joined_by_and cs) (cons g empty)))
        ≡ (truth v (group cs) && truth v g)
  unfolding read truth
  joined-condition empty g h z k =
      truth-Splices v g empty (truth v g) (λ st o c rest. read_condition v g rest st o c z k)
  joined-condition (cons x xs) g h z k =
      let b = truth v (group (cons x xs)) in
      truth-Splices v x (append (append xs (cons (operator and) empty)) (cons g empty))
        (b && truth v g)
        (λ st o c rest.
          ap (λ ys. read v ys st o c true)
            (append_assoc (append (cons x xs) (cons (operator and) empty)) (cons g empty) rest
              ∙ append_assoc (cons x xs) (cons (operator and) empty) (cons g rest))
          ∙ h st o c (cons (operator and) (cons g rest))
          ∙ read_condition v g rest st o (c && b) z k
          ∙ ap (λ d. read v rest st o d false) (&&_assoc c b (truth v g)))

  choices-nonzero : (k : Key) (ks : List Key) → some_nonzero (choices (k ∷ ks)) ≡ true
  choices-nonzero k [] = rw (from_nonzero k) refl
  choices-nonzero k (l ∷ ks) = rw (behind_nonzero k) refl

  filters-nonzero :
      (ks : List Key) (g : Any)
      → is_zero g ≡ false
      → some_nonzero (append (filters ks) (cons g empty)) ≡ true
  filters-nonzero [] g h = rw h refl
  filters-nonzero (k ∷ []) g h = rw h refl
  filters-nonzero (k ∷ l ∷ ks) g h = rw (from_nonzero k) refl

  cursor_group-nonzero :
      (k : Key) (ks : List Key)
      → is_zero (and_group (append (filters (k ∷ ks)) (cons (or_group (choices (k ∷ ks))) empty)))
        ≡ false
  cursor_group-nonzero k ks =
      build_group-nonempty and
        (append (filters (k ∷ ks)) (cons (or_group (choices (k ∷ ks))) empty))
        (filters-nonzero (k ∷ ks) (or_group (choices (k ∷ ks)))
          (build_group-nonempty or (choices (k ∷ ks)) (choices-nonzero k ks)))

  cursor_group-truth :
      (k : Key) (ks : List Key)
      → let g = and_group (append (filters (k ∷ ks)) (cons (or_group (choices (k ∷ ks))) empty)) in
        IsCondition v g × (truth v g ≡ (bounded (marks (k ∷ ks)) && beyond (marks (k ∷ ks))))
  cursor_group-truth k ks =
      let o = or_group-some_true v (choices (k ∷ ks)) (choices-AllConditions (k ∷ ks)) in
      let a =
        and_group-all_true v (append (filters (k ∷ ks)) (cons (or_group (choices (k ∷ ks))) empty))
          (filters-AllConditions (k ∷ ks) (or_group (choices (k ∷ ks))) o.1) in
      (
        a.1,
        (a.0
            ∙ all-filters (k ∷ ks) (or_group (choices (k ∷ ks)))
                (zero_group (build_group or (choices (k ∷ ks))))
            ∙ ap (λ b. bounded (marks (k ∷ ks)) && b) (o.0 ∙ nonempty-choices k ks)),
      )

-- If there is a sort, the cursor has a value for each sort, and the conditions of before read as one
-- condition, then `buildAction` succeeds, and under any valuation of a row its conditions say: those
-- of before hold, the row is before the cursor in no sort but maybe the last, and it is behind the
-- cursor in some sort but the last or not before it in the last.
pub build_action-truth :
    (v : Any → Bool) (k : Key) (ks : List Key) (fs : List Any) (act : FindActions)
    → act.sorts ≡ sorts_of (k ∷ ks)
    → IsCondition v (group act.conditions)
    → (act' : FindActions) × (build_action
          (record { fields = fs; values = values_of (k ∷ ks); action = act })
        ≡ ok act')
      × (truth v (group act'.conditions) ≡ (
          truth v (group act.conditions)
          && (bounded (marks v (k ∷ ks)) && beyond (marks v (k ∷ ks)))))
unfolding build_action
build_action-truth v k ks fs act e h =
    let g = cursor_group-truth v k ks in
    let filter = and_group (append (filters (k ∷ ks)) (cons (or_group (choices (k ∷ ks))) empty)) in
    (
      record act { conditions = append (joined_by_and act.conditions) (cons filter empty) },
      rw (e, loop-parts (k ∷ ks)) refl,
      joined-condition v act.conditions filter h (cursor_group-nonzero v k ks) g.0
          ∙ ap (λ b. truth v (group act.conditions) && b) g.1,
    )
