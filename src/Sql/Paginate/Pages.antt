-- ===== src/Sql/Paginate/Pages.antt =====
-- Which rows a page holds: soundness and completeness of the cursor's condition.
use sqlike.Common.{◌≡◌, refl, sym, subst, ◌∙◌, Bool, true, false, ◌&&◌, List, [], ◌∷◌}
use sqlike.Sql.Outcome.{Outcome, ok}
use sqlike.Sql.Primitive.{Any, group}
use sqlike.Sql.Expr.Meaning.{truth, IsCondition}
use sqlike.Sql.Actions.{FindActions}
use sqlike.Sql.Paginate.{build_action}
use sqlike.Sql.Paginate.Rows.{
  bounded, beyond, follows, AllOrdered, bounded-follows, follows-bounded,
}
use sqlike.Sql.Paginate.Meaning.{
  Key, sorts_of, values_of, from_key, behind_key, marks, build_action-truth,
}

ok-injective : (a b : FindActions) → Outcome.ok a ≡ ok b → a ≡ b
ok-injective a b h = cc

returned-truth :
    (v : Any → Bool) (k : Key) (ks : List Key) (fs : List Any) (act act' : FindActions)
    → act.sorts ≡ sorts_of (k ∷ ks)
    → IsCondition v (group act.conditions)
    → build_action (record { fields = fs; values = values_of (k ∷ ks); action = act }) ≡ ok act'
    → truth v (group act'.conditions) ≡ (
        truth v (group act.conditions) && (bounded (marks v (k ∷ ks)) && beyond (marks v (k ∷ ks))))
returned-truth v k ks fs act act' e h r =
    let p = build_action-truth v k ks fs act e h in
    subst
      (λ a. truth v (group a.conditions) ≡ (
        truth v (group act.conditions)
        && (bounded (marks v (k ∷ ks)) && beyond (marks v (k ∷ ks)))))
      (ok-injective p.0 act' (sym p.1 ∙ r)) p.2

&&-right : (b c : Bool) → (b && c) ≡ true → c ≡ true
&&-right true c h = h
&&-right false c h = cc

-- If there is a sort, the cursor has a value for each sort, and the conditions of before read as one
-- condition, then a row whose valuation satisfies what `buildAction` returns is at the cursor or
-- behind it in the order of the sorts one after another.
pub build_action-follows :
    (v : Any → Bool) (k : Key) (ks : List Key) (fs : List Any) (act act' : FindActions)
    → act.sorts ≡ sorts_of (k ∷ ks)
    → IsCondition v (group act.conditions)
    → build_action (record { fields = fs; values = values_of (k ∷ ks); action = act }) ≡ ok act'
    → truth v (group act'.conditions) ≡ true
    → follows (marks v (k ∷ ks)) ≡ true
build_action-follows v k ks fs act act' e h r t = bounded-follows (marks v (k ∷ ks)) (
    &&-right (truth v (group act.conditions)) _ (sym (returned-truth v k ks fs act act' e h r) ∙ t))

-- With two sorts, a value of the cursor for each, and conditions of before that read as one condition:
-- a row that satisfies them and is at the cursor or behind it in the order of the two sorts satisfies
-- what `buildAction` returns, if what is behind the cursor in a sort is not before it.
pub build_action_complete :
    (v : Any → Bool) (k l : Key) (fs : List Any) (act act' : FindActions)
    → act.sorts ≡ sorts_of (k ∷ l ∷ [])
    → IsCondition v (group act.conditions)
    → build_action (record { fields = fs; values = values_of (k ∷ l ∷ []); action = act }) ≡ ok act'
    → AllOrdered (marks v (k ∷ l ∷ []))
    → truth v (group act.conditions) ≡ true
    → follows (marks v (k ∷ l ∷ [])) ≡ true
    → truth v (group act'.conditions) ≡ true
build_action_complete v k l fs act act' e h r o c t =
    returned-truth v k (l ∷ []) fs act act' e h r
    ∙ rw c
        (follows-bounded (v (from_key k), v (behind_key k)) (v (from_key l), v (behind_key l)) o t)

excluded : (a b c d : Bool) → c ≡ false → (a && ((b && (c && true)) && d)) ≡ false
excluded a b c d h = rw h (lost a b d)
  where
    lost : (a b d : Bool) → (a && ((b && false) && d)) ≡ false
    lost false b d = refl
    lost true false d = refl
    lost true true d = refl

-- With three sorts, a value of the cursor for each, and conditions of before that read as one
-- condition: a row that is behind the cursor in the first sort and before it in the second is behind
-- the cursor in the order of the sorts, and does not satisfy what `buildAction` returns.
pub build_action-loses :
    (v : Any → Bool) (k l m : Key) (fs : List Any) (act act' : FindActions)
    → act.sorts ≡ sorts_of (k ∷ l ∷ m ∷ [])
    → IsCondition v (group act.conditions)
    → build_action (record { fields = fs; values = values_of (k ∷ l ∷ m ∷ []); action = act })
      ≡ ok act'
    → v (behind_key k) ≡ true
    → v (from_key l) ≡ false
    → (follows (marks v (k ∷ l ∷ m ∷ [])) ≡ true) × (truth v (group act'.conditions) ≡ false)
build_action-loses v k l m fs act act' e h r b f = (
  rw b refl,
  returned-truth v k (l ∷ m ∷ []) fs act act' e h r
      ∙ excluded (truth v (group act.conditions)) (v (from_key k)) (v (from_key l)) _ f,
)
