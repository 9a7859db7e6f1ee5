-- ===== src/Sql/Table/Injected.antt =====
-- The conditions of `find` in sqlike/find.go with those of the context.
use sqlike.Common.{◌≡◌, ap, ◌∙◌, Bool, true, false, ◌&&◌, [], ◌∷◌, &&_assoc}
use sqlike.Sql.Primitive.{and, Any, Anys, operator, group, empty, cons, append}
use sqlike.Sql.Expr.Meaning.{
  truth, evaluate, read, Splices, IsCondition, truth-Splices, append_empty,
}
use sqlike.Sql.Expr.Join.{append_assoc}
use sqlike.Sql.Table.{find_conditions}

two-Splices :
    (v : Any → Bool) (xs g : Anys) (b d : Bool)
    → Splices v xs b
    → Splices v g d
    → Splices v (append (append xs (cons (operator and) empty)) g) (b && d)
unfolding read
two-Splices v xs g b d h k st o c rest =
    ap (λ ys. read v ys st o c true)
      (append_assoc (append xs (cons (operator and) empty)) g rest
        ∙ append_assoc xs (cons (operator and) empty) (append g rest))
    ∙ h st o c (cons (operator and) (append g rest))
    ∙ k st o (c && b) rest
    ∙ ap (λ e. read v rest st o e false) (&&_assoc c b d)

-- With one group in the context, which has tokens and reads as one condition, and conditions of the action that do
-- so too or are none, the conditions of `find` hold exactly where those of the action and the group both hold.
-- Without the AND between them, or with one that has nothing on a side, they would be a syntax error, which does
-- not hold.
pub find_conditions-truth :
    (v : Any → Bool) (conditions : Anys) (y : Any) (ys : Anys)
    → IsCondition v (group conditions)
    → IsCondition v (group (cons y ys))
    → truth v (group (find_conditions conditions (cons y ys ∷ [])))
      ≡ (truth v (group conditions) && truth v (group (cons y ys)))
unfolding truth evaluate
find_conditions-truth v empty y ys h k = ap (λ zs. truth v (group zs)) (append_empty (cons y ys))
find_conditions-truth v (cons x xs) y ys h k =
    ap (λ zs. truth v (group (append (append (cons x xs) (cons (operator and) empty)) zs)))
      (append_empty (cons y ys))
    ∙ truth-Splices v x (append (append xs (cons (operator and) empty)) (cons y ys)) _
        (two-Splices v (cons x xs) (cons y ys) _ _ h k)
