-- ===== src/Sql/Paginate/Total.antt =====
-- `Paginate` followed by `buildAction`: a cursor with a value for each field never panics.
use sqlike.Common.{
  ℕ, suc, ◌≡◌, refl, ap, ◌∙◌, Bool, true, false, List, [], ◌∷◌, Bytes, arith, length, if◌then◌else◌,
}
use sqlike.Sql.Outcome.{Outcome, ok, err, panic, ◌>>=◌ as bind}
use sqlike.Sql.Primitive.{Order, Any, Anys, sort, empty, cons, append}
use sqlike.Sql.Zero.{is_empty}
use sqlike.Sql.Expr.{and_group, or_group}
use sqlike.Sql.Actions.{FindActions}
use sqlike.Sql.Paginate.{Paginator, sort_fields, paginate, cursor_loop, build_action, joined_by_and}

consed :
    (x : Any) (o : Outcome (List Any)) (fs : List Any)
    → bind o (λ gs. ok (x ∷ gs)) ≡ ok fs
    → (gs : List Any) × (o ≡ ok gs) × (fs ≡ x ∷ gs)
consed x (ok gs) fs h = (gs, refl, ground arith)
consed x (err e) fs h = cc
consed x panic fs h = cc

either_ok : {A : Type 0} (b : Bool) (x y : A) → (p : A) × ((if b then ok x else ok y) ≡ ok p)
either_ok true x y = (x, refl)
either_ok false x y = (y, refl)

next_total :
    (xs : Anys) (x : Any) (o : Order) (vs : List Any) (n : ℕ)
    → length vs ≡ suc n
    → ((ws : List Any) → length ws ≡ n → (p : Anys × Anys) × (cursor_loop xs ws ≡ ok p))
    → (p : Anys × Anys) × (cursor_loop (cons (sort x o) xs) vs ≡ ok p)
unfolding cursor_loop
next_total xs x o [] n e h = absurd (omega arith)
next_total xs x o (v ∷ vs) n e h =
    let p = h vs (omega arith) in rw p.1 (either_ok (is_empty xs) _ _)

loop_total :
    (xs : Anys) (fs vs : List Any)
    → sort_fields xs ≡ ok fs
    → length vs ≡ length fs
    → (p : Anys × Anys) × (cursor_loop xs vs ≡ ok p)
unfolding cursor_loop
loop_total empty fs vs h n = ((empty, empty), refl)
loop_total (cons (sort x o) xs) fs vs h n =
    let g = consed x (sort_fields xs) fs h in
    next_total xs x o vs (length g.0) (n ∙ ap length g.2) (λ ws e. loop_total xs g.0 ws g.1 e)
loop_total (cons _ xs) fs vs h n = cc

-- The fields of a paginator are those of its sorts.
paginate-sort_fields :
    (name pk : Bytes) (x : FindActions) (pg : Paginator)
    → paginate name pk x ≡ ok pg
    → sort_fields pg.action.sorts ≡ ok pg.fields
paginate-sort_fields name pk x pg h = ground arith

-- A paginator that `Paginate` returned, with a cursor that has a value for each of its fields: `buildAction`
-- returns an action and never panics.
pub build_action_total :
    (name pk : Bytes) (x : FindActions) (pg : Paginator) (values : List Any)
    → paginate name pk x ≡ ok pg
    → length values ≡ length pg.fields
    → (act' : FindActions) × (build_action (record pg { values = values }) ≡ ok act')
unfolding build_action
build_action_total name pk x pg [] h n = (pg.action, refl)
build_action_total name pk x pg (v ∷ vs) h n =
    let p = loop_total pg.action.sorts pg.fields (v ∷ vs) (paginate-sort_fields name pk x pg h) n in
    let filter = and_group (append p.0.0 (cons (or_group p.0.1) empty)) in
    (
      record pg.action {
        conditions = append (joined_by_and pg.action.conditions) (cons filter empty);
      },
      rw p.1 refl,
    )
