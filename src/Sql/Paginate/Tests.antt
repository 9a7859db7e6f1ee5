-- ===== src/Sql/Paginate/Tests.antt =====
-- Groups of conditions and pages at concrete inputs.
use sqlike.Common.{Bool, true, false, List, [], ◌∷◌, ◌≡◌, refl, ◌&&◌, Bytes, codes, same}
use sqlike.Sql.Outcome.{Outcome, ok}
use sqlike.Sql.Primitive.{
  pos, int, text, equal, and, ascending, descending, sort, Any, Anys, scalar, raw, column, clause,
  group, empty, cons,
}
use sqlike.Sql.Zero.{is_zero}
use sqlike.Sql.Expr.{
  desc, build_group, and_group, or_group, gather, enclose, wrap_column, make_clause,
}
use sqlike.Sql.Expr.Meaning.{truth, IsCondition, AllConditions, terms, all_true}
use sqlike.Sql.Expr.Join.{some_true, and_group-all_true, or_group-some_true}
use sqlike.Sql.Actions.{FindActions, new_find}
use sqlike.Sql.Paginate.Total.{build_action_total}
use sqlike.Sql.Paginate.{paginate, Paginator, build_action, cursor_loop}
use sqlike.Sql.Paginate.Meaning.{Key, sorts_of, values_of, marks, build_action-truth}
use sqlike.Sql.Paginate.Rows.{bounded, beyond, follows}
use sqlike.Sql.Paginate.Pages.{build_action-follows, build_action_complete, build_action-loses}

-- A row that satisfies the conditions on column `a` and no other.
abbrev row : Any → Bool
row (clause (column t n) op y) = same n (codes "a")
row _ = false

abbrev on_column : Bytes → Any
on_column n = clause (column [] n) equal (scalar (int (pos 1)))

abbrev three : Anys
three = cons (on_column (codes "a")) (cons (raw []) (cons (on_column (codes "b")) empty))

three-AllConditions : AllConditions row three
unfolding same
three-AllConditions = (tt, ((refl, refl), (tt, tt)))

and_group-all_true_example :
    (truth row (and_group three) ≡ all_true row (terms row three))
    × IsCondition row (and_group three)
and_group-all_true_example = and_group-all_true row three three-AllConditions

or_group-some_true_example :
    (truth row (or_group three) ≡ some_true row (terms row three))
    × IsCondition row (or_group three)
or_group-some_true_example = or_group-some_true row three three-AllConditions

abbrev key_on : Bytes → Key
key_on n = record { place = scalar (text n); order = ascending; value = scalar (int (pos 7)) }

abbrev one : Anys
one = build_group and (cons (on_column (codes "a")) empty)

one-IsCondition : IsCondition row (group one)
one-IsCondition = (and_group-all_true row (cons (on_column (codes "a")) empty) (tt, tt)).1

abbrev find_by : List Key → FindActions
find_by ks = record new_find { sorts = sorts_of ks; conditions = one }

abbrev page_of : Outcome FindActions → FindActions
page_of (ok a) = a
page_of _ = new_find

abbrev next_page : List Key → FindActions
next_page ks =
    page_of (build_action (record { fields = []; values = values_of ks; action = find_by ks }))

abbrev two_keys : List Key
two_keys = key_on (codes "b") ∷ key_on (codes "id") ∷ []

build_action-truth_example :
    (act' : FindActions) × (build_action
        (record { fields = []; values = values_of two_keys; action = find_by two_keys })
      ≡ ok act')
    × (truth row (group act'.conditions)
        ≡ (truth row (group one) && (bounded (marks row two_keys) && beyond (marks row two_keys))))
build_action-truth_example =
    build_action-truth row (key_on (codes "b")) (key_on (codes "id") ∷ []) [] (find_by two_keys)
      refl one-IsCondition

abbrev ahead_keys : List Key
ahead_keys = key_on (codes "a") ∷ key_on (codes "id") ∷ []

build_action-follows_example : follows (marks row ahead_keys) ≡ true
unfolding build_action cursor_loop is_zero same build_group gather enclose truth wrap_column
    make_clause
build_action-follows_example =
    build_action-follows row (key_on (codes "a")) (key_on (codes "id") ∷ []) [] (find_by ahead_keys)
      (next_page ahead_keys) refl one-IsCondition refl refl

build_action_complete_example : truth row (group (next_page ahead_keys).conditions) ≡ true
unfolding build_action cursor_loop is_zero same build_group gather enclose truth wrap_column
    make_clause
build_action_complete_example =
    build_action_complete row (key_on (codes "a")) (key_on (codes "id")) [] (find_by ahead_keys)
      (next_page ahead_keys) refl one-IsCondition refl ((λ h. h), ((λ h. h), tt)) refl refl

abbrev lost_keys : List Key
lost_keys = key_on (codes "a") ∷ key_on (codes "b") ∷ key_on (codes "id") ∷ []

build_action-loses_example :
    (follows (marks row lost_keys) ≡ true)
    × (truth row (group (next_page lost_keys).conditions) ≡ false)
unfolding build_action cursor_loop is_zero same build_group gather enclose truth wrap_column
    make_clause
build_action-loses_example =
    build_action-loses row (key_on (codes "a")) (key_on (codes "b")) (key_on (codes "id")) []
      (find_by lost_keys) (next_page lost_keys) refl one-IsCondition refl refl refl

abbrev paginator_of : Outcome Paginator → Paginator
paginator_of (ok pg) = pg
paginator_of _ = record { fields = []; values = []; action = new_find }

abbrev by_name : FindActions
by_name = record new_find { sorts = cons (sort (column [] (codes "name")) descending) empty }

abbrev name_pages : Paginator
name_pages = paginator_of (paginate (codes "users") (codes "id") by_name)

build_action_total_example :
    (act' : FindActions) × (build_action
        (record name_pages { values = scalar (text (codes "x")) ∷ scalar (int (pos 3)) ∷ [] })
      ≡ ok act')
unfolding desc wrap_column
build_action_total_example =
    build_action_total (codes "users") (codes "id") by_name name_pages
      (scalar (text (codes "x")) ∷ scalar (int (pos 3)) ∷ []) refl refl
