-- ===== src/Sql/Table/Tests.antt =====
-- Runs of the queries of a table.
use sqlike.Common.{◌≡◌, refl, none, Bool, true, false, ◌&&◌, [], ◌∷◌, Bytes, codes}
use sqlike.Sql.Outcome.{err}
use sqlike.Sql.Primitive.{
  pos, int, equal, and, Any, Anys, scalar, column, clause, raw, operator, group, empty, cons,
}
use sqlike.Sql.Builder.{Env}
use sqlike.Sql.Expr.Meaning.{truth, evaluate, read}
use sqlike.Sql.Actions.{DeleteActions}
use sqlike.Sql.Table.{find_conditions}
use sqlike.Sql.Table.Injected.{find_conditions-truth}

abbrev test_env : Env
test_env = record {
  encode = λ x. err "no encoder";
  go_quote = λ w. w;
  format_int = λ i. [];
  format_uint = λ n. [];
  format_float = λ n. [];
}

-- Rows with a = 1 and b = 1.
abbrev row : Any → Bool
row (clause (column t n) op x) = true
row _ = false

abbrev on_column : Bytes → Any
on_column n = clause (column [] n) equal (scalar (int (pos 1)))

find_conditions-truth_example :
    truth row (
      group (
        find_conditions
          (cons (on_column (codes "a")) empty)
          (cons (on_column (codes "b")) empty ∷ [])))
    ≡ (truth row (group (cons (on_column (codes "a")) empty))
        && truth row (group (cons (on_column (codes "b")) empty)))
unfolding read truth
find_conditions-truth_example =
    find_conditions-truth row (cons (on_column (codes "a")) empty) (on_column (codes "b")) empty
      (λ st o c rest. refl) (λ st o c rest. refl)

-- Two groups are a syntax error, and so is one without tokens behind a condition.
two_groups :
    (evaluate row (
        group (
          find_conditions
            (cons (on_column (codes "a")) empty)
            (cons (on_column (codes "b")) empty ∷ cons (on_column (codes "c")) empty ∷ [])))
      ≡ none)
    × (evaluate row (group (find_conditions (cons (on_column (codes "a")) empty) (empty ∷ [])))
        ≡ none)
unfolding read truth
two_groups = (refl, refl)

-- Two groups stand side by side, without AND.
side_by_side :
    find_conditions
      (cons (on_column (codes "a")) empty)
      (cons (on_column (codes "b")) empty ∷ cons (on_column (codes "c")) empty ∷ [])
    ≡ cons
        (on_column (codes "a"))
        (cons (operator and) (cons (on_column (codes "b")) (cons (on_column (codes "c")) empty)))
side_by_side = refl

abbrev nothing : DeleteActions
nothing = record { database = []; table = []; conditions = empty; sorts = empty; limit = 0 }

abbrev zeros : Anys
zeros = cons (raw []) (cons (group empty) empty)
