-- ===== src/Sql/Paginate.antt =====
-- sqlike/paginate.go: `Paginate`, and the condition that `buildAction` adds behind a cursor.
pub mod Meaning
pub mod Rows
pub mod Pages
mod Total
mod Tests
use sqlike.Common.{
  ℕ, Bool, true, false, List, [], ◌∷◌, Option, none, some, Bytes, ◌==◌, if◌then◌else◌,
}
use sqlike.Sql.Outcome.{Outcome, ok, err, panic, ◌>>=◌ as bind}
use sqlike.Sql.Primitive.{
  Scalar, text, binary, Order, ascending, descending, and, Any, Anys, scalar, operator, sort, empty,
  cons, append,
}
use sqlike.Sql.Zero.{is_empty}
use sqlike.Sql.Expr.{at_least, more_than, at_most, less_than, and_group, or_group, asc, desc}
use sqlike.Sql.Actions.{FindActions}

-- `Paginator`: its fields `fields`, `values` and `action`; `fields` has the length of the sorts.
pub record Paginator : Type 0 where
  pub fields : List Any
  pub values : List Any
  pub action : FindActions

-- The order of the last sort; a value that is no `Sort` panics.
abbrev last_order : Anys → Outcome Order
last_order empty = ok ascending
last_order (cons (sort x o) empty) = ok o
last_order (cons _ empty) = panic
last_order (cons _ (cons y ys)) = last_order (cons y ys)

-- The sort by the primary key.
abbrev key_sort : Bytes → Order → Any
key_sort pk ascending = asc (scalar (text pk))
key_sort pk descending = desc (scalar (text pk))

abbrev sort_fields : Anys → Outcome (List Any)
sort_fields empty = ok []
sort_fields (cons (sort x o) xs) = bind (sort_fields xs) (λ fs. ok (x ∷ fs))
sort_fields (cons _ xs) = panic

abbrev table_or : Bytes → Bytes → Bytes
table_or name [] = name
table_or name (c ∷ w) = c ∷ w

-- `Paginate`, for a table of name `name` with primary key `pk`.
abbrev paginate : Bytes → Bytes → FindActions → Outcome Paginator
paginate name pk x =
    let table = table_or name x.table in
    bind (last_order x.sorts) (λ o.
      let sorts = append x.sorts (cons (key_sort pk o) empty) in
      bind (sort_fields sorts) (λ fs.
        if x.count == 1
        then err "sqlike: pagination required more than 1 limit"
        else ok (record {
          fields = fs;
          values = [];
          action = record x {
            table = table;
            sorts = sorts;
            count = if x.count == 0 then 100 else x.count;
          };
        })))

-- `toString`
pub to_string : Any → Any
to_string (scalar (binary w)) = scalar (text w)
to_string v = v

-- The conditions of one sort: not before the cursor, and behind it.
pub from_cursor : Order → Any → Any → Any
from_cursor ascending x val = at_least x val
from_cursor descending x val = at_most x val

pub behind_cursor : Order → Any → Any → Any
behind_cursor ascending x val = more_than x val
behind_cursor descending x val = less_than x val

-- The loop of `buildAction`: `filters` and `fields`.
pub cursor_loop : Anys → List Any → Outcome (Anys × Anys)
unfolding to_string from_cursor behind_cursor
cursor_loop empty vs = ok (empty, empty)
cursor_loop (cons (sort x o) xs) (val ∷ vs) = bind (cursor_loop xs vs) (λ p.
    if is_empty xs
    then ok (p.0, cons (from_cursor o x (to_string val)) p.1)
    else ok
        (cons (from_cursor o x (to_string val)) p.0, cons (behind_cursor o x (to_string val)) p.1))
cursor_loop (cons _ xs) _ = panic

abbrev pub joined_by_and : Anys → Anys
joined_by_and empty = empty
joined_by_and (cons x xs) = append (cons x xs) (cons (operator and) empty)

-- `buildAction`
pub build_action : Paginator → Outcome FindActions
unfolding cursor_loop
build_action pg = elim pg.values [
  | [] ↦ ok pg.action
  | c ∷ cs ↦ bind (cursor_loop pg.action.sorts (c ∷ cs)) (λ p.
      let filters = append p.0 (cons (or_group p.1) empty) in
      ok (record pg.action {
        conditions = append (joined_by_and pg.action.conditions) (cons (and_group filters) empty);
      }))
]
