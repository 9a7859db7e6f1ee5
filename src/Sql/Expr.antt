-- ===== src/Sql/Expr.antt =====
-- Package `expr` (sql/expr): the functions that make conditions, groups and orders.
pub mod Meaning
pub mod Join
use sqlike.Common.{
  ℕ, zero, suc, Bool, true, false, List, [], ◌∷◌, Option, none, some, Bytes, codes, if◌then◌else◌,
  ltb,
}
use sqlike.Sql.Primitive.{
  ℤ, pos, Scalar, text, Operator, equal, not_equal, greater_than, lesser_than, greater_or_equal,
  lesser_or_equal, in_list, not_in_list, between, not_between, and, or, Order, ascending,
  descending, MathMode, add, deduct, AggregateBy, sum, count, average, max, min, Any, Anys, nil,
  scalar, raw, column, json_column, cast_as, func, json_func, value_of, alias_as, null_test,
  encoding, aggregate, clause, like_clause, operator, group, range, sort, key_value, math, empty,
  cons, append, count_of,
}
use sqlike.Sql.Zero.{is_zero}

-- `wrapColumn`: a string names a column.
unfoldable pub wrap_column : Any → Any
wrap_column (scalar (text n)) = column [] n
wrap_column x = x

-- `clause`
unfoldable pub make_clause : Any → Operator → Any → Any
unfolding wrap_column
make_clause place op value = clause (wrap_column place) op value

-- `Equal`, `NotEqual`, `GreaterOrEqual`, `GreaterThan`, `LesserOrEqual`, `LesserThan`
abbrev equal_to : Any → Any → Any
equal_to place value = make_clause place equal value

abbrev not_equal_to : Any → Any → Any
not_equal_to place value = make_clause place not_equal value

abbrev pub at_least : Any → Any → Any
at_least place value = make_clause place greater_or_equal value

abbrev pub more_than : Any → Any → Any
more_than place value = make_clause place greater_than value

abbrev pub at_most : Any → Any → Any
at_most place value = make_clause place lesser_or_equal value

abbrev pub less_than : Any → Any → Any
less_than place value = make_clause place lesser_than value

-- `Between`, `NotBetween`
abbrev between_values : Any → Any → Any → Any
between_values place from to = make_clause place between (range from to)

abbrev not_between_values : Any → Any → Any → Any
not_between_values place from to = make_clause place not_between (range from to)

-- `IsNull`, `NotNull`
abbrev is_null_test : Bytes → Any
is_null_test place = null_test (wrap_column (scalar (text place))) true

abbrev not_null_test : Bytes → Any
not_null_test place = null_test (wrap_column (scalar (text place))) false

-- `Like`, `NotLike`
abbrev like_value_of : Any → Any → Any
like_value_of place value = like_clause (wrap_column place) false value

abbrev not_like_value_of : Any → Any → Any
not_like_value_of place value = like_clause (wrap_column place) true value

-- The values of `In` with commas between them; the flag is `i > 0`.
pub commas : Bool → Anys → Anys
commas later empty = empty
commas true (cons x xs) = cons (raw (codes ",")) (cons x (commas true xs))
commas false (cons x xs) = cons x (commas true xs)

-- `inGroup` of the elements of a slice or an array, or of one other value.
abbrev in_group : Any → Operator → Anys → Any
unfolding commas wrap_column
in_group place op values =
    clause (wrap_column place) op
      (group (cons (raw (codes "(")) (append (commas false values) (cons (raw (codes ")")) empty))))

-- The loop of `buildGroup`: values that are zero are left out.
abbrev pub join_to : Operator → Any → Anys → Anys
join_to op x empty = cons x empty
join_to op x (cons y ys) = append (cons y ys) (cons (operator op) (cons x empty))

unfoldable pub gather : Operator → Anys → Anys → Anys
gather op empty sg = sg
gather op (cons x xs) sg = gather op xs (if is_zero x then sg else join_to op x sg)

unfoldable pub enclose : Anys → Anys
enclose (cons x (cons y xs)) =
    cons (raw (codes "(")) (append (cons x (cons y xs)) (cons (raw (codes ")")) empty))
enclose xs = xs

-- `buildGroup`: the values of the group.
unfoldable pub build_group : Operator → Anys → Anys
unfolding gather enclose is_zero
build_group op empty = empty
build_group op (cons (group xs) empty) = xs
build_group op xs = enclose (gather op xs empty)

-- `And`, `Or`
abbrev pub and_group : Anys → Any
and_group xs = group (build_group and xs)

abbrev pub or_group : Anys → Any
or_group xs = group (build_group or xs)

-- `Asc`, `Desc`
abbrev pub asc : Any → Any
unfolding wrap_column
asc place = sort (wrap_column place) ascending

unfoldable pub desc : Any → Any
unfolding wrap_column
desc place = sort (wrap_column place) descending

-- `Increment`, `Decrement`
abbrev increment : Bytes → ℕ → Any
increment place n = math place add (pos n)

abbrev decrement : Bytes → ℕ → Any
decrement place n = math place deduct (pos n)

-- `Sum`, `Count`, `Average`, `Max`, `Min`
abbrev aggregate_of : AggregateBy → Any → Any
aggregate_of by place = aggregate (wrap_column place) by

-- `Exists`, `NotExists`, by the word in front.
abbrev exists_group : Bytes → Any → Any
exists_group word subquery = group (cons (raw word) (cons subquery (cons (raw (codes ")")) empty)))
