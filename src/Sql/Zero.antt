-- ===== src/Sql/Zero.antt =====
-- `IsZero` of reflext/helper.go on the values of the query side: a struct is zero if each of its fields
-- is, a field of interface type if it is nil, a pointer if it is nil.
use sqlike.Common.{Bool, true, false, not, ◌&&◌, List, [], ◌∷◌, Option, none, some, Bytes, ◌==◌}
use sqlike.Sql.Primitive.{
  ℤ, pos, negsuc, Scalar, text, binary, boolean, int, uint, other, Operator, equal, Order,
  ascending, descending, MathMode, add, deduct, AggregateBy, no_aggregate, Any, Anys, nil, scalar,
  raw, column, json_column, cast_as, func, json_func, field, value_of, alias_as, null_test,
  encoding, aggregate, clause, like_clause, type_safe, operator, group, range, sort, key_value,
  math, case_of, spatial_func, select_stmt, empty, cons,
}

abbrev no_bytes : Bytes → Bool
no_bytes [] = true
no_bytes (x ∷ w) = false

abbrev no_names : List Bytes → Bool
no_names [] = true
no_names (x ∷ w) = false

abbrev pub is_nil : Any → Bool
is_nil nil = true
is_nil _ = false

abbrev pub is_empty : Anys → Bool
is_empty empty = true
is_empty (cons x xs) = false

abbrev is_equal : Operator → Bool
is_equal equal = true
is_equal _ = false

abbrev is_ascending : Order → Bool
is_ascending ascending = true
is_ascending descending = false

abbrev is_add : MathMode → Bool
is_add add = true
is_add deduct = false

abbrev is_none : Option Bytes → Bool
is_none none = true
is_none (some w) = false

abbrev no_by : AggregateBy → Bool
no_by no_aggregate = true
no_by _ = false

abbrev zero_int : ℤ → Bool
zero_int (pos n) = n == 0
zero_int (negsuc n) = false

abbrev zero_scalar : Scalar → Bool
zero_scalar (text w) = no_bytes w
zero_scalar (binary w) = no_bytes w
zero_scalar (boolean b) = not b
zero_scalar (int n) = zero_int n
zero_scalar (uint n) = n == 0
zero_scalar (other n) = n == 0

unfoldable pub is_zero : Any → Bool
is_zero nil = true
is_zero (scalar c) = zero_scalar c
is_zero (raw w) = no_bytes w
is_zero (column t n) = no_bytes t && no_bytes n
is_zero (json_column c n u) = no_bytes c && no_names n && not u
is_zero (cast_as x t) = is_nil x && no_bytes t
is_zero (func n xs) = no_bytes n && is_empty xs
is_zero (json_func p t xs) = is_nil p && t == 0 && is_empty xs
is_zero (field n xs) = no_bytes n && is_empty xs
is_zero (value_of x) = is_nil x
is_zero (alias_as x n) = is_nil x && no_bytes n
is_zero (null_test x b) = is_nil x && not b
is_zero (encoding c x n) = is_none c && is_nil x && no_bytes n
is_zero (aggregate x b) = is_nil x && no_by b
is_zero (clause f op v) = is_nil f && is_equal op && is_nil v
is_zero (like_clause f b v) = is_nil f && not b && is_nil v
is_zero (type_safe t) = false
is_zero (operator op) = is_equal op
is_zero (group xs) = is_empty xs
is_zero (range x y) = is_nil x && is_nil y
is_zero (sort x o) = is_nil x && is_ascending o
is_zero (key_value f v) = no_bytes f && is_nil v
is_zero (math f m n) = no_bytes f && is_add m && zero_int n
is_zero (case_of ws e) = false
is_zero (spatial_func f xs) = f == 0 && is_empty xs
is_zero (select_stmt d ts ps cs gs ss k n) = false
