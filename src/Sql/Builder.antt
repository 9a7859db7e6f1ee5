-- ===== src/Sql/Builder.antt =====
-- sql/dialect/mysql/builder.go: what its `Build…` methods share. They are in `Pieces`, each over the
-- steps that its calls of `BuildStatement` and `getValue` are, and `Dispatch` ties them together.
pub mod Pieces
pub mod Dispatch
pub mod Balance
use Prim.Native.String.{String}
use sqlike.Common.{
  ℕ, zero, suc, Bool, true, false, List, [], ◌∷◌, ◌++◌, Option, none, some, Bytes, codes, ltb, ◌==◌,
  if◌then◌else◌, same, length,
}
use sqlike.Sql.Outcome.{Outcome, ok, err, panic, ◌>>=◌ as bind}
use sqlike.Sql.Primitive.{
  ℤ, Scalar, text, binary, Operator, equal, not_equal, greater_than, lesser_than, greater_or_equal,
  lesser_or_equal, like, not_like, in_list, not_in_list, between, not_between, and, or, is_null,
  not_null, Order, ascending, descending, MathMode, add, deduct, AggregateBy, no_aggregate, sum,
  count, average, max, min, json_func_name, spatial_func_name, TypeSafe, safe_string, safe_bool,
  safe_int, safe_uint, safe_float, Any, Anys, scalar,
}
use sqlike.Sql.Stmt.{
  Arg, null, plain, geometry, Stmt, Step, ◌>>◌, done, fail, write, append_arg, quote, wrap,
  table_name,
}

-- What the builder calls and does not implement: the registry's encoders, and package `strconv`.
pub record Env : Type 0 where
  -- `LookupEncoder` and the encoder that it finds
  pub encode : Any → Outcome Arg
  pub go_quote : Bytes → Bytes
  pub format_int : ℤ → Bytes
  pub format_uint : ℕ → Bytes
  pub format_float : ℕ → Bytes

-- `operatorMap`; a missing key gives the empty string.
pub operator_map : Operator → Bytes
operator_map equal = codes "="
operator_map not_equal = codes "<>"
operator_map in_list = codes "IN"
operator_map not_in_list = codes "NOT IN"
operator_map between = codes "BETWEEN"
operator_map not_between = codes "NOT BETWEEN"
operator_map is_null = codes "IS NULL"
operator_map not_null = codes "IS NOT NULL"
operator_map greater_than = codes ">"
operator_map greater_or_equal = codes ">="
operator_map lesser_than = codes "<"
operator_map lesser_or_equal = codes "<="
operator_map or = codes "OR"
operator_map and = codes "AND"
operator_map like = []
operator_map not_like = []

-- The byte that `escapeWildCard` writes for one that is not the last.
escape_wild : ℕ → Bytes
escape_wild x =
    if x == b'%'
    then codes "\\%"
    else if x == b'_'
    then codes "\\_"
    else if x == b'\\'
    then codes "\\\\"
    else x ∷ []

-- `escapeWildCard`: the last byte is written as it is.
abbrev pub escape_wild_card : Bytes → Bytes
unfolding escape_wild
escape_wild_card [] = []
escape_wild_card (x ∷ []) = x ∷ []
escape_wild_card (x ∷ y ∷ n) = escape_wild x ++ escape_wild_card (y ∷ n)

-- A question mark and its argument.
unfoldable pub bind_arg : Arg → Step
bind_arg a = do write (codes "?"); append_arg a

-- Steps with a text between them, and with a text in front of each.
unfoldable pub separated : Bytes → List Step → Step
separated sep [] = done
separated sep (m ∷ []) = m
separated sep (m ∷ k ∷ ms) = do m; write sep; separated sep (k ∷ ms)

pub preceded : Bytes → List Step → Step
preceded sep [] = done
preceded sep (m ∷ ms) = do write sep; m; preceded sep ms

unfoldable pub in_turn : List Step → Step
in_turn [] = done
in_turn (m ∷ ms) = m >> in_turn ms

-- The name of the function that reads a geometry of a type, from 1 on.
unfoldable pub geometry_function : ℕ → Bytes
geometry_function t =
    if t == 1
    then codes "ST_PointFromText"
    else if t == 2
    then codes "ST_LineStringFromText"
    else if t == 3
    then codes "ST_PolygonFromText"
    else if t == 4
    then codes "ST_MultiPointFromText"
    else if t == 5
    then codes "ST_MultiLineStringFromText"
    else if t == 6
    then codes "ST_MultiPolygonFromText"
    else []
