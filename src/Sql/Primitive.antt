-- ===== src/Sql/Primitive.antt =====
-- Package `primitive` (sqlike/primitive), `spatial.Func` of spatial/spatial.go and `sql.SelectStmt`
-- of sql/select.go: the values that a query is built from, as one data type for `interface{}`.
use sqlike.Common.{
  ℕ, suc, ◌-◌, Bool, List, Option, none, some, Bytes, codes, ltb, ◌==◌, if◌then◌else◌, [], ◌∷◌,
  get_elem?, length,
}
use sqlike.Sql.Outcome.{Outcome, ok, panic}

-- `negsuc n` is -(n + 1).
pub data ℤ : Type 0 where
  pos : ℕ → ℤ
  negsuc : ℕ → ℤ

-- A plain Go value. Of the types that the query side does not look into only the identity is kept;
-- `other 0` is the zero value.
pub data Scalar : Type 0 where
  text : Bytes → Scalar
  binary : Bytes → Scalar
  boolean : Bool → Scalar
  int : ℤ → Scalar
  uint : ℕ → Scalar
  other : ℕ → Scalar

pub data Operator : Type 0 where
  equal not_equal greater_than lesser_than greater_or_equal lesser_or_equal : Operator
  like not_like in_list not_in_list between not_between : Operator
  and or is_null not_null : Operator

-- `Operator.String`
abbrev operator_name : Operator → Bytes
operator_name equal = codes "="
operator_name not_equal = codes "<>"
operator_name greater_than = codes ">"
operator_name lesser_than = codes "<"
operator_name greater_or_equal = codes ">="
operator_name lesser_or_equal = codes "<="
operator_name like = codes "LIKE"
operator_name not_like = codes "NOT LIKE"
operator_name in_list = codes "IN"
operator_name not_in_list = codes "NOT IN"
operator_name between = codes "BETWEEN"
operator_name and = codes "AND"
operator_name or = codes "OR"
operator_name is_null = codes "IS NULL"
operator_name not_between = []
operator_name not_null = []

pub data Order : Type 0 where
  ascending descending : Order

pub data MathMode : Type 0 where
  add deduct : MathMode

-- `By` of an `Aggregate`; `no_aggregate` is its zero value.
pub data AggregateBy : Type 0 where
  no_aggregate sum count average max min : AggregateBy

-- The names of the JSON functions, from 1 on.
abbrev pub json_func_names : List Bytes
json_func_names =
    codes "JSON_CONTAINS"
    ∷ codes "JSON_PRETTY"
    ∷ codes "JSON_KEYS"
    ∷ codes "JSON_TYPE"
    ∷ codes "JSON_VALID"
    ∷ codes "JSON_QUOTE"
    ∷ codes "JSON_UNQUOTE"
    ∷ codes "JSON_SET"
    ∷ codes "JSON_EXTRACT"
    ∷ codes "JSON_INSERT"
    ∷ codes "JSON_REPLACE"
    ∷ codes "JSON_REMOVE"
    ∷ codes "MEMBER OF"
    ∷ []

-- `jsonFunction.String`: the test lets the index `len(jsonFuncNames)` through, and -1.
unfoldable pub json_func_name : ℕ → Outcome Bytes
json_func_name f =
    if f == 0
    then panic
    else if ltb (length json_func_names) (f - 1)
    then ok (codes "Unknown JSON Function")
    else elim (get_elem? json_func_names (f - 1)) [ none ↦ panic | some n ↦ ok n ]

-- `function.String` of spatial/spatial.go, from 1 on.
abbrev pub spatial_func_names : List Bytes
spatial_func_names =
    codes "ST_GeomFromText"
    ∷ codes "ST_Distance"
    ∷ codes "ST_Within"
    ∷ codes "ST_Equals"
    ∷ codes "ST_PointFromText"
    ∷ codes "UNKNOWN FUNCTION"
    ∷ codes "ST_LineString"
    ∷ codes "UNKNOWN FUNCTION"
    ∷ codes "UNKNOWN FUNCTION"
    ∷ codes "ST_Area"
    ∷ codes "ST_AsText"
    ∷ codes "ST_AsWKB"
    ∷ codes "ST_AsWKT"
    ∷ codes "ST_AsGeoJSON"
    ∷ codes "ST_SRID"
    ∷ codes "ST_X"
    ∷ codes "ST_Y"
    ∷ codes "ST_IsValid"
    ∷ codes "ST_Intersects"
    ∷ codes "ST_Transform"
    ∷ []

unfoldable pub spatial_func_name : ℕ → Bytes
spatial_func_name f =
    if f == 0 then codes "UNKNOWN FUNCTION" else elim (get_elem? spatial_func_names (f - 1)) [
      | none ↦ codes "UNKNOWN FUNCTION"
      | some n ↦ n
    ]

-- `TypeSafe`: a value of the kind that it names.
pub data TypeSafe : Type 0 where
  safe_string : Bytes → TypeSafe
  safe_bool : Bool → TypeSafe
  safe_int : ℤ → TypeSafe
  safe_uint : ℕ → TypeSafe
  safe_float : ℕ → TypeSafe

mutual
  -- A value of `interface{}`.
  pub data Any : Type 0 where
    nil : Any
    scalar : Scalar → Any
    raw : Bytes → Any
    column : Bytes → Bytes → Any
    json_column : Bytes → List Bytes → Bool → Any
    cast_as : Any → Bytes → Any
    func : Bytes → Anys → Any
    json_func : Any → ℕ → Anys → Any
    field : Bytes → Anys → Any
    value_of : Any → Any
    alias_as : Any → Bytes → Any
    -- `Nil{Field, IsNot}`
    null_test : Any → Bool → Any
    encoding : Option Bytes → Any → Bytes → Any
    aggregate : Any → AggregateBy → Any
    -- `C{Field, Operator, Value}`
    clause : Any → Operator → Any → Any
    -- `L{Field, IsNot, Value}`
    like_clause : Any → Bool → Any → Any
    type_safe : TypeSafe → Any
    operator : Operator → Any
    group : Anys → Any
    -- `R{From, To}`
    range : Any → Any → Any
    sort : Any → Order → Any
    -- `KV{Field, Value}`
    key_value : Bytes → Any → Any
    math : Bytes → MathMode → ℤ → Any
    -- `*Case{WhenClauses, ElseClause}`
    case_of : Whens → Any → Any
    spatial_func : ℕ → Anys → Any
    -- `*sql.SelectStmt`: distinct, tables, projections, conditions, groups, sorts, max, skip
    select_stmt : Bool → Anys → Anys → Anys → Anys → Anys → ℕ → ℕ → Any

  -- A value of `[]interface{}`.
  pub data Anys : Type 0 where
    empty : Anys
    cons : Any → Anys → Anys

  -- The pairs of a condition and a result.
  pub data Whens : Type 0 where
    no_when : Whens
    when_then : Any → Any → Whens → Whens

abbrev pub append : Anys → Anys → Anys
append empty ys = ys
append (cons x xs) ys = cons x (append xs ys)

abbrev pub count_of : Anys → ℕ
count_of empty = 0
count_of (cons x xs) = suc (count_of xs)
