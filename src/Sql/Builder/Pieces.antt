-- ===== src/Sql/Builder/Pieces.antt =====
-- sql/dialect/mysql/builder.go: one function for each `Build…` method that needs no registry.
use sqlike.Common.{
  ℕ, Bool, false, List, [], ◌∷◌, ◌++◌, Option, none, some, Bytes, codes, ◌==◌, if◌then◌else◌, same,
}
use sqlike.Sql.Outcome.{panic, ◌>>=◌ as bind}
use sqlike.Sql.Primitive.{
  Operator, is_null, not_null, Order, ascending, descending, AggregateBy, no_aggregate, sum, count,
  average, max, min, json_func_name,
}
use sqlike.Sql.Stmt.{Step, ◌>>◌, done, fail, write, quote, wrap}
use sqlike.Sql.Builder.{separated, preceded, operator_map}

unfoldable pub build_cast_as : Step → Bytes → Step
build_cast_as value data_type = do
  write (codes "CAST(")
  value
  write (codes " AS ")
  if same data_type (codes "JSON")
      then write (codes "JSON")
      else fail "mysql: unsupported cast as data type"
  write (codes ")")

unfoldable pub build_function : Bytes → List Step → Step
unfolding separated
build_function name args = do
  write name
  write (codes "(")
  separated (codes ",") args
  write (codes ")")

unfoldable pub build_json_function : Option Step → ℕ → List Step → Step
unfolding separated
build_json_function prefix type args = do
  elim prefix [ none ↦ done | some p ↦ p >> write (codes " ") ]
  (λ s. bind (json_func_name type) (λ n. write n s))
  write (codes "(")
  separated (codes ",") args
  write (codes ")")

unfoldable pub build_like : Step → Bool → Step → Step
build_like field is_not value = do
  field
  write (codes " ")
  write (if is_not then codes "NOT LIKE" else codes "LIKE")
  write (codes " ")
  value

unfoldable pub build_field : Bytes → List Step → Step
unfolding preceded
build_field name values = do
  write (codes "FIELD")
  write (codes "(")
  write (quote name)
  preceded (codes ",") values
  write (codes ")")

unfoldable pub qualifier : Bytes → Step
qualifier [] = done
qualifier (x ∷ t) = write (quote (x ∷ t)) >> write (codes ".")

unfoldable pub build_column : Bytes → Bytes → Step
unfolding qualifier
build_column table name = do qualifier table; write (quote name)

-- `strings.Join`
unfoldable pub join : Bytes → List Bytes → Bytes
join sep [] = []
join sep (p ∷ []) = p
join sep (p ∷ q ∷ ps) = p ++ (sep ++ join sep (q ∷ ps))

-- `strings.HasPrefix(s, "$.")`
pub has_dollar : Bytes → Bool
has_dollar (x ∷ y ∷ s) = if x == b'$' then y == b'.' else false
has_dollar _ = false

unfoldable pub build_json_column : Bytes → List Bytes → Bool → Step
unfolding join has_dollar
build_json_column column nested unquote =
    let path = join (codes ".") nested in
    let path' = if has_dollar path then path else codes "$." ++ path in
    write (quote column ++ ((if unquote then codes "->>" else codes "->") ++ wrap path'))

unfoldable pub build_nil : Step → Bool → Step
build_nil field is_not = do field; write (if is_not then codes " IS NULL" else codes " IS NOT NULL")

unfoldable pub build_as : Step → Bytes → Step
build_as field name = do
  write (codes "(")
  field
  write (codes ")")
  write (codes " AS ")
  write (quote name)

abbrev aggregate_name : AggregateBy → Bytes
aggregate_name average = codes "AVG"
aggregate_name count = codes "COUNT"
aggregate_name max = codes "MAX"
aggregate_name min = codes "MIN"
aggregate_name sum = []
aggregate_name no_aggregate = []

unfoldable pub build_aggregate : Step → AggregateBy → Step
build_aggregate field sum = do write (codes "COALESCE(SUM("); field; write (codes "),0)")
build_aggregate field by = do write (aggregate_name by); write (codes "("); field; write (codes ")")

unfoldable pub build_operator : Operator → Step
unfolding operator_map
build_operator op = do write (codes " "); write (operator_map op); write (codes " ")

unfoldable pub build_clause : Step → Operator → Step → Step
unfolding operator_map
build_clause field op value = do
  field
  write (codes " " ++ (operator_map op ++ codes " "))
  elim op [ is_null ↦ done | not_null ↦ done | _ ↦ value ]

unfoldable pub build_sort : Step → Order → Step
build_sort field ascending = field
build_sort field descending = do field; write (codes " "); write (codes "DESC")

unfoldable pub build_key_value : Bytes → Step → Step
build_key_value field value = do write (quote field); write (codes " = "); value

-- The conditions and the results of a `Case`.
unfoldable pub build_whens : List (Step × Step) → Step
build_whens [] = done
build_whens ((w, t) ∷ ws) = do write (codes " WHEN "); w; write (codes " THEN "); t; build_whens ws

unfoldable pub build_case : List (Step × Step) → Option Step → Step
unfolding build_whens
build_case whens else_clause = do
  write (codes "(")
  write (codes "CASE")
  build_whens whens
  write (codes " ELSE ")
  elim else_clause [ none ↦ done | some m ↦ m ]
  write (codes " END")
  write (codes ")")

-- `(*x.Charset)[0]` panics on an empty charset.
unfoldable pub build_charset : Option Bytes → Step
build_charset none = done
build_charset (some []) = λ s. panic
build_charset (some (x ∷ n)) =
    (if x == b'_' then done else write (codes "_")) >> write ((x ∷ n) ++ codes " ")

unfoldable pub build_encoding : Option Bytes → Step → Bytes → Step
unfolding build_charset
build_encoding charset column collate = do
  build_charset charset
  column
  write (codes " COLLATE " ++ collate)
