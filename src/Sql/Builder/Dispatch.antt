-- ===== src/Sql/Builder/Dispatch.antt =====
-- sql/dialect/mysql/builder.go: the methods that encode values, `BuildSelectStmt`, and
-- `StatementBuilder.BuildStatement` of sql/stmt/builder.go over the builders that
-- `SetRegistryAndBuilders` registers.
use sqlike.Common.{ℕ, Bool, List, [], ◌∷◌, ◌++◌, none, some, Bytes, codes, ltb, if◌then◌else◌}
use sqlike.Sql.Outcome.{panic, ◌>>=◌ as bind}
use sqlike.Sql.Primitive.{
  ℤ, Scalar, text, binary, MathMode, add, deduct, spatial_func_name, TypeSafe, safe_string,
  safe_bool, safe_int, safe_uint, safe_float, Any, Anys, Whens, nil, scalar, raw, column,
  json_column, cast_as, func, json_func, field, value_of, alias_as, null_test, encoding, aggregate,
  clause, like_clause, type_safe, operator, group, range, sort, key_value, math, case_of,
  spatial_func, select_stmt, empty, cons, no_when, when_then,
}
use sqlike.Sql.Stmt.{Arg, null, plain, geometry, Step, ◌>>◌, done, fail, write, append_arg, quote}
use sqlike.Sql.Builder.{Env, bind_arg, in_turn, separated, geometry_function, escape_wild_card}
use sqlike.Sql.Builder.Pieces.{
  build_cast_as, build_function, build_json_function, build_like, build_field, build_column,
  build_json_column, build_nil, build_as, build_aggregate, build_operator, build_clause, build_sort,
  build_key_value, build_case, build_encoding,
}

-- `appendSelect`
unfoldable pub append_select : List Step → Step
append_select [] = write (codes "*")
append_select (p ∷ ps) = separated (codes ",") (p ∷ ps)

-- `appendWhere`
unfoldable pub append_where : List Step → Step
append_where [] = done
append_where (p ∷ ps) = write (codes " WHERE ") >> in_turn (p ∷ ps)

-- `appendGroupBy` and `appendOrderBy`, by the word in front.
unfoldable pub append_by : Bytes → List Step → Step
append_by word [] = done
append_by word (p ∷ ps) = write word >> separated (codes ",") (p ∷ ps)

-- `BuildStatement`, `getValue` and the value of `BuildLike` differ on nil and on a plain value alone.
pub data Mode : Type 0 where
  statement value like_value : Mode

module _ (env : Env) where
  open env use {encode, go_quote, format_int, format_uint, format_float}

  -- `convertSpatial`
  unfoldable pub convert_spatial : Arg → Step
  unfolding bind_arg geometry_function
  convert_spatial (geometry t srid wkt) = do
    write (geometry_function t)
    write (codes "(?")
    if ltb 0 srid then write (codes "," ++ format_uint srid) else done
    write (codes ")")
    append_arg (plain (text wkt))
  convert_spatial a = bind_arg a

  -- A value that is no primitive, in `getValue`, and `BuildValue`.
  unfoldable pub build_encoded : Any → Step
  unfolding convert_spatial
  build_encoded nil = bind_arg null
  build_encoded x = λ s. bind (encode x) (λ a. convert_spatial a s)

  abbrev pub escape_arg : Arg → Arg
  escape_arg (plain (text n)) = plain (text (escape_wild_card n))
  escape_arg (plain (binary n)) = plain (text (escape_wild_card n))
  escape_arg a = a

  -- The value of `BuildLike` that is no primitive.
  unfoldable pub build_pattern : Any → Step
  build_pattern nil = bind_arg null
  build_pattern x = do write (codes "?"); λ s. bind (encode x) (λ a. append_arg (escape_arg a) s)

  unfoldable pub build_range : Any → Any → Step
  build_range from to = do
    λ s. bind (encode from) (λ a. append_arg a s)
    λ s. bind (encode to) (λ a. append_arg a s)
    write (codes "?")
    write (codes " AND ")
    write (codes "?")

  unfoldable pub build_math : Bytes → MathMode → ℤ → Step
  build_math name mode n = do
    write (quote name ++ codes " ")
    write (elim mode [ add ↦ codes "+" | deduct ↦ codes "-" ])
    write (codes " " ++ format_int n)

  unfoldable pub build_type_safe : TypeSafe → Step
  build_type_safe (safe_string s) = write (go_quote s)
  build_type_safe (safe_bool b) = write (if b then codes "1" else codes "0")
  build_type_safe (safe_int n) = write (format_int n)
  build_type_safe (safe_uint n) = write (format_uint n)
  build_type_safe (safe_float n) = write (format_float n)

  unfoldable pub append_limit_and_offset : ℕ → ℕ → Step
  append_limit_and_offset limit offset = do
    if ltb 0 limit then write (codes " LIMIT " ++ format_uint limit) else done
    if ltb 0 offset then write (codes " OFFSET " ++ format_uint offset) else done

  -- `BuildSelectStmt`: the having clause and the joins are not written.
  unfoldable pub build_select_stmt :
      Bool → List Step → List Step → List Step → List Step → List Step → ℕ → ℕ → Step
  build_select_stmt distinct tables projections conditions groups sorts max skip = do
    write (codes "SELECT ")
    if distinct then write (codes "DISTINCT ") else done
    append_select projections
    write (codes " FROM ")
    separated (codes " ") tables
    append_where conditions
    append_by (codes " GROUP BY ") groups
    append_by (codes " ORDER BY ") sorts
    append_limit_and_offset max skip

  -- `BuildStatement` of a plain value: a string is quoted as a name (`BuildString`).
  unfoldable pub build_scalar : Mode → Scalar → Step
  build_scalar statement (text n) = write (quote n)
  build_scalar statement _ = fail "sqlstmt: invalid data type support"
  build_scalar value c = build_encoded (scalar c)
  build_scalar like_value c = build_pattern (scalar c)

  -- `reflext.ValueOf(nil).Type()` panics in `BuildStatement`.
  unfoldable pub build_null : Mode → Step
  build_null statement = λ s. panic
  build_null value = bind_arg null
  build_null like_value = bind_arg null

  unfoldable mutual
    pub build : Mode → Any → Step
    build m nil = build_null m
    build m (scalar c) = build_scalar m c
    build m (raw v) = write v
    build m (column t n) = build_column t n
    build m (json_column c n u) = build_json_column c n u
    build m (cast_as x t) = build_cast_as (build statement x) t
    build m (func n xs) = build_function n (build_each statement xs)
    build m (json_func nil t xs) = build_json_function none t (build_each statement xs)
    build m (json_func p t xs) =
        build_json_function (some (build value p)) t (build_each statement xs)
    build m (field n xs) = build_field n (build_each value xs)
    build m (value_of x) = build_encoded x
    build m (alias_as x n) = build_as (build value x) n
    build m (null_test x b) = build_nil (build statement x) b
    build m (encoding c x n) = build_encoding c (build statement x) n
    build m (aggregate x b) = build_aggregate (build value x) b
    build m (clause f op v) = build_clause (build statement f) op (build value v)
    build m (like_clause f b v) = build_like (build statement f) b (build like_value v)
    build m (type_safe t) = build_type_safe t
    build m (operator op) = build_operator op
    build m (group xs) = in_turn (build_each value xs)
    build m (range x y) = build_range x y
    build m (sort x o) = build_sort (build statement x) o
    build m (key_value f v) = build_key_value f (build value v)
    build m (math f w n) = build_math f w n
    build m (case_of ws nil) = build_case (build_pairs ws) none
    build m (case_of ws e) = build_case (build_pairs ws) (some (build value e))
    build m (spatial_func f xs) = build_function (spatial_func_name f) (build_each statement xs)
    build m (select_stmt d ts ps cs gs ss k n) =
        build_select_stmt d (build_each statement ts) (build_each statement ps)
          (build_each statement cs) (build_each statement gs) (build_each statement ss) k n

    pub build_each : Mode → Anys → List Step
    build_each m empty = []
    build_each m (cons x xs) = build m x ∷ build_each m xs

    pub build_pairs : Whens → List (Step × Step)
    build_pairs no_when = []
    build_pairs (when_then w t ws) = (build statement w, build value t) ∷ build_pairs ws
