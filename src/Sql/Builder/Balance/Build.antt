-- ===== src/Sql/Builder/Balance/Build.antt =====
-- Whatever the builder is given, the statement has a placeholder for each argument.
use sqlike.Common.{
  ℕ, ◌+◌, ◌≡◌, refl, Bool, true, false, List, [], ◌∷◌, none, some, Bytes, codes, arith, length, ltb,
  Option-cases, inl, inr, get_elem?, ◌-◌,
}
use sqlike.Sql.Outcome.{Outcome, ok, err, panic, ◌>>=◌ as bind}
use sqlike.Sql.Primitive.{
  ℤ, MathMode, add, deduct, spatial_func_name, spatial_func_names, TypeSafe, safe_string, safe_bool,
  safe_int, safe_uint, safe_float, Any, Anys, Whens, nil, scalar, raw, column, json_column, cast_as,
  func, json_func, field, value_of, alias_as, null_test, encoding, aggregate, clause, like_clause,
  type_safe, operator, group, range, sort, key_value, math, case_of, spatial_func, select_stmt,
  empty, cons, no_when, when_then, Scalar, text,
}
use sqlike.Sql.Stmt.{Arg, null, plain, geometry, Stmt, Step, ◌>>◌, write, append_arg, quote}
use sqlike.Sql.Builder.{Env, geometry_function}
use sqlike.Sql.Builder.Dispatch.{
  convert_spatial, build_encoded, escape_arg, build_pattern, build_range, build_math,
  build_type_safe, append_limit_and_offset, append_select, append_where, append_by,
  build_select_stmt, Mode, statement, value, like_value, build_scalar, build_null, build,
  build_each, build_pairs,
}
use sqlike.Sql.Builder.Balance.{
  holes, Balanced, Plain, AllPlain, Plain-append, Plain-quote, wrote, did_nothing, bound, ◌▸◌,
  either, ◌▹◌, Tally, even-Tally, one_argument, one_mark, from_Tally, AllBalanced,
  separated-Balanced, in_turn-Balanced, Prints, PlainScalar, PlainTypeSafe, NoMarks, NoMarksEach,
  NoMarksPairs,
}
use sqlike.Sql.Builder.Balance.Pieces

unknown_function : Plain (codes "UNKNOWN FUNCTION")
unfolding holes
unknown_function = refl

spatial_func_names-plain : AllPlain spatial_func_names
unfolding holes
spatial_func_names-plain = omega arith

module _ (env : Env) (prints : Prints env) where
  geometry-Plain : (t : ℕ) → Plain (geometry_function t)
  unfolding geometry_function holes
  geometry-Plain t = ground arith

  geometry-Balanced :
      (t srid : ℕ) (wkt : Bytes) → Balanced (convert_spatial env (geometry t srid wkt))
  unfolding convert_spatial holes
  geometry-Balanced t srid wkt = from_Tally {n = 1} (
      even-Tally (wrote _ (geometry-Plain t))
      ▹ one_mark (codes "(?") refl
      ▹ even-Tally (
          either (ltb 0 srid) (wrote _ (Plain-append (codes ",") _ refl (prints.uints srid)))
            did_nothing)
      ▹ even-Tally (wrote _ refl)
      ▹ one_argument (plain (text wkt)))

  pub spatial-Balanced : (a : Arg) → Balanced (convert_spatial env a)
  spatial-Balanced (geometry t srid wkt) = geometry-Balanced t srid wkt
  spatial-Balanced null = unfold convert_spatial in bound null
  spatial-Balanced (plain c) = unfold convert_spatial in bound (plain c)

  -- A value of the registry's, used by a step.
  with_encoded :
      {n k : ℕ} (x : Any) (f : Arg → Step)
      → ((a : Arg) → Tally n k (f a))
      → Tally n k (λ s. bind (env.encode x) (λ a. f a s))
  with_encoded {n} {k} x f h = record { tallies = λ s t e. go s t (env.encode x) e }
    where
      go :
          (s t : Stmt) (o : Outcome Arg)
          → bind o (λ a. f a s) ≡ ok t
          → holes t.text + length s.args + n ≡ holes s.text + length t.args + k
      go s t (ok a) e = (h a).tallies s t e
      go s t (err y) e = cc
      go s t panic e = cc

  encode_and_write : (x : Any) → Balanced (λ s. bind (env.encode x) (λ a. convert_spatial env a s))
  encode_and_write x =
      from_Tally {n = 0}
        (with_encoded x (convert_spatial env) (λ a. even-Tally (spatial-Balanced a)))

  encoded-Balanced : (x : Any) → Balanced (build_encoded env x)
  unfolding build_encoded
  encoded-Balanced nil = bound null
  encoded-Balanced x = encode_and_write x

  mark_and_encode :
      (x : Any)
      → Balanced
          (write (codes "?") >> (λ s. bind (env.encode x) (λ a. append_arg (escape_arg env a) s)))
  unfolding holes
  mark_and_encode x = from_Tally {n = 1} (
      one_mark (codes "?") refl
      ▹ with_encoded x (λ a. append_arg (escape_arg env a)) (λ a. one_argument (escape_arg env a)))

  pattern-Balanced : (x : Any) → Balanced (build_pattern env x)
  unfolding build_pattern
  pattern-Balanced nil = bound null
  pattern-Balanced x = mark_and_encode x

  range-Balanced : (x y : Any) → Balanced (build_range env x y)
  unfolding build_range holes
  range-Balanced x y = from_Tally {n = 2} (
      with_encoded x append_arg one_argument
      ▹ with_encoded y append_arg one_argument
      ▹ one_mark (codes "?") refl
      ▹ even-Tally (wrote (codes " AND ") refl)
      ▹ one_mark (codes "?") refl)

  math-Balanced : (f : Bytes) (w : MathMode) (n : ℤ) → Plain f → Balanced (build_math env f w n)
  unfolding build_math holes
  math-Balanced f w n h =
      wrote _ (Plain-append (quote f) (codes " ") (Plain-quote f h) refl)
      ▸ mode w
      ▸ wrote _ (Plain-append (codes " ") (env.format_int n) refl (prints.ints n))
    where
      mode : (w : MathMode) → Balanced (write (elim w [ add ↦ codes "+" | deduct ↦ codes "-" ]))
      mode add = wrote _ refl
      mode deduct = wrote _ refl

  type_safe-Balanced : (t : TypeSafe) → PlainTypeSafe t → Balanced (build_type_safe env t)
  unfolding build_type_safe holes
  type_safe-Balanced (safe_string s) h = wrote _ (prints.quotes s h)
  type_safe-Balanced (safe_bool true) h = wrote _ refl
  type_safe-Balanced (safe_bool false) h = wrote _ refl
  type_safe-Balanced (safe_int n) h = wrote _ (prints.ints n)
  type_safe-Balanced (safe_uint n) h = wrote _ (prints.uints n)
  type_safe-Balanced (safe_float n) h = wrote _ (prints.floats n)

  pub limit-Balanced : (k n : ℕ) → Balanced (append_limit_and_offset env k n)
  unfolding append_limit_and_offset holes
  limit-Balanced k n =
      either (ltb 0 k) (wrote _ (Plain-append (codes " LIMIT ") _ refl (prints.uints k)))
        did_nothing
      ▸ either (ltb 0 n) (wrote _ (Plain-append (codes " OFFSET ") _ refl (prints.uints n)))
          did_nothing

  pub select-Balanced : (ms : List Step) → AllBalanced ms → Balanced (append_select ms)
  unfolding append_select holes
  select-Balanced [] bs = wrote _ refl
  select-Balanced (m ∷ ms) bs = separated-Balanced (codes ",") (m ∷ ms) refl bs

  pub where-Balanced : (ms : List Step) → AllBalanced ms → Balanced (append_where ms)
  unfolding append_where holes
  where-Balanced [] bs = did_nothing
  where-Balanced (m ∷ ms) bs = wrote _ refl ▸ in_turn-Balanced (m ∷ ms) bs

  pub by-Balanced :
      (word : Bytes) (ms : List Step) → Plain word → AllBalanced ms → Balanced (append_by word ms)
  unfolding append_by holes
  by-Balanced word [] h bs = did_nothing
  by-Balanced word (m ∷ ms) h bs = wrote word h ▸ separated-Balanced (codes ",") (m ∷ ms) refl bs

  select_stmt-Balanced :
      (d : Bool) (ts ps cs gs ss : List Step) (k n : ℕ)
      → AllBalanced ts
      → AllBalanced ps
      → AllBalanced cs
      → AllBalanced gs
      → AllBalanced ss
      → Balanced (build_select_stmt env d ts ps cs gs ss k n)
  unfolding build_select_stmt holes
  select_stmt-Balanced d ts ps cs gs ss k n bt bp bc bg bs =
      wrote _ refl
      ▸ either d (wrote _ refl) did_nothing
      ▸ select-Balanced ps bp
      ▸ wrote _ refl
      ▸ separated-Balanced (codes " ") ts refl bt
      ▸ where-Balanced cs bc
      ▸ by-Balanced (codes " GROUP BY ") gs refl bg
      ▸ by-Balanced (codes " ORDER BY ") ss refl bs
      ▸ limit-Balanced k n

  scalar-Balanced : (m : Mode) (c : Scalar) → PlainScalar c → Balanced (build_scalar env m c)
  unfolding build_scalar
  scalar-Balanced statement (text n) h = wrote (quote n) (Plain-quote n h)
  scalar-Balanced statement _ h = record { matches = λ s t e. cc }
  scalar-Balanced value c h = encoded-Balanced (scalar c)
  scalar-Balanced like_value c h = pattern-Balanced (scalar c)

  null-Balanced : (m : Mode) → Balanced (build_null env m)
  unfolding build_null
  null-Balanced statement = record { matches = λ s t e. cc }
  null-Balanced value = bound null
  null-Balanced like_value = bound null

  spatial_names : (f : ℕ) → Plain (spatial_func_name f)
  unfolding spatial_func_name
  spatial_names f = elim (Option-cases (get_elem? spatial_func_names (f - 1))) [
    | inl h ↦ ground (arith, unknown_function)
    | inr (n, h) ↦ ground (
      arith,
      unknown_function,
      Pieces.found-Plain spatial_func_names (f - 1) n spatial_func_names-plain h,
    )
  ]

  mutual
    unfolding build NoMarks

    any-Balanced : (m : Mode) (x : Any) → NoMarks x → Balanced (build env m x)
    any-Balanced m nil h = null-Balanced m
    any-Balanced m (scalar c) h = scalar-Balanced m c h
    any-Balanced m (raw v) h = wrote v h
    any-Balanced m (column t n) (ht, hn) = Pieces.column-Balanced t n ht hn
    any-Balanced m (json_column c n u) (hc, hn) = Pieces.json_column-Balanced c n u hc hn
    any-Balanced m (cast_as x t) h =
        Pieces.cast_as-Balanced (build env statement x) t (any-Balanced statement x h)
    any-Balanced m (func n xs) (hn, hs) =
        Pieces.function-Balanced n (build_each env statement xs) hn (each-Balanced statement xs hs)
    any-Balanced m (json_func nil t xs) (hp, hs) =
        Pieces.json_function-Balanced none t (build_each env statement xs) tt
          (each-Balanced statement xs hs)
    any-Balanced m (json_func p t xs) (hp, hs) =
        Pieces.json_function-Balanced (some (build env value p)) t (build_each env statement xs)
          (any-Balanced value p hp) (each-Balanced statement xs hs)
    any-Balanced m (field n xs) (hn, hs) =
        Pieces.field-Balanced n (build_each env value xs) hn (each-Balanced value xs hs)
    any-Balanced m (value_of x) h = encoded-Balanced x
    any-Balanced m (alias_as x n) (hx, hn) =
        Pieces.as-Balanced (build env value x) n (any-Balanced value x hx) hn
    any-Balanced m (null_test x b) h =
        Pieces.nil-Balanced (build env statement x) b (any-Balanced statement x h)
    any-Balanced m (encoding c x n) (hc, hx, hn) =
        Pieces.encoding-Balanced c (build env statement x) n hc (any-Balanced statement x hx) hn
    any-Balanced m (aggregate x b) h =
        Pieces.aggregate-Balanced (build env value x) b (any-Balanced value x h)
    any-Balanced m (clause f op v) (hf, hv) =
        Pieces.clause-Balanced (build env statement f) op (build env value v)
          (any-Balanced statement f hf) (any-Balanced value v hv)
    any-Balanced m (like_clause f b v) (hf, hv) =
        Pieces.like-Balanced (build env statement f) (build env like_value v) b
          (any-Balanced statement f hf) (any-Balanced like_value v hv)
    any-Balanced m (type_safe t) h = type_safe-Balanced t h
    any-Balanced m (operator op) h = Pieces.operator-Balanced op
    any-Balanced m (group xs) h =
        in_turn-Balanced (build_each env value xs) (each-Balanced value xs h)
    any-Balanced m (range x y) h = range-Balanced x y
    any-Balanced m (sort x o) h =
        Pieces.sort-Balanced (build env statement x) o (any-Balanced statement x h)
    any-Balanced m (key_value f v) (hf, hv) =
        Pieces.key_value-Balanced f (build env value v) hf (any-Balanced value v hv)
    any-Balanced m (math f w n) h = math-Balanced f w n h
    any-Balanced m (case_of ws nil) (hs, he) =
        Pieces.case-Balanced (build_pairs env ws) none (pairs-Balanced ws hs) tt
    any-Balanced m (case_of ws e) (hs, he) =
        Pieces.case-Balanced (build_pairs env ws) (some (build env value e)) (pairs-Balanced ws hs)
          (any-Balanced value e he)
    any-Balanced m (spatial_func f xs) h =
        Pieces.function-Balanced (spatial_func_name f) (build_each env statement xs)
          (spatial_names f) (each-Balanced statement xs h)
    any-Balanced m (select_stmt d ts ps cs gs ss k n) (ht, hp, hc, hg, hs) =
        select_stmt-Balanced d (build_each env statement ts) (build_each env statement ps)
          (build_each env statement cs) (build_each env statement gs) (build_each env statement ss)
          k n (each-Balanced statement ts ht) (each-Balanced statement ps hp)
          (each-Balanced statement cs hc) (each-Balanced statement gs hg)
          (each-Balanced statement ss hs)

    each-Balanced : (m : Mode) (xs : Anys) → NoMarksEach xs → AllBalanced (build_each env m xs)
    each-Balanced m empty h = tt
    each-Balanced m (cons x xs) (h, hs) = (any-Balanced m x h, each-Balanced m xs hs)

    pairs-Balanced : (ws : Whens) → NoMarksPairs ws → Pieces.PairsBalanced (build_pairs env ws)
    pairs-Balanced no_when h = tt
    pairs-Balanced (when_then w t ws) (hw, ht, hs) =
        (any-Balanced statement w hw, any-Balanced value t ht, pairs-Balanced ws hs)

  -- Whatever primitive is built, by `BuildStatement` or as a value: if that succeeds, the text has
  -- gained as many question marks as arguments were appended, where no name and no raw text of the
  -- primitive holds a question mark and numbers and quoted strings are printed with none of their own.
  pub build-Balanced :
      (m : Mode) (x : Any) (s t : Stmt)
      → NoMarks x
      → build env m x s ≡ ok t
      → holes t.text + length s.args ≡ holes s.text + length t.args
  build-Balanced m x s t h e = (any-Balanced m x h).matches s t e
