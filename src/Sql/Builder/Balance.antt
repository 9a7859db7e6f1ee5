-- ===== src/Sql/Builder/Balance.antt =====
-- Placeholders against arguments: the steps that write as many question marks as they append
-- arguments, and the primitives whose own texts hold no question mark.
pub mod Pieces
pub mod Build
use sqlike.Common.{
  ℕ, zero, suc, ◌+◌, ◌≡◌, refl, ap, ◌∙◌, Bool, true, false, List, [], ◌∷◌, ◌++◌, Option, none, some,
  Bytes, arith, ◌==◌, if◌then◌else◌, length, length-append,
}
use sqlike.Sql.Outcome.{Outcome, ok, err, panic, ◌>>=◌ as bind}
use sqlike.Sql.Primitive.{
  ℤ, TypeSafe, safe_string, safe_bool, safe_int, safe_uint, safe_float, Any, Anys, Whens, nil,
  scalar, raw, column, json_column, cast_as, func, json_func, field, value_of, alias_as, null_test,
  encoding, aggregate, clause, like_clause, type_safe, operator, group, range, sort, key_value,
  math, case_of, spatial_func, select_stmt, empty, cons, no_when, when_then, Scalar, text,
}
use sqlike.Sql.Stmt.{Arg, Stmt, Step, ◌>>◌, done, fail, write, append_arg, quote}
use sqlike.Sql.Builder.{Env, bind_arg, separated, preceded, in_turn}

-- The question marks of a text.
unfoldable pub holes : Bytes → ℕ
holes [] = 0
holes (x ∷ w) = (if x == b'?' then 1 else 0) + holes w

pub holes-append : (v w : Bytes) → holes (v ++ w) ≡ holes v + holes w
unfolding holes
holes-append [] w = omega arith
holes-append (x ∷ v) w = omega (arith, holes-append v w)

-- A step that succeeds writes as many question marks as it appends arguments.
pub record Balanced (m : Step) : Type 0 where
  pub matches :
      (s t : Stmt) → m s ≡ ok t → holes t.text + length s.args ≡ holes s.text + length t.args

abbrev pub Plain : Bytes → Type 0
Plain w = holes w ≡ 0

pub Plain-append : (v w : Bytes) → Plain v → Plain w → Plain (v ++ w)
Plain-append v w h k = omega (arith, holes-append v w)

pub Plain-quote : (n : Bytes) → Plain n → Plain (quote n)
unfolding holes
Plain-quote n h = omega (arith, holes-append n (b'`' ∷ []))

pub wrote : (w : Bytes) → Plain w → Balanced (write w)
wrote w h = record { matches = λ s t e. ground (arith, holes-append s.text w) }

pub did_nothing : Balanced done
did_nothing = record { matches = λ s t e. ground arith }

pub bound : (a : Arg) → Balanced (bind_arg a)
unfolding bind_arg holes
bound a = record {
  matches = λ s t e. ground (arith, holes-append s.text (b'?' ∷ []), length-append s.args (a ∷ []));
}

infixr 6 ◌▸◌
pub ◌▸◌ : {m k : Step} → Balanced m → Balanced k → Balanced (m >> k)
◌▸◌ {m} {k} bm bk = record { matches = λ s t e. go s t (m s) refl e }
  where
    go :
        (s t : Stmt) (o : Outcome Stmt)
        → m s ≡ o
        → bind o k ≡ ok t
        → holes t.text + length s.args ≡ holes s.text + length t.args
    go s t (ok u) e h = omega (arith, bm.matches s u e, bk.matches u t h)
    go s t (err x) e h = cc
    go s t panic e h = cc

-- A step that appends `p` arguments more than it writes question marks, less `q`.
pub record Tally (p q : ℕ) (m : Step) : Type 0 where
  pub tallies :
      (s t : Stmt)
      → m s ≡ ok t
      → holes t.text + length s.args + p ≡ holes s.text + length t.args + q

infixr 6 ◌▹◌
pub ◌▹◌ :
    {p q p' q' : ℕ} {m k : Step} → Tally p q m → Tally p' q' k → Tally (p + p') (q + q') (m >> k)
◌▹◌ {p} {q} {p'} {q'} {m} {k} tm tk = record { tallies = λ s t e. go s t (m s) refl e }
  where
    go :
        (s t : Stmt) (o : Outcome Stmt)
        → m s ≡ o
        → bind o k ≡ ok t
        → holes t.text + length s.args + (p + p') ≡ holes s.text + length t.args + (q + q')
    go s t (ok u) e h = omega (arith, tm.tallies s u e, tk.tallies u t h)
    go s t (err x) e h = cc
    go s t panic e h = cc

pub even-Tally : {m : Step} → Balanced m → Tally 0 0 m
even-Tally b = record { tallies = λ s t e. omega (arith, b.matches s t e) }

pub one_argument : (a : Arg) → Tally 1 0 (append_arg a)
one_argument a = record { tallies = λ s t e. ground (arith, length-append s.args (a ∷ [])) }

pub one_mark : (w : Bytes) → holes w ≡ 1 → Tally 0 1 (write w)
one_mark w h = record { tallies = λ s t e. ground (arith, holes-append s.text w) }

pub from_Tally : {n : ℕ} {m : Step} → Tally n n m → Balanced m
from_Tally y = record { matches = λ s t e. omega (arith, y.tallies s t e) }

pub either : {m k : Step} (b : Bool) → Balanced m → Balanced k → Balanced (if b then m else k)
either true bm bk = bm
either false bm bk = bk

abbrev pub AllBalanced : List Step → Type 0
AllBalanced [] = Unit {0}
AllBalanced (m ∷ ms) = Balanced m × AllBalanced ms

pub separated-Balanced :
    (sep : Bytes) (ms : List Step) → Plain sep → AllBalanced ms → Balanced (separated sep ms)
unfolding separated
separated-Balanced sep [] h bs = did_nothing
separated-Balanced sep (m ∷ []) h (b, bs) = b
separated-Balanced sep (m ∷ k ∷ ms) h (b, bs) =
    b ▸ wrote sep h ▸ separated-Balanced sep (k ∷ ms) h bs

pub preceded-Balanced :
    (sep : Bytes) (ms : List Step) → Plain sep → AllBalanced ms → Balanced (preceded sep ms)
unfolding preceded
preceded-Balanced sep [] h bs = did_nothing
preceded-Balanced sep (m ∷ ms) h (b, bs) = wrote sep h ▸ b ▸ preceded-Balanced sep ms h bs

pub in_turn-Balanced : (ms : List Step) → AllBalanced ms → Balanced (in_turn ms)
unfolding in_turn
in_turn-Balanced [] bs = did_nothing
in_turn-Balanced (m ∷ ms) (b, bs) = b ▸ in_turn-Balanced ms bs

-- What is documented of the functions of package `strconv` that the builder calls: numbers are printed
-- with no question mark, and quoting adds none.
pub record Prints (env : Env) : Type 0 where
  pub quotes : (w : Bytes) → Plain w → Plain (env.go_quote w)
  pub ints : (n : ℤ) → Plain (env.format_int n)
  pub uints : (n : ℕ) → Plain (env.format_uint n)
  pub floats : (n : ℕ) → Plain (env.format_float n)

abbrev pub PlainTypeSafe : TypeSafe → Type 0
PlainTypeSafe (safe_string w) = Plain w
PlainTypeSafe _ = Unit {0}

abbrev pub AllPlain : List Bytes → Type 0
AllPlain [] = Unit {0}
AllPlain (w ∷ ws) = Plain w × AllPlain ws

abbrev pub PlainCharset : Option Bytes → Type 0
PlainCharset none = Unit {0}
PlainCharset (some w) = Plain w

abbrev pub PlainScalar : Scalar → Type 0
PlainScalar (text w) = Plain w
PlainScalar _ = Unit {0}

-- A primitive whose names, raw texts and quoted texts hold no question mark. A plain string may
-- stand where it is taken for a name, so it is asked of it too.
unfoldable mutual
  pub NoMarks : Any → Type 0
  NoMarks nil = Unit {0}
  NoMarks (scalar c) = PlainScalar c
  NoMarks (raw v) = Plain v
  NoMarks (column t n) = Plain t × Plain n
  NoMarks (json_column c n u) = Plain c × AllPlain n
  NoMarks (cast_as x t) = NoMarks x
  NoMarks (func n xs) = Plain n × NoMarksEach xs
  NoMarks (json_func p t xs) = NoMarks p × NoMarksEach xs
  NoMarks (field n xs) = Plain n × NoMarksEach xs
  NoMarks (value_of x) = Unit {0}
  NoMarks (alias_as x n) = NoMarks x × Plain n
  NoMarks (null_test x b) = NoMarks x
  NoMarks (encoding c x n) = PlainCharset c × NoMarks x × Plain n
  NoMarks (aggregate x b) = NoMarks x
  NoMarks (clause f op v) = NoMarks f × NoMarks v
  NoMarks (like_clause f b v) = NoMarks f × NoMarks v
  NoMarks (type_safe t) = PlainTypeSafe t
  NoMarks (operator op) = Unit {0}
  NoMarks (group xs) = NoMarksEach xs
  NoMarks (range x y) = Unit {0}
  NoMarks (sort x o) = NoMarks x
  NoMarks (key_value f v) = Plain f × NoMarks v
  NoMarks (math f w n) = Plain f
  NoMarks (case_of ws e) = NoMarksPairs ws × NoMarks e
  NoMarks (spatial_func f xs) = NoMarksEach xs
  NoMarks (select_stmt d ts ps cs gs ss k n) =
      NoMarksEach ts × NoMarksEach ps × NoMarksEach cs × NoMarksEach gs × NoMarksEach ss

  pub NoMarksEach : Anys → Type 0
  NoMarksEach empty = Unit {0}
  NoMarksEach (cons x xs) = NoMarks x × NoMarksEach xs

  pub NoMarksPairs : Whens → Type 0
  NoMarksPairs no_when = Unit {0}
  NoMarksPairs (when_then w t ws) = NoMarks w × NoMarks t × NoMarksPairs ws
