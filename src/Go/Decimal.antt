-- ===== src/Go/Decimal.antt =====
-- `strconv.FormatInt` and `strconv.ParseInt` to the base 10, for 64 bits.
use Prim.Native.Nat.{◌/◌, ◌%◌}
use sqlike.Common.{
  ℕ, zero, suc, ◌+◌, ◌-◌, ◌*◌, ◌≤◌, ◌<◌, ◌≡◌, refl, sym, ap, subst, ◌∙◌, Bool, true, false, [], ◌∷◌,
  ◌++◌, Bytes, arith, ◌&&◌, ltb, leb, ◌==◌, if◌then◌else◌, append_assoc, append-nil, inl, inr,
  Bool-cases,
}
use sqlike.Sql.Primitive.{ℤ, pos, negsuc}

abbrev pub is_digit : ℕ → Bool
is_digit c = leb b'0' c && leb c b'9'

-- The digits of a number; each round takes the last one.
pub format_loop : ℕ → ℕ → Bytes
format_loop zero n = []
format_loop (suc f) n = elim (ltb n 10) [
  | true ↦ (n + b'0') ∷ []
  | false ↦ format_loop f (n / 10) ++ (n % 10 + b'0') ∷ []
]

unfoldable pub format_nat : ℕ → Bytes
unfolding format_loop
format_nat n = format_loop (suc n) n

unfoldable pub format_int : ℤ → Bytes
unfolding format_nat
format_int (pos n) = format_nat n
format_int (negsuc n) = b'-' ∷ format_nat (suc n)

pub data Digits : Type 0 where
  value : ℕ → Digits
  syntax : Digits
  range : Digits

-- The largest unsigned number of 64 bits, and the bound of the signed ones.
abbrev max_uint : ℕ
max_uint = 18446744073709551615

abbrev pub cutoff : ℕ
cutoff = 9223372036854775808

unfoldable pub parse_digits : ℕ → Bytes → Digits
parse_digits n [] = value n
parse_digits n (c ∷ cs) =
    let m = n * 10 + (c - b'0') in
    let rest = parse_digits m cs in
    if is_digit c then if ltb max_uint m then range else rest else syntax

abbrev pub parse_uint : Bytes → Digits
unfolding parse_digits
parse_uint [] = syntax
parse_uint (c ∷ cs) = parse_digits 0 (c ∷ cs)

abbrev negate : ℕ → ℤ
negate zero = pos 0
negate (suc n) = negsuc n

-- With a sign, the number and whether there is no error.
abbrev signed : Bool → Digits → ℤ × Bool
signed _ syntax = (pos 0, false)
signed true range = (negsuc (cutoff - 1), false)
signed false range = (pos (cutoff - 1), false)
signed true (value n) = if ltb cutoff n then (negsuc (cutoff - 1), false) else (negate n, true)
signed false (value n) = if leb cutoff n then (pos (cutoff - 1), false) else (pos n, true)

unfoldable pub parse_int : Bytes → ℤ × Bool
unfolding parse_digits
parse_int [] = (pos 0, false)
parse_int (c ∷ cs) =
    if c == b'-'
    then signed true (parse_uint cs)
    else if c == b'+'
    then signed false (parse_uint cs)
    else signed false (parse_digits 0 (c ∷ cs))

-- A number of 64 bits.
abbrev pub Int64 : ℤ → Type 0
Int64 (pos n) = n < cutoff
Int64 (negsuc n) = n < cutoff

parse_digits_one :
    (n d : ℕ) (t : Bytes)
    → d < 10
    → n * 10 + d ≤ max_uint
    → parse_digits n ((d + b'0') ∷ t) ≡ parse_digits (n * 10 + d) t
unfolding parse_digits
parse_digits_one n d t h k = let e : (d + b'0') - b'0' ≡ d = omega arith in rw e (ground arith)

format_small : (f n : ℕ) → ltb n 10 ≡ true → format_loop (suc f) n ≡ (n + b'0') ∷ []
unfolding format_loop
format_small f n e = ground arith

format_large :
    (f n : ℕ)
    → ltb n 10 ≡ false
    → format_loop (suc f) n ≡ format_loop f (n / 10) ++ (n % 10 + b'0') ∷ []
unfolding format_loop
format_large f n e = ground arith

parse_digits-format_loop :
    (f n : ℕ) (t : Bytes)
    → n < f
    → n ≤ max_uint
    → parse_digits 0 (format_loop f n ++ t) ≡ parse_digits n t
parse_digits-format_loop zero n t h k = absurd (omega arith)
parse_digits-format_loop (suc f) n t h k = elim (Bool-cases (ltb n 10)) [
  | inl e ↦ rw (format_small f n e) (
      parse_digits_one 0 n t (ground arith) (omega arith)
      ∙ ap (λ m. parse_digits m t) (omega arith))
  | inr e ↦
      let g : 10 ≤ n = ground arith in
      let s : n / 10 * 10 + n % 10 ≡ n = omega arith in
      rw (format_large f n e, append_assoc)
        (parse_digits-format_loop f (n / 10) ((n % 10 + b'0') ∷ t) (omega arith) (omega arith)
          ∙ parse_digits_one (n / 10) (n % 10) t (omega arith) (omega arith)
          ∙ ap (λ m. parse_digits m t) s)
]

-- A text of digits, with one at least.
abbrev pub AllDigits : Bytes → Type 0
AllDigits [] = Unit {0}
AllDigits (c ∷ w) = (is_digit c ≡ true) × AllDigits w

append-AllDigits : (v w : Bytes) → AllDigits v → AllDigits w → AllDigits (v ++ w)
append-AllDigits [] w h k = k
append-AllDigits (x ∷ v) w (h, i) k = (h, append-AllDigits v w i k)

format_loop-AllDigits : (f n : ℕ) → AllDigits (format_loop f n)
unfolding format_loop
format_loop-AllDigits zero n = tt
format_loop-AllDigits (suc f) n = elim (Bool-cases (ltb n 10)) [
  | inl e ↦ subst AllDigits (sym (format_small f n e)) (ground arith, tt)
  | inr e ↦ subst AllDigits (sym (format_large f n e)) (
      append-AllDigits (format_loop f (n / 10)) ((n % 10 + b'0') ∷ [])
        (format_loop-AllDigits f (n / 10)) (ground arith, tt))
]

pub format_nat-AllDigits : (n : ℕ) → AllDigits (format_nat n)
unfolding format_nat
format_nat-AllDigits n = format_loop-AllDigits (suc n) n

-- A text that is not empty.
abbrev Some : Bytes → Type 0
Some w = (c : ℕ) × (v : Bytes) × (w ≡ c ∷ v)

append-Some : (v : Bytes) (x : ℕ) → Some (v ++ x ∷ [])
append-Some [] x = (x, [], refl)
append-Some (y ∷ v) x = (y, v ++ x ∷ [], refl)

format_nat-Some : (n : ℕ) → Some (format_nat n)
unfolding format_nat
format_nat-Some n = elim (Bool-cases (ltb n 10)) [
  | inl e ↦ (n + b'0', [], format_small n n e)
  | inr e ↦
      subst Some (sym (format_large n n e)) (append-Some (format_loop n (n / 10)) (n % 10 + b'0'))
]

-- The digits of a number begin with one.
pub first_digit : (n : ℕ) → (c : ℕ) × (w : Bytes) × (format_nat n ≡ c ∷ w) × (is_digit c ≡ true)
first_digit n =
    let s = format_nat-Some n in (s.0, s.1, s.2, (subst AllDigits s.2 (format_nat-AllDigits n)).0)

parse_digits-format_nat : (n : ℕ) → n ≤ max_uint → parse_digits 0 (format_nat n) ≡ value n
unfolding format_nat parse_digits
parse_digits-format_nat n h =
    ap (parse_digits 0) (sym (append-nil (format_nat n)))
    ∙ parse_digits-format_loop (suc n) n [] (omega arith) h

-- `ParseInt` of a text that is not signed, and of one behind a minus.
parse_int_unsigned :
    (c : ℕ) (w : Bytes)
    → is_digit c ≡ true
    → parse_int (c ∷ w) ≡ signed false (parse_digits 0 (c ∷ w))
unfolding parse_int
parse_int_unsigned c w h = ground arith

parse_int_minus :
    (c : ℕ) (w : Bytes) → parse_int (b'-' ∷ c ∷ w) ≡ signed true (parse_digits 0 (c ∷ w))
unfolding parse_int
parse_int_minus c w = refl

-- `ParseInt` gives back the number that `FormatInt` wrote.
pub parse_int-format_int : (i : ℤ) → Int64 i → parse_int (format_int i) ≡ (i, true)
unfolding format_int
parse_int-format_int (pos n) h =
    let (c, w, e, d) = first_digit n in
    ap parse_int e
    ∙ parse_int_unsigned c w d
    ∙ ap (λ t. signed false (parse_digits 0 t)) (sym e)
    ∙ ap (signed false) (parse_digits-format_nat n (omega arith))
    ∙ ground arith
parse_int-format_int (negsuc n) h =
    let (c, w, e, d) = first_digit (suc n) in
    ap (λ t. parse_int (b'-' ∷ t)) e
    ∙ parse_int_minus c w
    ∙ ap (λ t. signed true (parse_digits 0 t)) (sym e)
    ∙ ap (signed true) (parse_digits-format_nat (suc n) (omega arith))
    ∙ ground arith

-- `ParseUint` gives back the number that `FormatUint` wrote.
pub parse_uint-format_nat : (n : ℕ) → n ≤ max_uint → parse_uint (format_nat n) ≡ value n
unfolding parse_digits
parse_uint-format_nat n h =
    let (c, w, e, d) = first_digit n in
    ap parse_uint e ∙ ap (parse_digits 0) (sym e) ∙ parse_digits-format_nat n h
