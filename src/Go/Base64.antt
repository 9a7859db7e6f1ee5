-- ===== src/Go/Base64.antt =====
-- `base64.URLEncoding`, and the trimming of its padding.
use Prim.Native.Nat.{◌/◌, ◌%◌}
use sqlike.Common.{
  ℕ, zero, suc, ◌+◌, ◌-◌, ◌*◌, ◌<◌, ◌≡◌, refl, ap, ◌∙◌, false, [], ◌∷◌, ◌++◌, Option, none, some,
  Bytes, arith, ◌&&◌, ◌||◌, ltb, leb, ◌==◌, if◌then◌else◌, length, inl, inr, Bool-cases,
}
use sqlike.Go.Escape.{AllBytes}

-- The letter of a digit, and the digit of a letter.
abbrev letter : ℕ → ℕ
letter d =
    if ltb d 26
    then d + b'A'
    else if ltb d 52
    then d + 71
    else if ltb d 62
    then d - 4
    else if d == 62
    then b'-'
    else b'_'

abbrev pub digit : ℕ → Option ℕ
digit c =
    if leb b'A' c && leb c b'Z'
    then some (c - b'A')
    else if leb b'a' c && leb c b'z'
    then some (c - 71)
    else if leb b'0' c && leb c b'9'
    then some (c + 4)
    else if c == b'-'
    then some 62
    else if c == b'_'
    then some 63
    else none

unfoldable pub encode : Bytes → Bytes
encode [] = []
encode (a ∷ []) = letter (a / 4) ∷ letter (a % 4 * 16) ∷ b'=' ∷ b'=' ∷ []
encode (a ∷ b ∷ []) =
    letter (a / 4) ∷ letter (a % 4 * 16 + b / 16) ∷ letter (b % 16 * 4) ∷ b'=' ∷ []
encode (a ∷ b ∷ c ∷ w) =
    letter (a / 4)
    ∷ letter (a % 4 * 16 + b / 16)
    ∷ letter (b % 16 * 4 + c / 64)
    ∷ letter (c % 64)
    ∷ encode w

abbrev onto : Bytes → Option Bytes → Option Bytes
onto v none = none
onto v (some w) = some (v ++ w)

abbrev two_digits : Option ℕ → Option ℕ → Option Bytes
two_digits (some p) (some q) = some ((p * 4 + q / 16) ∷ [])
two_digits _ _ = none

abbrev three_digits : Option ℕ → Option ℕ → Option ℕ → Option Bytes
three_digits (some p) (some q) (some r) = some ((p * 4 + q / 16) ∷ (q % 16 * 16 + r / 4) ∷ [])
three_digits _ _ _ = none

abbrev four_digits : Option ℕ → Option ℕ → Option ℕ → Option ℕ → Option Bytes
four_digits (some p) (some q) (some r) (some s) =
    some ((p * 4 + q / 16) ∷ (q % 16 * 16 + r / 4) ∷ (r % 4 * 64 + s) ∷ [])
four_digits _ _ _ _ = none

abbrev join : Option Bytes → Option Bytes → Option Bytes
join none o = none
join (some v) o = onto v o

-- The groups of four letters; only the last may be padded.
unfoldable pub quads : Bytes → Option Bytes
quads [] = some []
quads (a ∷ []) = none
quads (a ∷ b ∷ []) = none
quads (a ∷ b ∷ c ∷ []) = none
quads (a ∷ b ∷ c ∷ d ∷ []) =
    if d == b'='
    then if c == b'='
      then two_digits (digit a) (digit b)
      else three_digits (digit a) (digit b) (digit c)
    else four_digits (digit a) (digit b) (digit c) (digit d)
quads (a ∷ b ∷ c ∷ d ∷ e ∷ w) =
    let rest = quads (e ∷ w) in join (four_digits (digit a) (digit b) (digit c) (digit d)) rest

-- Line ends are skipped.
pub without_lines : Bytes → Bytes
without_lines [] = []
without_lines (c ∷ w) =
    let rest = without_lines w in if c == b'\n' || c == b'\r' then rest else c ∷ rest

-- `DecodeString`, without the error's text.
unfoldable pub decode : Bytes → Option Bytes
unfolding quads without_lines
decode s = quads (without_lines s)

-- `strings.TrimRight(s, "=")`
unfoldable pub trim_padding : Bytes → Bytes
trim_padding [] = []
trim_padding (c ∷ w) = elim (trim_padding w) [
  | [] ↦ if c == b'=' then [] else c ∷ []
  | d ∷ v ↦ c ∷ d ∷ v
]

-- `encoded += strings.Repeat("=", 4-m)`
abbrev equals : ℕ → Bytes
equals zero = []
equals (suc n) = b'=' ∷ equals n

unfoldable pub add_padding : Bytes → Bytes
add_padding w = let m = length w % 4 in if m == 0 then w else w ++ equals (4 - m)

digit-letter : (d : ℕ) → d < 64 → digit (letter d) ≡ some d
digit-letter d h = ground arith

letter-not_pad : (d : ℕ) → d < 64 → (letter d == b'=') ≡ false
letter-not_pad d h = ground arith

letter-not_line : (d : ℕ) → d < 64 → (letter d == b'\n' || letter d == b'\r') ≡ false
letter-not_line d h = ground arith

-- The letters without the padding.
raw : Bytes → Bytes
raw [] = []
raw (a ∷ []) = letter (a / 4) ∷ letter (a % 4 * 16) ∷ []
raw (a ∷ b ∷ []) = letter (a / 4) ∷ letter (a % 4 * 16 + b / 16) ∷ letter (b % 16 * 4) ∷ []
raw (a ∷ b ∷ c ∷ w) =
    letter (a / 4)
    ∷ letter (a % 4 * 16 + b / 16)
    ∷ letter (b % 16 * 4 + c / 64)
    ∷ letter (c % 64)
    ∷ raw w

trim_kept :
    (c : ℕ) (w v : Bytes) → (c == b'=') ≡ false → trim_padding w ≡ v → trim_padding (c ∷ w) ≡ c ∷ v
unfolding trim_padding
trim_kept c w [] h e = ground arith
trim_kept c w (d ∷ v) h e = ground arith

trim_letter :
    (d : ℕ) (w v : Bytes) → d < 64 → trim_padding w ≡ v → trim_padding (letter d ∷ w) ≡ letter d ∷ v
trim_letter d w v h e = trim_kept (letter d) w v (letter-not_pad d h) e

trim_two : trim_padding (b'=' ∷ b'=' ∷ []) ≡ []
unfolding trim_padding
trim_two = refl

trim_one : trim_padding (b'=' ∷ []) ≡ []
unfolding trim_padding
trim_one = refl

trim_padding-encode : (w : Bytes) → AllBytes w → trim_padding (encode w) ≡ raw w
unfolding encode raw
trim_padding-encode [] h = unfold trim_padding in refl
trim_padding-encode (a ∷ []) (h, _) =
    trim_letter (a / 4) _ _ (omega arith) (trim_letter (a % 4 * 16) _ _ (omega arith) trim_two)
trim_padding-encode (a ∷ b ∷ []) (h, (k, _)) = trim_letter (a / 4) _ _ (omega arith) (
    trim_letter (a % 4 * 16 + b / 16) _ _ (omega arith)
      (trim_letter (b % 16 * 4) _ _ (omega arith) trim_one))
trim_padding-encode (a ∷ b ∷ c ∷ w) (h, (k, (i, r))) = trim_letter (a / 4) _ _ (omega arith) (
    trim_letter (a % 4 * 16 + b / 16) _ _ (omega arith) (
      trim_letter (b % 16 * 4 + c / 64) _ _ (omega arith)
        (trim_letter (c % 64) _ _ (omega arith) (trim_padding-encode w r))))

add_padding-four :
    (a b c d : ℕ) (w : Bytes) → add_padding (a ∷ b ∷ c ∷ d ∷ w) ≡ a ∷ b ∷ c ∷ d ∷ add_padding w
unfolding add_padding
add_padding-four a b c d w =
    let e : length (a ∷ b ∷ c ∷ d ∷ w) % 4 ≡ length w % 4 = omega arith in
    elim (Bool-cases (length w % 4 == 0)) [ inl h ↦ rw (e, h) refl | inr h ↦ rw (e, h) refl ]

add_padding-raw : (w : Bytes) → add_padding (raw w) ≡ encode w
unfolding raw encode
add_padding-raw [] = unfold add_padding in refl
add_padding-raw (a ∷ []) = unfold add_padding in refl
add_padding-raw (a ∷ b ∷ []) = unfold add_padding in refl
add_padding-raw (a ∷ b ∷ c ∷ w) =
    add_padding-four _ _ _ _ (raw w)
    ∙ ap
        (λ v.
          letter (a / 4)
          ∷ letter (a % 4 * 16 + b / 16)
          ∷ letter (b % 16 * 4 + c / 64)
          ∷ letter (c % 64)
          ∷ v)
        (add_padding-raw w)

keep_letter :
    (d : ℕ) (w v : Bytes)
    → d < 64
    → without_lines w ≡ v
    → without_lines (letter d ∷ w) ≡ letter d ∷ v
unfolding without_lines
keep_letter d w v h e = rw (letter-not_line d h) (ap (λ x. letter d ∷ x) e)

keep_two : without_lines (b'=' ∷ b'=' ∷ []) ≡ b'=' ∷ b'=' ∷ []
unfolding without_lines
keep_two = refl

keep_one : without_lines (b'=' ∷ []) ≡ b'=' ∷ []
unfolding without_lines
keep_one = refl

without_lines-encode : (w : Bytes) → AllBytes w → without_lines (encode w) ≡ encode w
unfolding encode
without_lines-encode [] h = unfold without_lines in refl
without_lines-encode (a ∷ []) (h, _) =
    keep_letter (a / 4) _ _ (omega arith) (keep_letter (a % 4 * 16) _ _ (omega arith) keep_two)
without_lines-encode (a ∷ b ∷ []) (h, (k, _)) = keep_letter (a / 4) _ _ (omega arith) (
    keep_letter (a % 4 * 16 + b / 16) _ _ (omega arith)
      (keep_letter (b % 16 * 4) _ _ (omega arith) keep_one))
without_lines-encode (a ∷ b ∷ c ∷ w) (h, (k, (i, r))) = keep_letter (a / 4) _ _ (omega arith) (
    keep_letter (a % 4 * 16 + b / 16) _ _ (omega arith) (
      keep_letter (b % 16 * 4 + c / 64) _ _ (omega arith)
        (keep_letter (c % 64) _ _ (omega arith) (without_lines-encode w r))))

quads_four :
    (p q r s : ℕ) (w : Bytes)
    → p < 64
    → q < 64
    → r < 64
    → s < 64
    → quads (letter p ∷ letter q ∷ letter r ∷ letter s ∷ w)
      ≡ onto ((p * 4 + q / 16) ∷ (q % 16 * 16 + r / 4) ∷ (r % 4 * 64 + s) ∷ []) (quads w)
unfolding quads
quads_four p q r s [] hp hq hr hs =
    rw
      (
        letter-not_pad s hs,
        digit-letter p hp,
        digit-letter q hq,
        digit-letter r hr,
        digit-letter s hs,
      )
      refl
quads_four p q r s (e ∷ w) hp hq hr hs =
    rw (digit-letter p hp, digit-letter q hq, digit-letter r hr, digit-letter s hs) refl

quads-encode : (w : Bytes) → AllBytes w → quads (encode w) ≡ some w
unfolding encode
quads-encode [] h = unfold quads in refl
quads-encode (a ∷ []) (h, _) =
    let e : a / 4 * 4 + a % 4 * 16 / 16 ≡ a = omega arith in
    unfold quads in
    rw (digit-letter (a / 4) (omega arith), digit-letter (a % 4 * 16) (omega arith), e) refl
quads-encode (a ∷ b ∷ []) (h, (k, _)) =
    let e : a / 4 * 4 + (a % 4 * 16 + b / 16) / 16 ≡ a = omega arith in
    let f : (a % 4 * 16 + b / 16) % 16 * 16 + b % 16 * 4 / 4 ≡ b = omega arith in
    let l : b % 16 * 4 < 64 = omega arith in
    unfold quads in
    rw
      (
        letter-not_pad (b % 16 * 4) l,
        digit-letter (a / 4) (omega arith),
        digit-letter (a % 4 * 16 + b / 16) (omega arith),
        digit-letter (b % 16 * 4) l,
        e,
        f,
      )
      refl
quads-encode (a ∷ b ∷ c ∷ w) (h, (k, (i, r))) =
    let e : a / 4 * 4 + (a % 4 * 16 + b / 16) / 16 ≡ a = omega arith in
    let f : (a % 4 * 16 + b / 16) % 16 * 16 + (b % 16 * 4 + c / 64) / 4 ≡ b = omega arith in
    let g : (b % 16 * 4 + c / 64) % 4 * 64 + c % 64 ≡ c = omega arith in
    quads_four (a / 4) (a % 4 * 16 + b / 16) (b % 16 * 4 + c / 64) (c % 64) (encode w) (omega arith)
      (omega arith) (omega arith) (omega arith)
    ∙ rw (e, f, g, quads-encode w r) refl

-- `DecodeString` of the trimmed text, with its padding again, gives back the bytes.
pub decode-padded :
    (w : Bytes) → AllBytes w → decode (add_padding (trim_padding (encode w))) ≡ some w
unfolding decode
decode-padded w h =
    ap (λ v. decode (add_padding v)) (trim_padding-encode w h)
    ∙ ap decode (add_padding-raw w)
    ∙ ap quads (without_lines-encode w h)
    ∙ quads-encode w h

join-none : (o p : Option Bytes) → o ≡ none → join o p ≡ none
join-none o p e = ap (λ q. join q p) e

four_none : (o p q r : Option ℕ) → o ≡ none → four_digits o p q r ≡ none
four_none o p q r e = ap (λ x. four_digits x p q r) e

-- A text that begins with a byte that is no letter cannot be decoded.
quads-no_letter : (c : ℕ) (w : Bytes) → digit c ≡ none → quads (c ∷ w) ≡ none
unfolding quads
quads-no_letter c [] h = refl
quads-no_letter c (x ∷ []) h = refl
quads-no_letter c (x ∷ y ∷ []) h = refl
quads-no_letter c (x ∷ y ∷ z ∷ []) h = ground (arith, h)
quads-no_letter c (x ∷ y ∷ z ∷ e ∷ w) h =
    join-none (four_digits (digit c) (digit x) (digit y) (digit z)) (quads (e ∷ w))
      (four_none (digit c) (digit x) (digit y) (digit z) h)

pub decode-no_letter :
    (c : ℕ) (w : Bytes)
    → digit c ≡ none
    → (c == b'\n' || c == b'\r') ≡ false
    → decode (add_padding (c ∷ w)) ≡ none
unfolding decode without_lines add_padding
decode-no_letter c w h k = elim (Bool-cases (length (c ∷ w) % 4 == 0)) [
  | inl e ↦ rw (e, k) (quads-no_letter c (without_lines w) h)
  | inr e ↦ rw (e, k) (quads-no_letter c (without_lines (w ++ equals (4 - length (c ∷ w) % 4))) h)
]
