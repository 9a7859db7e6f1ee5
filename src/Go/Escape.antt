-- ===== src/Go/Escape.antt =====
-- `url.PathEscape` and `url.PathUnescape`.
use Prim.Native.Nat.{◌/◌, ◌%◌}
use sqlike.Common.{
  ℕ, ◌+◌, ◌-◌, ◌*◌, ◌<◌, ◌≡◌, refl, ap, ◌∙◌, Bool, true, false, [], ◌∷◌, Option, none, some, Bytes,
  arith, ◌&&◌, ◌||◌, not, ltb, leb, ◌==◌, if◌then◌else◌, inl, inr, Bool-cases,
}
use sqlike.Go.Split.{Lacks}

unfoldable pub should_escape : ℕ → Bool
should_escape c = not (
    (leb b'a' c && leb c b'z')
    || (leb b'A' c && leb c b'Z')
    || (leb b'0' c && leb c b'9')
    || c == b'-'
    || c == b'_'
    || c == b'.'
    || c == b'~'
    || c == b'$'
    || c == b'&'
    || c == b'+'
    || c == b':'
    || c == b'='
    || c == b'@')

-- `upperhex[d]`
abbrev upper_hex : ℕ → ℕ
upper_hex d = if ltb d 10 then d + b'0' else d + 55

abbrev is_hex : ℕ → Bool
is_hex c = (leb b'0' c && leb c b'9') || (leb b'a' c && leb c b'f') || (leb b'A' c && leb c b'F')

abbrev un_hex : ℕ → ℕ
un_hex c =
    if leb b'0' c && leb c b'9'
    then c - b'0'
    else if leb b'a' c && leb c b'f'
    then c - 87
    else if leb b'A' c && leb c b'F'
    then c - 55
    else 0

unfoldable pub path_escape : Bytes → Bytes
unfolding should_escape
path_escape [] = []
path_escape (c ∷ cs) =
    let rest = path_escape cs in
    if should_escape c then b'%' ∷ upper_hex (c / 16) ∷ upper_hex (c % 16) ∷ rest else c ∷ rest

abbrev push : ℕ → Option Bytes → Option Bytes
push c none = none
push c (some w) = some (c ∷ w)

-- Without the error, which the caller drops: none for an error.
unfoldable pub path_unescape : Bytes → Option Bytes
path_unescape [] = some []
path_unescape (c ∷ []) = if c == b'%' then none else some (c ∷ [])
path_unescape (c ∷ d ∷ []) =
    let rest = path_unescape (d ∷ []) in if c == b'%' then none else push c rest
path_unescape (c ∷ d ∷ e ∷ cs) =
    let rest = path_unescape (d ∷ e ∷ cs) in
    let behind = path_unescape cs in
    if c == b'%'
    then if is_hex d && is_hex e then push (un_hex d * 16 + un_hex e) behind else none
    else push c rest

-- A text of bytes.
abbrev pub AllBytes : Bytes → Type 0
AllBytes [] = Unit {0}
AllBytes (c ∷ w) = (c < 256) × AllBytes w

unescape_plain :
    (c : ℕ) (w : Bytes) → (c == b'%') ≡ false → path_unescape (c ∷ w) ≡ push c (path_unescape w)
unfolding path_unescape
unescape_plain c [] h = rw h refl
unescape_plain c (d ∷ []) h = rw h refl
unescape_plain c (d ∷ e ∷ w) h = rw h refl

hex-is_hex : (d : ℕ) → d < 16 → is_hex (upper_hex d) ≡ true
hex-is_hex d h = ground arith

un_hex-upper_hex : (d : ℕ) → d < 16 → un_hex (upper_hex d) ≡ d
un_hex-upper_hex d h = ground arith

unescape_hex :
    (c : ℕ) (w : Bytes)
    → c < 256
    → path_unescape (b'%' ∷ upper_hex (c / 16) ∷ upper_hex (c % 16) ∷ w) ≡ push c (path_unescape w)
unfolding path_unescape
unescape_hex c w h =
    let a : c / 16 < 16 = omega arith in
    let b : c % 16 < 16 = omega arith in
    let e : c / 16 * 16 + c % 16 ≡ c = omega arith in
    rw
      (
        hex-is_hex (c / 16) a,
        hex-is_hex (c % 16) b,
        un_hex-upper_hex (c / 16) a,
        un_hex-upper_hex (c % 16) b,
        e,
      )
      refl

plain_percent : (c : ℕ) → should_escape c ≡ false → (c == b'%') ≡ false
unfolding should_escape
plain_percent c h = ground arith

-- `PathUnescape` gives back what `PathEscape` took.
pub path_unescape-path_escape : (s : Bytes) → AllBytes s → path_unescape (path_escape s) ≡ some s
unfolding path_escape
path_unescape-path_escape [] h = unfold path_unescape in refl
path_unescape-path_escape (c ∷ s) (h, k) = elim (Bool-cases (should_escape c)) [
  | inl e ↦ rw e (unescape_hex c (path_escape s) h ∙ ap (push c) (path_unescape-path_escape s k))
  | inr e ↦ rw e (
      unescape_plain c (path_escape s) (plain_percent c e)
      ∙ ap (push c) (path_unescape-path_escape s k))
]

-- The escaped text holds no comma and no slash.
escape-Lacks :
    (x : ℕ) (s : Bytes)
    → ((c : ℕ) → should_escape c ≡ false → (c == x) ≡ false)
    → ((d : ℕ) → d < 16 → (upper_hex d == x) ≡ false)
    → (b'%' == x) ≡ false
    → AllBytes s
    → Lacks x (path_escape s)
unfolding path_escape
escape-Lacks x [] h k p q = tt
escape-Lacks x (c ∷ s) h k p (q, r) = elim (Bool-cases (should_escape c)) [
  | inl e ↦
      rw e (p, (k (c / 16) (omega arith), (k (c % 16) (omega arith), escape-Lacks x s h k p r)))
  | inr e ↦ rw e (h c e, escape-Lacks x s h k p r)
]

slash_plain : (c : ℕ) → should_escape c ≡ false → (c == b'/') ≡ false
unfolding should_escape
slash_plain c h = ground arith

comma_plain : (c : ℕ) → should_escape c ≡ false → (c == b',') ≡ false
unfolding should_escape
comma_plain c h = ground arith

slash_hex : (d : ℕ) → d < 16 → (upper_hex d == b'/') ≡ false
slash_hex d h = ground arith

comma_hex : (d : ℕ) → d < 16 → (upper_hex d == b',') ≡ false
comma_hex d h = ground arith

pub path_escape-no_slash : (s : Bytes) → AllBytes s → Lacks b'/' (path_escape s)
path_escape-no_slash s h = escape-Lacks b'/' s slash_plain slash_hex refl h

pub path_escape-no_comma : (s : Bytes) → AllBytes s → Lacks b',' (path_escape s)
path_escape-no_comma s h = escape-Lacks b',' s comma_plain comma_hex refl h
