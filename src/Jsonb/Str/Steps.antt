-- ===== src/Jsonb/Str/Steps.antt =====
-- One round of the loops of jsonb/string.go on a byte of each kind.
use sqlike.Common.{
  ℕ, suc, ◌+◌, ◌≡◌, ◌⊎◌, true, false, [], ◌∷◌, ◌++◌, some, none, Bytes, arith, ltb, ◌==◌,
  if◌then◌else◌, get_elem?,
}
use sqlike.Jsonb.Outcome.{ok}
use sqlike.Jsonb.Reader.{Reader}
use sqlike.Jsonb.Str.{backslash, unescape, read_string_loop, escape_char}

module _ (f i c d : ℕ) (out : Bytes) (r : Reader) (within : ltb i r.len ≡ true)
    (here : get_elem? r.b i ≡ some d) where
  pub read_plain :
      (d == b'"') ≡ false
      → (d == backslash) ≡ false
      → read_string_loop (suc f) i c out r ≡ read_string_loop f (i + 1) d (out ++ d ∷ []) r
  unfolding read_string_loop
  read_plain q b = ground arith

  pub read_quote :
      (d == b'"') ≡ true
      → read_string_loop (suc f) i c out r ≡ (record r { pos = i + 1 }, ok (d, out))
  unfolding read_string_loop
  read_quote q = ground arith

  pub read_escape :
      (e x : ℕ)
      → d ≡ backslash
      → get_elem? r.b (i + 1) ≡ some e
      → unescape e ≡ some x
      → read_string_loop (suc f) i c out r ≡ read_string_loop f (i + 2) d (out ++ x ∷ []) r
  unfolding read_string_loop
  read_escape e x b g u = ground arith

  pub read_unknown :
      (e : ℕ)
      → d ≡ backslash
      → get_elem? r.b (i + 1) ≡ some e
      → unescape e ≡ none
      → read_string_loop (suc f) i c out r ≡ read_string_loop f i d (out ++ d ∷ []) r
  unfolding read_string_loop
  read_unknown e b g u = ground arith

-- The letter that stands for a byte behind a backslash.
abbrev pub letter : ℕ → ℕ
letter c =
    if c == b'\t'
    then b't'
    else if c == b'\n'
    then b'n'
    else if c == b'\r'
    then b'r'
    else if c == 8
    then b'b'
    else c

-- A byte is written with a backslash and a letter that stands for it, or as it is.
pub escape_char-cases :
    (c : ℕ)
    → ((escape_char c ≡ backslash ∷ letter c ∷ []) × (unescape (letter c) ≡ some c))
      ⊎ ((escape_char c ≡ c ∷ []) × ((c == b'"') ≡ false) × ((c == backslash) ≡ false))
unfolding escape_char unescape
escape_char-cases c = ground arith
