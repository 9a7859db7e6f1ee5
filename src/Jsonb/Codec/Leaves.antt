-- ===== src/Jsonb/Codec/Leaves.antt =====
-- jsonb/decoder.go on the values without parts: what is read back.
use sqlike.Common.{
  ℕ, ◌<◌, ◌≡◌, refl, sym, ap, ◌∙◌, Bool, true, false, [], Bytes, codes, arith, ltb, same,
  append-nil,
}
use sqlike.Sql.Primitive.{ℤ, pos, negsuc}
use sqlike.Go.Decimal.{format_nat, format_int, parse_int-format_int, parse_uint-format_nat, Int64}
use sqlike.Jsonb.Types.{is_white_space}
use sqlike.Jsonb.Outcome.{Outcome, ok}
use sqlike.Jsonb.Reader.{Reader, M, new_reader, next_token, skip_bytes, read_boolean}
use sqlike.Jsonb.Reader.View.{at, next_token-at, then_ok}
use sqlike.Jsonb.Number.{read_number}
use sqlike.Jsonb.Str.{encode_string, read_string}
use sqlike.Jsonb.Str.RoundTrip.{read_string-encode_string}
use sqlike.Jsonb.Skip.{skip_null}
use sqlike.Jsonb.Value.Numbers.{read_number_whole}
use sqlike.Jsonb.Codec.Types.{
  Width, w8, w16, w32, w64, GoType, bool_type, int_type, uint_type, string_type, Val, bool_val,
  int_val, uint_val, string_val, size, in_range, fresh,
}
use sqlike.Jsonb.Codec.Encode.{Library, encode}
use sqlike.Jsonb.Codec.Decode.{or_null, to_int, to_uint, decode, unmarshal}
use sqlike.Jsonb.Codec.Text.{format_nat-NumberText, format_int-NumberText}
use sqlike.Jsonb.Codec.Tokens.{NotNull}

-- A decoder returns the value, behind its text.
abbrev pub Returns : M Val → Bytes → Val → Type 0
Returns m w v = m (new_reader w) ≡ (at w [], ok v)

-- `null`, where it is asked for.
pub Returns-null : (m : M Val) (v : Val) → Returns (or_null v m) (codes "null") v
unfolding same skip_null next_token is_white_space skip_bytes
Returns-null m v = refl

pub Returns-NotNull :
    (m : M Val) (u v : Val) (w : Bytes) → NotNull w → Returns m w v → Returns (or_null u m) w v
Returns-NotNull m u v w n h = rw (n, or_null) h

-- `Unmarshal` looks for nothing behind the text.
pub unmarshal-Returns :
    (lib : Library) (t : GoType) (w : Bytes) (v : Val)
    → Returns (decode lib t (fresh t)) w v
    → unmarshal lib t w ≡ ok v
unfolding unmarshal
unmarshal-Returns lib t w v r =
    ap (λ (o : Reader × Outcome Val). o.1)
      (then_ok (decode lib t (fresh t)) _ r ∙ then_ok next_token _ (next_token-at w []))

pub in_range-Int64 : (w : Width) (i : ℤ) → in_range w i ≡ true → Int64 i
unfolding in_range
in_range-Int64 w8 (pos n) h = ground arith
in_range-Int64 w16 (pos n) h = ground arith
in_range-Int64 w32 (pos n) h = ground arith
in_range-Int64 w64 (pos n) h = ground arith
in_range-Int64 w8 (negsuc n) h = ground arith
in_range-Int64 w16 (negsuc n) h = ground arith
in_range-Int64 w32 (negsuc n) h = ground arith
in_range-Int64 w64 (negsuc n) h = ground arith

pub in_size : (w : Width) (n : ℕ) → n < size w → n < 18446744073709551616
in_size w8 n h = omega arith
in_size w16 n h = omega arith
in_size w32 n h = omega arith
in_size w64 n h = h

module _ (lib : Library) where
  pub Returns-bool :
      (b : Bool) (u : Val) → Returns (decode lib bool_type u) (encode lib (bool_val b)) (bool_val b)
  unfolding decode encode read_boolean next_token is_white_space skip_bytes same
  Returns-bool true u = refl
  Returns-bool false u = refl

  pub Returns-int :
      (w : Width) (i : ℤ) (u : Val)
      → in_range w i ≡ true
      → Returns (decode lib (int_type w) u) (encode lib (int_val i)) (int_val i)
  unfolding decode encode
  Returns-int w i u h =
      then_ok read_number _ (read_number_whole (format_int i) [] (format_int-NumberText i))
      ∙ ap (λ p. to_int w p (at (format_int i) [])) (parse_int-format_int i (in_range-Int64 w i h))
      ∙ rw h refl

  pub Returns-uint :
      (w : Width) (n : ℕ) (u : Val)
      → n < size w
      → Returns (decode lib (uint_type w) u) (encode lib (uint_val n)) (uint_val n)
  unfolding decode encode
  Returns-uint w n u h =
      let e : ltb n (size w) ≡ true = ground arith in
      let b = in_size w n h in
      then_ok read_number _ (read_number_whole (format_nat n) [] (format_nat-NumberText n))
      ∙ ap (λ p. to_uint w p (at (format_nat n) [])) (parse_uint-format_nat n (omega arith))
      ∙ rw e refl

  pub Returns-string :
      (s : Bytes) (u : Val)
      → Returns (decode lib string_type u) (encode lib (string_val s)) (string_val s)
  unfolding decode encode
  Returns-string s u = then_ok read_string _ (
      ap (λ x. read_string (new_reader x)) (sym (append-nil (encode_string s)))
      ∙ read_string-encode_string s [] [])
