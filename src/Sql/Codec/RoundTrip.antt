-- ===== src/Sql/Codec/RoundTrip.antt =====
-- The decoders of sql/codec on what its encoders hand to the driver.
use sqlike.Common.{
  ℕ, ◌<◌, ◌≡◌, refl, ap, ◌∙◌, Bool, true, false, [], ◌∷◌, none, codes, same, ltb, arith,
  if◌then◌else◌,
}
use sqlike.Go.Decimal.{format_nat, format_int, parse_int-format_int, parse_uint-format_nat}
use sqlike.Sql.Primitive.{ℤ}
use sqlike.Jsonb.Outcome.{ok}
use sqlike.Jsonb.Codec.Types.{
  Width, size, in_range, GoType, bytes_type, ptr_type, map_type, Val, nil_val, bytes_val, int_val,
  uint_val,
}
use sqlike.Jsonb.Codec.Decode.{unmarshal}
use sqlike.Jsonb.Codec.Encode.{Library, encode, marshal}
use sqlike.Jsonb.Codec.Fits.{
  Documented, Fits, fits_bool, fits_int, fits_uint, fits_string, fits_nil_bytes, fits_bytes,
  fits_nil_ptr, fits_ptr, fits_nil_map,
}
use sqlike.Jsonb.Codec.Leaves.{in_range-Int64, in_size}
use sqlike.Jsonb.Codec.RoundTrip.{unmarshal-marshal}
use sqlike.Sql.Codec.{
  Value, null, bytes, text, integer, unsigned, float, boolean, Floats, encode_value, decode_value,
  decode_string, decode_bool, decode_int, decode_uint, decode_byte, decoded_bytes, decode_jsonb,
  checked_int, checked_uint, parse_bool,
}

-- What comes back from a database that sends texts for what it was handed: numbers in decimal, and a bit.
abbrev pub as_text : Value → Value
as_text null = null
as_text (bytes w) = bytes w
as_text (text w) = bytes w
as_text (integer i) = bytes (format_int i)
as_text (unsigned n) = bytes (format_nat n)
as_text (float x) = float x
as_text (boolean b) = bytes (if b then codes "1" else codes "0")

-- Nil bytes come back empty.
abbrev pub returned : GoType → Val → Val
returned bytes_type nil_val = bytes_val []
returned t v = v

abbrev pub is_ptr : GoType → Bool
is_ptr (ptr_type t) = true
is_ptr _ = false

marshal-nil : (lib : Library) → codes "null" ≡ marshal lib nil_val
unfolding marshal encode
marshal-nil lib = refl

module _ (lib : Library) (fl : Floats) where
  Reads-int :
      (w : Width) (i : ℤ)
      → in_range w i ≡ true
      → (decode_int lib fl w (integer i) ≡ ok (int_val i))
        × (decode_int lib fl w (bytes (format_int i)) ≡ ok (int_val i))
  unfolding decode_int checked_int
  Reads-int w i h = (rw h refl, rw (parse_int-format_int i (in_range-Int64 w i h), h) refl)

  Reads-uint :
      (w : Width) (n : ℕ)
      → n < size w
      → (decode_uint lib fl w (unsigned n) ≡ ok (uint_val n))
        × (decode_uint lib fl w (bytes (format_nat n)) ≡ ok (uint_val n))
  unfolding decode_uint checked_uint
  Reads-uint w n h =
      let e : ltb n (size w) ≡ true = ground arith in
      let b = in_size w n h in (rw e refl, rw (parse_uint-format_nat n (omega arith), e) refl)

  -- A value of a type that is not a pointer, which fits the type as it must for jsonb: what the encoder hands to
  -- the driver is decoded to the same value, and so is what a database that answers in texts returns; nil bytes
  -- come back empty.
  pub decode_value-encode_value :
      (t : GoType) (v : Val)
      → Documented lib
      → Fits lib t v
      → is_ptr t ≡ false
      → (decode_value lib fl t (encode_value lib t none v) ≡ ok (returned t v))
        × (decode_value lib fl t (as_text (encode_value lib t none v)) ≡ ok (returned t v))
  unfolding encode_value decode_value decode_bool decode_byte decode_jsonb decode_string parse_bool
      same
  decode_value-encode_value t v doc (fits_bool true) p = (refl, refl)
  decode_value-encode_value t v doc (fits_bool false) p = (refl, refl)
  decode_value-encode_value t v doc (fits_int w i h) p = Reads-int w i h
  decode_value-encode_value t v doc (fits_uint w n h) p = Reads-uint w n h
  decode_value-encode_value t v doc (fits_string []) p = (refl, refl)
  decode_value-encode_value t v doc (fits_string (c ∷ s)) p = (refl, refl)
  decode_value-encode_value t v doc fits_nil_bytes p =
      let e = ap decoded_bytes doc.decodes_nothing in (e, e)
  decode_value-encode_value t v doc (fits_bytes b a n) p =
      let e = ap decoded_bytes (doc.decodes b a) in (e, e)
  decode_value-encode_value t v doc (fits_nil_ptr u) p = cc
  decode_value-encode_value t v doc (fits_ptr u x n h) p = cc
  decode_value-encode_value t v doc (fits_nil_map u) p =
      let e =
        ap (unmarshal lib (map_type u)) (marshal-nil lib)
        ∙ unmarshal-marshal lib (map_type u) nil_val doc (fits_nil_map u) in
      (e, e)
  decode_value-encode_value t v doc h p = let e = unmarshal-marshal lib t v doc h in (e, e)
