-- ===== src/Sql/Codec/Tests.antt =====
-- Runs of the encoders and decoders.
use sqlike.Common.{◌≡◌, refl, false, [], none, some, codes}
use sqlike.Go.Decimal.{parse_int}
use sqlike.Go.Split.{split}
use sqlike.Sql.Primitive.{pos, negsuc}
use sqlike.Jsonb.Outcome.{ok, err, plain}
use sqlike.Jsonb.Codec.Types.{
  w8, int_type, uint_type, w64, string_type, ptr_type, uint_val, ptr_val, string_val, in_range,
}
use sqlike.Jsonb.Codec.Tests.{lib, person, ann, lib-Documented, ann-Fits}
use sqlike.Sql.Codec.{
  Floats, text, bytes, integer, encode_value, decode_value, decode_int, decode_uint, decode_string,
  decode_ptr, checked_int, checked_uint, as_unsigned,
}
use sqlike.Sql.Codec.RoundTrip.{as_text, decode_value-encode_value}

abbrev no_floats : Floats
no_floats = record {
  format = λ x. [];
  int_of = λ x. pos 0;
  uint_of = λ x. 0;
  is_above_zero = λ x. false;
  of_int = λ i. 0;
  of_uint = λ n. 0;
}

-- A text that does not fit the width.
overflow_run :
    decode_value lib no_floats (int_type w8) (bytes (codes "128")) ≡ err (plain "integer overflow")
unfolding decode_value decode_int checked_int parse_int in_range
overflow_run = refl

-- A number below zero in an unsigned field goes round.
negative_run :
    decode_value lib no_floats (uint_type w64) (integer (negsuc 0))
    ≡ ok (uint_val 18446744073709551615)
unfolding decode_value decode_uint checked_uint as_unsigned
negative_run = refl

-- An enum that is not set is its first option.
enum_run : encode_value lib string_type (some (codes "x|y")) (string_val []) ≡ text (codes "x")
unfolding encode_value split
enum_run = refl

pointer_run :
    decode_value lib no_floats (ptr_type string_type) (text (codes "a"))
    ≡ ok (ptr_val (string_val (codes "a")))
unfolding decode_value decode_ptr decode_string
pointer_run = refl

decode_value-encode_value_example :
    (decode_value lib no_floats person (encode_value lib person none ann) ≡ ok ann)
    × (decode_value lib no_floats person (as_text (encode_value lib person none ann)) ≡ ok ann)
decode_value-encode_value_example =
    decode_value-encode_value lib no_floats person ann lib-Documented ann-Fits refl
