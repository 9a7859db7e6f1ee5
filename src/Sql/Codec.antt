-- ===== src/Sql/Codec.antt =====
-- sql/codec: encoder.go and decoder.go, on the types that the registry knows by their kind, and `[]byte`: what is
-- handed to the driver, and how what the driver returns is read.
pub mod RoundTrip
mod Tests
use sqlike.Common.{
  ℕ, suc, ◌+◌, ◌-◌, Bool, true, false, List, [], ◌∷◌, Option, none, some, Bytes, codes, same, ltb,
  ◌==◌, ◌||◌, if◌then◌else◌,
}
use sqlike.Go.Decimal.{format_nat, format_int, parse_uint, parse_int, Digits, value, syntax, range}
use sqlike.Go.Split.{split}
use sqlike.Sql.Primitive.{ℤ, pos, negsuc}
use sqlike.Jsonb.Outcome.{Outcome, ok, err, panic, spin, plain}
use sqlike.Jsonb.Codec.Types.{
  Width, size, in_range, GoType, bool_type, int_type, uint_type, float_type, string_type,
  bytes_type, ptr_type, slice_type, array_type, map_type, struct_type, Val, nil_val, bool_val,
  int_val, uint_val, float_val, string_val, bytes_val, ptr_val, list_val, map_val, struct_val,
  zero_of,
}
use sqlike.Jsonb.Codec.Encode.{Library, marshal}
use sqlike.Jsonb.Codec.Decode.{unmarshal}

-- A `driver.Value`, and an unsigned number, which MySQL's driver takes and returns too. Times are left out.
pub data Value : Type 0 where
  null : Value
  bytes : Bytes → Value
  text : Bytes → Value
  integer : ℤ → Value
  unsigned : ℕ → Value
  float : ℕ → Value
  boolean : Bool → Value

-- Go's conversions between float64, which is its bits, and integers, and `FormatFloat` with the format `f`.
pub record Floats : Type 0 where
  pub format : ℕ → Bytes
  pub int_of : ℕ → ℤ
  pub uint_of : ℕ → ℕ
  pub is_above_zero : ℕ → Bool
  pub of_int : ℤ → ℕ
  pub of_uint : ℕ → ℕ

-- The first option of an enum.
abbrev first_option : List Bytes → Bytes
first_option [] = []
first_option (p ∷ ps) = p

-- `EncodeString`, with the value of the tag's `enum`: no text is the first option.
abbrev pub encode_text : Option Bytes → Bytes → Bytes
encode_text e (c ∷ w) = c ∷ w
encode_text none [] = []
encode_text (some e) [] = first_option (split b'|' e)

module _ (lib : Library) where
  abbrev pub encode_byte : Val → Value
  encode_byte (bytes_val b) = bytes (lib.base64 b)
  encode_byte _ = bytes []

  -- The encoder of the type: `EncodeBool` and so on; `EncodePtr` asks for that of what the pointer points to.
  unfoldable pub encode_value : GoType → Option Bytes → Val → Value
  encode_value (ptr_type t) e (ptr_val v) = encode_value t e v
  encode_value (ptr_type t) e _ = null
  encode_value bytes_type e v = encode_byte v
  encode_value string_type e (string_val s) = text (encode_text e s)
  encode_value bool_type e (bool_val b) = boolean b
  encode_value (int_type w) e (int_val i) = integer i
  encode_value (uint_type w) e (uint_val n) = unsigned n
  encode_value float_type e (float_val x) = float x
  encode_value (map_type t) e nil_val = text (codes "null")
  encode_value t e v = bytes (marshal lib v)

-- `int64(n)` and `uint64(i)`
unfoldable pub as_signed : ℕ → ℤ
as_signed n = if ltb n 9223372036854775808 then pos n else negsuc (18446744073709551615 - n)

unfoldable pub as_unsigned : ℤ → ℕ
as_unsigned (pos n) = n
as_unsigned (negsuc n) = 18446744073709551615 - n

unfoldable pub checked_int : Width → ℤ × Bool → Outcome Val
checked_int w (i, false) = err (plain "ParseInt")
checked_int w (i, true) = if in_range w i then ok (int_val i) else err (plain "integer overflow")

unfoldable pub checked_uint : Width → Digits → Outcome Val
checked_uint w (value n) =
    if ltb n (size w) then ok (uint_val n) else err (plain "unsigned integer overflow")
checked_uint w syntax = err (plain "ParseUint")
checked_uint w range = err (plain "ParseUint")

-- `strconv.ParseBool`
unfoldable pub parse_bool : Bytes → Outcome Val
parse_bool s =
    if same s (codes "1")
      || same s (codes "t")
      || same s (codes "T")
      || same s (codes "true")
      || same s (codes "TRUE")
      || same s (codes "True")
    then ok (bool_val true)
    else if same s (codes "0")
        || same s (codes "f")
        || same s (codes "F")
        || same s (codes "false")
        || same s (codes "FALSE")
        || same s (codes "False")
    then ok (bool_val false)
    else err (plain "ParseBool")

abbrev pub decoded_bytes : Option Bytes → Outcome Val
decoded_bytes none = err (plain "DecodeString")
decoded_bytes (some b) = ok (bytes_val b)

abbrev parsed_float : Option ℕ → Outcome Val
parsed_float none = err (plain "ParseFloat")
parsed_float (some x) = ok (float_val x)

abbrev is_one : ℤ → Bool
is_one (pos n) = n == 1
is_one (negsuc n) = false

abbrev pointed : Outcome Val → Outcome Val
pointed (ok v) = ok (ptr_val v)
pointed (err e) = err e
pointed panic = panic
pointed spin = spin

-- `DecodePtr`, over what is decoded for a destination that points to something.
unfoldable pub decode_ptr : Outcome Val → Value → Outcome Val
decode_ptr o null = ok nil_val
decode_ptr o _ = pointed o

module _ (lib : Library) (fl : Floats) where
  unfoldable pub decode_string : Value → Val
  decode_string (text s) = string_val s
  decode_string (bytes s) = string_val s
  decode_string (integer i) = string_val (format_int i)
  decode_string (unsigned n) = string_val (format_nat n)
  decode_string (float x) = string_val (fl.format x)
  decode_string (boolean b) = string_val (if b then codes "true" else codes "false")
  decode_string null = string_val []

  unfoldable pub decode_bool : Value → Outcome Val
  decode_bool (bytes s) = parse_bool s
  decode_bool (text s) = parse_bool s
  decode_bool (boolean b) = ok (bool_val b)
  decode_bool (integer i) = ok (bool_val (is_one i))
  decode_bool (unsigned n) = ok (bool_val (n == 1))
  decode_bool (float x) = ok (bool_val false)
  decode_bool null = ok (bool_val false)

  unfoldable pub decode_int : Width → Value → Outcome Val
  decode_int w (bytes s) = checked_int w (parse_int s)
  decode_int w (text s) = checked_int w (parse_int s)
  decode_int w (integer i) = checked_int w (i, true)
  decode_int w (unsigned n) = checked_int w (as_signed n, true)
  decode_int w (float x) = checked_int w (fl.int_of x, true)
  decode_int w (boolean b) = checked_int w (pos 0, true)
  decode_int w null = checked_int w (pos 0, true)

  unfoldable pub decode_uint : Width → Value → Outcome Val
  decode_uint w (bytes s) = checked_uint w (parse_uint s)
  decode_uint w (text s) = checked_uint w (parse_uint s)
  decode_uint w (integer i) = checked_uint w (value (as_unsigned i))
  decode_uint w (unsigned n) = checked_uint w (value n)
  decode_uint w (float x) = checked_uint w (value (if fl.is_above_zero x then fl.uint_of x else 0))
  decode_uint w (boolean b) = checked_uint w (value 0)
  decode_uint w null = checked_uint w (value 0)

  unfoldable pub decode_float : Value → Outcome Val
  decode_float (bytes s) = parsed_float (lib.parse_float s)
  decode_float (text s) = parsed_float (lib.parse_float s)
  decode_float (float x) = ok (float_val x)
  decode_float (integer i) = ok (float_val (fl.of_int i))
  decode_float (unsigned n) = ok (float_val (fl.of_uint n))
  decode_float (boolean b) = ok (float_val 0)
  decode_float null = ok (float_val 0)

  -- `DecodeByte`
  unfoldable pub decode_byte : Value → Outcome Val
  decode_byte (text s) = decoded_bytes (lib.from_base64 s)
  decode_byte (bytes s) = decoded_bytes (lib.from_base64 s)
  decode_byte null = ok (bytes_val [])
  decode_byte _ = ok nil_val

  -- `DecodeStruct`, `DecodeArray` and `DecodeMap`: without bytes the zero value is set.
  unfoldable pub decode_jsonb : GoType → Value → Outcome Val
  decode_jsonb t (text s) = unmarshal lib t s
  decode_jsonb t (bytes s) = unmarshal lib t s
  decode_jsonb t _ = ok (zero_of t)

  -- The decoder of the type, on a destination that
  -- `reflext.Zero` or `reflext.IndirectInit` made, whose pointers all point to something.
  unfoldable pub decode_value : GoType → Value → Outcome Val
  decode_value bool_type it = decode_bool it
  decode_value (int_type w) it = decode_int w it
  decode_value (uint_type w) it = decode_uint w it
  decode_value float_type it = decode_float it
  decode_value string_type it = ok (decode_string it)
  decode_value bytes_type it = decode_byte it
  decode_value (ptr_type t) it = decode_ptr (decode_value t it) it
  decode_value (slice_type t) it = decode_jsonb (slice_type t) it
  decode_value (array_type n t) it = decode_jsonb (array_type n t) it
  decode_value (map_type t) it = decode_jsonb (map_type t) it
  decode_value (struct_type fs) it = decode_jsonb (struct_type fs) it
