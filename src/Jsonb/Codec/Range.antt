-- ===== src/Jsonb/Codec/Range.antt =====
-- `DecodeInt` of jsonb/decoder.go on every number of 64 bits.
use sqlike.Common.{arith, ◌≡◌, [], if◌then◌else◌, inl, inr, Bool-cases}
use sqlike.Sql.Primitive.{ℤ}
use sqlike.Go.Decimal.{format_int, parse_int-format_int, Int64}
use sqlike.Jsonb.Outcome.{plain, ok, err}
use sqlike.Jsonb.Reader.View.{next_token-at}
use sqlike.Jsonb.Value.Numbers.{read_number_whole}
use sqlike.Jsonb.Codec.Types.{Width, int_type, int_val, in_range}
use sqlike.Jsonb.Codec.Encode.{Library}
use sqlike.Jsonb.Codec.Decode.{to_int, decode, unmarshal}
use sqlike.Jsonb.Codec.Text.{format_int-NumberText}

-- `Unmarshal` of the decimal text of a number of 64 bits returns the number if it is in the range of the width, and
-- the error of an overflow otherwise.
pub unmarshal-format_int :
    (lib : Library) (w : Width) (i : ℤ)
    → Int64 i
    → unmarshal lib (int_type w) (format_int i)
      ≡ (if in_range w i then ok (int_val i) else err (plain "integer overflow"))
unfolding unmarshal decode to_int
unmarshal-format_int lib w i h =
    let t = format_int i in
    let read = read_number_whole t [] (format_int-NumberText i) in
    elim (Bool-cases (in_range w i)) [
      | inl e ↦ ground (arith, read, parse_int-format_int i h, e, next_token-at t [])
      | inr e ↦ ground (arith, read, parse_int-format_int i h, e)
    ]
