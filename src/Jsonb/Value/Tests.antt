-- ===== src/Jsonb/Value/Tests.antt =====
-- Runs of `ReadValue`.
use sqlike.Common.{ℕ, ◌≡◌, refl, ap, Bool, true, [], Bytes, codes, arith, length, same}
use sqlike.Go.Decimal.{format_int, parse_int}
use sqlike.Sql.Primitive.{ℤ, pos}
use sqlike.Jsonb.Outcome.{Outcome, ok, err, plain}
use sqlike.Jsonb.Reader.{new_reader}
use sqlike.Jsonb.Reader.View.{at}
use sqlike.Jsonb.Str.{escape_char, escape_string, encode_string}
use sqlike.Jsonb.Array.Elements.{elements}
use sqlike.Jsonb.Skip.Object.{members}
use sqlike.Jsonb.Value.{
  Value, null_value, bool_value, number_value, string_value, array_value, object_value, no_items,
  item, no_fields, field, read_value,
}
use sqlike.Jsonb.Value.Encode.{encode_value, Readable, Quiet}
use sqlike.Jsonb.Value.RoundTrip.{read_value-encode_value}

-- Whole numbers from zero on.
abbrev int_of : ℕ → ℤ
int_of n = pos n

abbrev of_int : ℤ × Bool → Outcome ℕ
of_int (pos n, true) = ok n
of_int _ = err (plain "ParseFloat")

abbrev float64 : Bytes → Outcome ℕ
float64 w = of_int (parse_int w)

-- {"a":[1,null,true],"b":{"a":"x"}}
abbrev sample : Value
sample = object_value (
    field (codes "a")
      (array_value (item (number_value 2) (item null_value (item (bool_value true) no_items))))
      (field (codes "b") (object_value (field (codes "a") (string_value (codes "x]")) no_fields))
        no_fields))

abbrev sample_text : Bytes
sample_text = codes "{\"a\":[2,null,true],\"b\":{\"a\":\"x]\"}}"

sample_text-encode_value : sample_text ≡ encode_value int_of sample
unfolding encode_value format_int encode_string escape_string escape_char elements members
sample_text-encode_value = refl

sample-Readable : Readable int_of float64 sample
unfolding Readable Quiet same format_int parse_int
sample-Readable = (
  (refl, tt),
  (tt, (tt, (tt, tt))),
  (tt, refl, (tt, tt, (tt, tt, tt))),
  (tt, tt, (tt, tt, tt, tt), tt),
)

read_value-encode_value_example :
    read_value float64 50 (new_reader (encode_value int_of sample))
    ≡ (at (encode_value int_of sample) [], ok sample)
read_value-encode_value_example =
    read_value-encode_value int_of float64 sample 50 sample-Readable
      (omega (arith, ap length sample_text-encode_value))
