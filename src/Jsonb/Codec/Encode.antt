-- ===== src/Jsonb/Codec/Encode.antt =====
-- jsonb/encoder.go: what the encoders write, and `Marshal` of jsonb/marshal.go.
use sqlike.Common.{ℕ, Bool, true, false, List, [], ◌∷◌, ◌++◌, Option, Bytes, codes, if◌then◌else◌}
use sqlike.Go.Decimal.{format_nat, format_int}
use sqlike.Jsonb.Str.{encode_string}
use sqlike.Jsonb.Skip.Object.{encode_object}
use sqlike.Jsonb.Array.Elements.{encode_array}
use sqlike.Jsonb.Codec.Types.{
  Val, nil_val, bool_val, int_val, uint_val, float_val, string_val, bytes_val, ptr_val, list_val,
  map_val, struct_val, Vals, no_vals, val, Entries, no_entries, entry,
}

-- The functions of the standard library that the coders call: `strconv.Quote`, `FormatFloat` with the format `E`
-- and `ParseFloat`, the encoding `base64.StdEncoding`, and `sort.SliceStable` by keys.
pub record Library : Type 0 where
  pub quote : Bytes → Bytes
  pub is_positive : ℕ → Bool
  pub format_float : ℕ → Bytes
  pub parse_float : Bytes → Option ℕ
  pub base64 : Bytes → Bytes
  pub from_base64 : Bytes → Option Bytes
  pub sort : List (Bytes × Bytes) → List (Bytes × Bytes)

module _ (lib : Library) where
  -- The members that `EncodeStruct` writes behind the opening brace.
  unfoldable pub struct_members : List (Bytes × Bytes) → Bytes
  struct_members [] = b'}' ∷ []
  struct_members ((k, w) ∷ []) = lib.quote k ++ (b':' ∷ (w ++ b'}' ∷ []))
  struct_members ((k, w) ∷ kw ∷ kws) =
      lib.quote k ++ (b':' ∷ (w ++ (b',' ∷ struct_members (kw ∷ kws))))

  -- The encoder of the value's type, or that of nil (`LookupEncoder`).
  unfoldable mutual
    unfolding struct_members

    pub encode : Val → Bytes
    encode nil_val = codes "null"
    encode (bool_val true) = codes "true"
    encode (bool_val false) = codes "false"
    encode (int_val i) = format_int i
    encode (uint_val n) = format_nat n
    encode (float_val x) = if lib.is_positive x then lib.format_float x else codes "0"
    encode (string_val s) = encode_string s
    encode (bytes_val b) = b'"' ∷ (lib.base64 b ++ b'"' ∷ [])
    encode (ptr_val v) = encode v
    encode (list_val vs) = encode_array (encode_vals vs)
    encode (map_val es) = encode_object (lib.sort (encode_entries es))
    encode (struct_val es) = b'{' ∷ struct_members (encode_entries es)

    pub encode_vals : Vals → List Bytes
    encode_vals no_vals = []
    encode_vals (val v vs) = encode v ∷ encode_vals vs

    pub encode_entries : Entries → List (Bytes × Bytes)
    encode_entries no_entries = []
    encode_entries (entry k v es) = (k, encode v) ∷ encode_entries es

  -- `Marshal`
  unfoldable pub marshal : Val → Bytes
  unfolding encode
  marshal v = encode v
