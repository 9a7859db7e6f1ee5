-- ===== src/Jsonb/Codec/Decode.antt =====
-- jsonb/decoder.go: the decoders, and `Unmarshal` of jsonb/unmarshal.go.
use sqlike.Common.{
  ℕ, suc, Bool, true, false, [], Option, none, some, Bytes, codes, ltb, ◌==◌, same, if◌then◌else◌,
}
use sqlike.Sql.Primitive.{ℤ}
use sqlike.Go.Decimal.{Digits, value, parse_int, parse_uint}
use sqlike.Jsonb.Outcome.{invalid_json, plain, Outcome, ok, err, panic, spin}
use sqlike.Jsonb.Reader.{
  Reader, M, ◌>>=◌, ◌>>◌, return, throw, new_reader, next_token, is_null, read_boolean,
}
use sqlike.Jsonb.Str.{read_string, read_raw_string}
use sqlike.Jsonb.Number.{read_number}
use sqlike.Jsonb.Skip.{skip_null}
use sqlike.Jsonb.Array.{read_array, read_object}
use sqlike.Jsonb.Value.{with_result}
use sqlike.Jsonb.Codec.Types.{
  Width, GoType, bool_type, int_type, uint_type, float_type, string_type, bytes_type, ptr_type,
  slice_type, array_type, map_type, struct_type, FieldTypes, no_types, field_type, Val, nil_val,
  bool_val, int_val, uint_val, float_val, string_val, bytes_val, ptr_val, list_val, map_val,
  struct_val, Vals, no_vals, Entries, no_entries, entry, size, in_range, zero_of, fresh, entries_of,
  vals_of, get, set, append, set_map_index,
}
use sqlike.Jsonb.Codec.Encode.{Library}

abbrev pub map_result : {A B : Type 0} → (A → B) → M A → M B
map_result f m = m >>= λ a. return (f a)

-- What follows a call of another reader.
abbrev pub and_then : {A B : Type 0} → Outcome A → (A → Outcome B) → Outcome B
and_then (ok a) f = f a
and_then (err e) f = err e
and_then panic f = panic
and_then spin f = spin

-- `DecodeInt` behind `ParseInt`; the texts of the errors of strconv are shortened to its function's name.
unfoldable pub to_int : Width → ℤ × Bool → M Val
unfolding in_range
to_int w (i, false) = throw (plain "ParseInt")
to_int w (i, true) = if in_range w i then return (int_val i) else throw (plain "integer overflow")

unfoldable pub to_uint : Width → Digits → M Val
to_uint w (value n) =
    if ltb n (size w) then return (uint_val n) else throw (plain "unsigned integer overflow")
to_uint w _ = throw (plain "ParseUint")

abbrev pub to_float : Option ℕ → M Val
to_float none = throw (plain "ParseFloat")
to_float (some x) = return (float_val x)

abbrev pub to_bytes : Option Bytes → M Val
to_bytes none = throw (plain "DecodeString")
to_bytes (some b) = return (bytes_val b)

-- The start of the decoders of what can be nil.
abbrev pub or_null : Val → M Val → M Val
or_null v m r = elim (is_null r) [ true ↦ (skip_null >> return v) r | false ↦ m r ]

-- The callback of `DecodeArray`, over the count of elements and the array.
unfoldable pub decode_index : (Val → M Val) → Reader → ℕ × Vals → Outcome (ℕ × Vals)
unfolding get set
decode_index m it (i, vs) = elim (get vs i) [
  | none ↦ err (plain "jsonb: invalid array length")
  | some v ↦ with_result (m v it).1 (λ x. (suc i, set vs i x))
]

-- The callback of `DecodeSlice`.
unfoldable pub decode_append : M Val → Reader → Vals → Outcome Vals
unfolding append
decode_append m it vs = with_result (m it).1 (λ x. append vs x)

-- The callback of `DecodeStruct`, over what is done with a value that is not null.
unfoldable pub decode_member :
    (Reader → Bytes → Entries → Outcome Entries) → Reader → Bytes → Entries → Outcome Entries
decode_member g it k es = elim (is_null it) [ true ↦ ok es | false ↦ g it k es ]

module _ (lib : Library) where
  abbrev bytes_of : Bytes → M Val
  bytes_of x =
      if same x (codes "null")
      then return nil_val
      else if same x []
      then return (bytes_val [])
      else to_bytes (lib.from_base64 x)

  -- `DecodeByte`
  unfoldable pub decode_bytes : M Val
  decode_bytes = read_raw_string >>= bytes_of

  -- The callback of `DecodeMap`, whose keys are read by `DecodeString`.
  unfoldable pub decode_pair : M Val → Reader → Bytes → Entries → Outcome Entries
  unfolding set_map_index
  decode_pair m it k es =
      and_then (read_string (new_reader (lib.quote k))).1
        (λ j. with_result (m it).1 (λ x. set_map_index es j x))

  -- The decoder of a type (`LookupDecoder`), over the value that is there. A field that is found is initialised
  -- first, but the decoders of what can be nil write over it.
  unfoldable mutual
    unfolding zero_of fresh to_int to_uint decode_index decode_append decode_member decode_bytes
        decode_pair

    pub decode : GoType → Val → M Val
    decode bool_type v = map_result bool_val read_boolean
    decode (int_type w) v = read_number >>= λ str. to_int w (parse_int str)
    decode (uint_type w) v = read_number >>= λ str. to_uint w (parse_uint str)
    decode float_type v = read_number >>= λ str. to_float (lib.parse_float str)
    decode string_type v = map_result string_val read_string
    decode bytes_type v = decode_bytes
    decode (ptr_type t) v = or_null nil_val (map_result ptr_val (decode t (zero_of t)))
    decode (slice_type t) v =
        or_null nil_val
          (map_result list_val (read_array (some (decode_append (decode t (fresh t)))) no_vals))
    decode (array_type n t) v = or_null (zero_of (array_type n t)) (
        map_result (λ (p : ℕ × Vals). list_val p.1)
          (read_array (some (decode_index (decode t))) (0, vals_of v)))
    decode (map_type t) v =
        or_null nil_val
          (map_result map_val (read_object (decode_pair (decode t (fresh t))) no_entries))
    decode (struct_type fs) v =
        or_null (zero_of (struct_type fs))
          (map_result struct_val (read_object (decode_member (decode_field fs)) (entries_of v)))

    -- `LookUpFieldByName`, and the decoder of the field's type. Of the names that it looks at only those of the
    -- properties are here: a key that is the dotted path of a nested field, or the name of a field that another
    -- overrides, is passed over.
    pub decode_field : FieldTypes → Reader → Bytes → Entries → Outcome Entries
    decode_field no_types it k es = ok es
    decode_field (field_type n t fs) it k no_entries = ok no_entries
    decode_field (field_type n t fs) it k (entry m v es) = elim (same n k) [
      | true ↦ with_result (decode t v it).1 (λ x. entry m x es)
      | false ↦ with_result (decode_field fs it k es) (λ es'. entry m v es')
    ]

  -- `Unmarshal`, whose destination is not changed by an error.
  unfoldable pub unmarshal : GoType → Bytes → Outcome Val
  unfolding decode fresh
  unmarshal t w =
      ((do
        v ← decode t (fresh t)
        c ← next_token
        if c == 0 then return v else throw (invalid_json "Unmarshal" "extra char"))
        (new_reader w)).1
