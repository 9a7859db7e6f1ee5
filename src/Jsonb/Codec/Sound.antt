-- ===== src/Jsonb/Codec/Sound.antt =====
-- `Unmarshal` of jsonb/unmarshal.go makes values of the type, on any input.
use sqlike.Common.{
  ℕ, ◌≡◌, subst, Bool, true, false, [], Option, none, some, Bytes, codes, arith, ltb, ◌==◌, same,
  inl, inr, Bool-cases,
}
use sqlike.Sql.Primitive.{ℤ}
use sqlike.Go.Decimal.{Digits, value, syntax, range, parse_int, parse_uint}
use sqlike.Jsonb.Outcome.{invalid_json, ok, plain}
use sqlike.Jsonb.Reader.{Reader, new_reader, next_token, read_boolean}
use sqlike.Jsonb.Number.{read_number}
use sqlike.Jsonb.Str.{read_string, read_raw_string}
use sqlike.Jsonb.Array.{read_array, read_object}
use sqlike.Jsonb.Array.Inv.{
  next-ok, Yields, Yields-next, Yields-return, Yields-if, Yields-error, read_array-Yields,
  read_object-Yields,
}
use sqlike.Jsonb.Codec.Types.{
  Width, GoType, bool_type, int_type, uint_type, float_type, string_type, bytes_type, ptr_type,
  slice_type, array_type, map_type, struct_type, FieldTypes, no_types, field_type, Val, nil_val,
  bool_val, int_val, uint_val, float_val, string_val, bytes_val, ptr_val, list_val, map_val,
  struct_val, Vals, no_vals, Entries, no_entries, entry, size, in_range, zero_of, fresh, entries_of,
  vals_of,
}
use sqlike.Jsonb.Codec.Encode.{Library}
use sqlike.Jsonb.Codec.Decode.{
  to_int, to_uint, to_float, to_bytes, decode_index, decode_append, decode_bytes, decode_pair,
  decode_member, decode, decode_field, unmarshal,
}
use sqlike.Jsonb.Codec.Typed.{
  HasType, has_bool, has_int, has_uint, has_float, has_string, has_bytes, nil_bytes, has_ptr,
  nil_ptr, has_slice, nil_slice, has_array, has_map, nil_map, has_struct, AllHave, have_nothing,
  EntriesHave, no_entries_have, FieldsHave, fields_have, zero_of-HasType, with_result-ok,
  map_result-Yields, or_null-Yields, Filled, index-Filled, vals-Filled, entries-FieldsHave,
  append-Keeps, pair-Keeps, member-Keeps,
}

to_int-HasType : (w : Width) (p : ℤ × Bool) → Yields (HasType (int_type w)) (to_int w p)
unfolding to_int
to_int-HasType w (i, false) = Yields-error (HasType (int_type w)) (plain "ParseInt")
to_int-HasType w (i, true) = elim (Bool-cases (in_range w i)) [
  | inl e ↦ rw e (Yields-return (HasType (int_type w)) (int_val i) (has_int w i e))
  | inr e ↦ rw e (Yields-error (HasType (int_type w)) (plain "integer overflow"))
]

to_uint-HasType : (w : Width) (d : Digits) → Yields (HasType (uint_type w)) (to_uint w d)
unfolding to_uint
to_uint-HasType w syntax = Yields-error (HasType (uint_type w)) (plain "ParseUint")
to_uint-HasType w range = Yields-error (HasType (uint_type w)) (plain "ParseUint")
to_uint-HasType w (value n) = elim (Bool-cases (ltb n (size w))) [
  | inl e ↦ rw e (Yields-return (HasType (uint_type w)) (uint_val n) (has_uint w n e))
  | inr e ↦ rw e (Yields-error (HasType (uint_type w)) (plain "unsigned integer overflow"))
]

to_bytes-HasType : (o : Option Bytes) → Yields (HasType bytes_type) (to_bytes o)
to_bytes-HasType none = Yields-error (HasType bytes_type) (plain "DecodeString")
to_bytes-HasType (some b) = Yields-return (HasType bytes_type) (bytes_val b) (has_bytes b)

to_float-HasType : (o : Option ℕ) → Yields (HasType float_type) (to_float o)
to_float-HasType none = Yields-error (HasType float_type) (plain "ParseFloat")
to_float-HasType (some x) = Yields-return (HasType float_type) (float_val x) (has_float x)

decode_bytes-HasType : (lib : Library) → Yields (HasType bytes_type) (decode_bytes lib)
unfolding decode_bytes
decode_bytes-HasType lib = Yields-next (HasType bytes_type) read_raw_string _ (λ x r e.
    Yields-if (HasType bytes_type) (same x (codes "null")) _ _
      (Yields-return (HasType bytes_type) nil_val nil_bytes)
      (Yields-if (HasType bytes_type) (same x []) _ _
        (Yields-return (HasType bytes_type) (bytes_val []) (has_bytes []))
        (to_bytes-HasType (lib.from_base64 x))))

fresh-HasType : (t : GoType) → HasType t (fresh t)
unfolding fresh
fresh-HasType (ptr_type t) = has_ptr t (fresh t) (fresh-HasType t)
fresh-HasType t = zero_of-HasType t

module _ (lib : Library) where
  mutual
    unfolding decode

    decode-HasType : (t : GoType) (v : Val) → HasType t v → Yields (HasType t) (decode lib t v)
    decode-HasType bool_type v h =
        map_result-Yields (HasType bool_type) bool_val read_boolean (λ r b e. has_bool b)
    decode-HasType (int_type w) v h =
        Yields-next (HasType (int_type w)) read_number _
          (λ str r e. to_int-HasType w (parse_int str))
    decode-HasType (uint_type w) v h =
        Yields-next (HasType (uint_type w)) read_number _
          (λ str r e. to_uint-HasType w (parse_uint str))
    decode-HasType float_type v h =
        Yields-next (HasType float_type) read_number _
          (λ str r e. to_float-HasType (lib.parse_float str))
    decode-HasType string_type v h =
        map_result-Yields (HasType string_type) string_val read_string (λ r s e. has_string s)
    decode-HasType bytes_type v h = decode_bytes-HasType lib
    decode-HasType (ptr_type t) v h =
        let T = HasType (ptr_type t) in
        or_null-Yields T nil_val _ (nil_ptr t) (
          map_result-Yields T ptr_val (decode lib t (zero_of t))
            (λ r x e. has_ptr t x (decode-HasType t (zero_of t) (zero_of-HasType t) r x e)))
    decode-HasType (slice_type t) v h =
        let T = HasType (slice_type t) in
        let cb = decode_append (decode lib t (fresh t)) in
        or_null-Yields T nil_val _ (nil_slice t) (
          map_result-Yields T list_val (read_array (some cb) no_vals) (λ r vs e. has_slice t vs (
            read_array-Yields (AllHave t) cb
              (λ it s u p i.
                append-Keeps t (decode lib t (fresh t))
                  (decode-HasType t (fresh t) (fresh-HasType t)) it s u p i)
              no_vals (have_nothing t) r vs e)))
    decode-HasType (array_type n t) v h =
        let T = HasType (array_type n t) in
        let cb = decode_index (decode lib t) in
        let z : ℕ × Vals = (0, vals_of v) in
        or_null-Yields T (zero_of (array_type n t)) _ (zero_of-HasType (array_type n t)) (
          map_result-Yields T (λ (p : ℕ × Vals). list_val p.1) (read_array (some cb) z)
            (λ r p e.
              let (a, c) =
                read_array-Yields (Filled n t) cb
                  (λ it s u f i.
                    index-Filled n t (decode lib t) it s u (λ x. decode-HasType t x) f i)
                  z (vals-Filled n t v h) r p e in
              has_array n t p.1 a c))
    decode-HasType (map_type t) v h =
        let T = HasType (map_type t) in
        let cb = decode_pair lib (decode lib t (fresh t)) in
        or_null-Yields T nil_val _ (nil_map t) (
          map_result-Yields T map_val (read_object cb no_entries) (λ r es e. has_map t es (
            read_object-Yields (EntriesHave t) cb
              (λ it k s u p i.
                pair-Keeps lib t (decode lib t (fresh t))
                  (decode-HasType t (fresh t) (fresh-HasType t)) it k s u p i)
              no_entries (no_entries_have t) r es e)))
    decode-HasType (struct_type fs) v h =
        let T = HasType (struct_type fs) in
        let cb = decode_member (decode_field lib fs) in
        or_null-Yields T (zero_of (struct_type fs)) _ (zero_of-HasType (struct_type fs)) (
          map_result-Yields T struct_val (read_object cb (entries_of v)) (λ r es e.
            has_struct fs es (
              read_object-Yields (FieldsHave fs) cb
                (λ it k s u p i.
                  member-Keeps fs (decode_field lib fs) it k s u
                    (λ es' u'. field-FieldsHave fs it k es' u') p i)
                (entries_of v) (entries-FieldsHave fs v h) r es e)))

    field-FieldsHave :
        (fs : FieldTypes) (it : Reader) (k : Bytes) (es u : Entries)
        → FieldsHave fs es
        → decode_field lib fs it k es ≡ ok u
        → FieldsHave fs u
    field-FieldsHave no_types it k es u h e =
        let q : es ≡ u = cc e in subst (FieldsHave no_types) q h
    field-FieldsHave (field_type n t fs) it k es u (fields_have _ _ _ v xs h r) e =
        elim (Bool-cases (same n k)) [
          | inl q ↦
              with_result-ok (FieldsHave (field_type n t fs)) (decode lib t v it).1
                (λ x. entry n x xs) u
                (λ x i. fields_have n t fs x xs (decode-HasType t v h it x i) r) (ground arith)
          | inr q ↦
              with_result-ok (FieldsHave (field_type n t fs)) (decode_field lib fs it k xs)
                (λ ys. entry n v ys) u
                (λ ys i. fields_have n t fs v ys h (field-FieldsHave fs it k xs ys r i))
                (ground arith)
        ]

-- What `Unmarshal` returns without an error is a value of the type that it is asked for, whatever the text: numbers
-- are in the range of their width, arrays have their length, and structs their fields.
pub unmarshal-HasType :
    (lib : Library) (t : GoType) (w : Bytes) (v : Val) → unmarshal lib t w ≡ ok v → HasType t v
unfolding unmarshal
unmarshal-HasType lib t w v e =
    let (x, h, i) = next-ok (decode lib t (fresh t) (new_reader w)) _ v e in
    Yields-next (HasType t) next_token _
      (λ c r j.
        Yields-if (HasType t) (c == 0) _ _
          (Yields-return (HasType t) x
            (decode-HasType lib t (fresh t) (fresh-HasType t) (new_reader w) x h))
          (Yields-error (HasType t) (invalid_json "Unmarshal" "extra char")))
      (decode lib t (fresh t) (new_reader w)).0 v i
