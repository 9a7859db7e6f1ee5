-- ===== src/Jsonb/Codec/Tests.antt =====
-- Runs of the coders, over a small library.
use sqlike.Common.{
  ℕ, zero, suc, ◌+◌, arith, ◌≡◌, refl, sym, ap, ◌∙◌, true, false, List, [], ◌∷◌, ◌++◌, some, Bytes,
  codes, same, same_iff, same_self, subst, inl, inr, Bool-cases, ◌==◌, if◌then◌else◌,
}
use sqlike.Sql.Primitive.{pos, negsuc}
use sqlike.Go.Decimal.{format_nat, format_int}
use sqlike.Jsonb.Outcome.{plain, ok, err, spin}
use sqlike.Jsonb.Str.{unescape, escape_char, escape_string, encode_string}
use sqlike.Jsonb.Skip.Object.{members}
use sqlike.Jsonb.Skip.Brackets.{NoBrackets}
use sqlike.Jsonb.Types.{value_map}
use sqlike.Jsonb.Number.{is_number}
use sqlike.Jsonb.Skip.{ends_number}
use sqlike.Jsonb.Value.Text.{NumberText}
use sqlike.Jsonb.Array.Elements.{elements}
use sqlike.Jsonb.Codec.Types.{
  w8, GoType, bool_type, int_type, float_type, float_val, string_type, bytes_type, ptr_type,
  slice_type, array_type, map_type, struct_type, no_types, field_type, Val, nil_val, bool_val,
  int_val, string_val, bytes_val, ptr_val, list_val, map_val, struct_val, no_vals, val, no_entries,
  entry, in_range, is_nil,
}
use sqlike.Jsonb.Codec.Encode.{Library, marshal}
use sqlike.Jsonb.Codec.Decode.{unmarshal}
use sqlike.Jsonb.Codec.Fits.{
  Plain, below, Sorted, keys_of, Documented, Quiet, Nested, Fits, fits_bool, fits_int, fits_string,
  fits_bytes, fits_nil_ptr, fits_ptr, fits_slice, fits_array, fits_map, fits_struct, all_nothing,
  all_val, entries_nothing, entries_entry, fields_nothing, fields_entry,
}
use sqlike.Jsonb.Codec.RoundTrip.{unmarshal-marshal}
use sqlike.Jsonb.Codec.Losses.{unmarshal-mantissa, unmarshal-map_key}
use sqlike.Jsonb.Codec.Typed.{HasType}
use sqlike.Jsonb.Codec.Range.{unmarshal-format_int}
use sqlike.Jsonb.Codec.Sound.{unmarshal-HasType}

-- Bytes in unary, with a one behind each.
unary : ℕ → Bytes → Bytes
unary zero w = b'1' ∷ w
unary (suc n) w = b'0' ∷ unary n w

pub to_unary : Bytes → Bytes
to_unary [] = []
to_unary (c ∷ w) = unary c (to_unary w)

pub from_unary : ℕ → Bytes → Bytes
from_unary n [] = []
from_unary n (c ∷ w) =
    let one = from_unary 0 w in
    let more = from_unary (suc n) w in if c == b'1' then n ∷ one else more

add_up : ℕ → ℕ → ℕ
add_up zero n = n
add_up (suc m) n = add_up m (suc n)

from_unary-unary : (m n : ℕ) (w : Bytes) → from_unary n (unary m w) ≡ add_up m n ∷ from_unary 0 w
unfolding from_unary unary add_up
from_unary-unary zero n w = refl
from_unary-unary (suc m) n w = from_unary-unary m (suc n) w

add_up_zero : (m n : ℕ) → add_up m n ≡ m + n
unfolding add_up
add_up_zero zero n = omega arith
add_up_zero (suc m) n = omega (arith, add_up_zero m (suc n))

from_unary-to_unary : (w : Bytes) → from_unary 0 (to_unary w) ≡ w
unfolding to_unary
from_unary-to_unary [] = unfold from_unary in refl
from_unary-to_unary (c ∷ w) =
    let e : add_up c 0 ≡ c = omega (arith, add_up_zero c 0) in
    from_unary-unary c 0 (to_unary w) ∙ rw (e, from_unary-to_unary w) refl

unary_letters :
    (n : ℕ) (w : Bytes) → Plain w × NoBrackets w → Plain (unary n w) × NoBrackets (unary n w)
unfolding unary
unary_letters zero w (p, b) = ((refl, p), (refl, refl, b))
unary_letters (suc n) w h = let (p, b) = unary_letters n w h in ((refl, p), (refl, refl, b))

to_unary_letters : (w : Bytes) → Plain (to_unary w) × NoBrackets (to_unary w)
unfolding to_unary
to_unary_letters [] = (tt, tt)
to_unary_letters (c ∷ w) = unary_letters c (to_unary w) (to_unary_letters w)

insert : Bytes × Bytes → List (Bytes × Bytes) → List (Bytes × Bytes)
insert kv [] = kv ∷ []
insert kv (jw ∷ jws) =
    let rest = insert kv jws in if below kv.0 jw.0 then kv ∷ jw ∷ jws else jw ∷ rest

pub insertion_sort : List (Bytes × Bytes) → List (Bytes × Bytes)
insertion_sort [] = []
insertion_sort (kv ∷ kvs) = insert kv (insertion_sort kvs)

insertion_sort-Sorted :
    (kvs : List (Bytes × Bytes)) → Sorted (keys_of kvs) → insertion_sort kvs ≡ kvs
unfolding insertion_sort insert
insertion_sort-Sorted [] h = refl
insertion_sort-Sorted (kv ∷ []) h = refl
insertion_sort-Sorted (kv ∷ jw ∷ kvs) (h, k) = rw (insertion_sort-Sorted (jw ∷ kvs) k, h) refl

-- The bytes that base64 writes as `null`, and a key that `Quote` writes with an escape.
abbrev null_bytes : Bytes
null_bytes = 158 ∷ 233 ∷ 101 ∷ []

abbrev odd_key : Bytes
odd_key = 1 ∷ []

abbrev pub lib : Library
lib = record {
  quote = λ k. if same k odd_key then codes "\"\\x01\"" else b'"' ∷ (k ++ b'"' ∷ []);
  is_positive = λ x. true;
  format_float = λ x. codes "1.5E+10";
  parse_float = λ w. some 1;
  base64 = λ b. if same b null_bytes then codes "null" else to_unary b;
  from_base64 = λ w. if same w (codes "null") then some null_bytes else some (from_unary 0 w);
  sort = insertion_sort;
}

lib_quotes : (k : Bytes) → Plain k → lib.quote k ≡ b'"' ∷ (k ++ b'"' ∷ [])
lib_quotes k h = elim (Bool-cases (same k odd_key)) [
  | inl e ↦ cc (subst Plain ((same_iff k odd_key).0 e) h).0
  | inr e ↦ rw e refl
]

lib_letters : (b : Bytes) → Plain (lib.base64 b) × NoBrackets (lib.base64 b)
lib_letters b = elim (Bool-cases (same b null_bytes)) [
  | inl e ↦ rw e (ground arith)
  | inr e ↦ rw e (to_unary_letters b)
]

unary-ne-null : (n : ℕ) (w : Bytes) → same (unary n w) (codes "null") ≡ false
unfolding unary same
unary-ne-null zero w = refl
unary-ne-null (suc n) w = refl

to_unary-ne-null : (b : Bytes) → same (to_unary b) (codes "null") ≡ false
unfolding to_unary
to_unary-ne-null [] = unfold same in refl
to_unary-ne-null (c ∷ w) = unary-ne-null c (to_unary w)

lib_decodes : (b : Bytes) → lib.from_base64 (lib.base64 b) ≡ some b
lib_decodes b = elim (Bool-cases (same b null_bytes)) [
  | inl e ↦ rw (e, same_self (codes "null")) (ap some (sym ((same_iff b null_bytes).0 e)))
  | inr e ↦ rw (e, to_unary-ne-null b) (ap some (from_unary-to_unary b))
]

pub lib-Documented : Documented lib
lib-Documented = record {
  quotes = lib_quotes;
  letters = λ b h. lib_letters b;
  decodes = λ b h. lib_decodes b;
  decodes_nothing = unfold from_unary same in refl;
  sorts = insertion_sort-Sorted;
}

abbrev pub person : GoType
person = struct_type (
    field_type (codes "age") (int_type w8) (
      field_type (codes "names") (slice_type string_type) (
        field_type (codes "best") (ptr_type bool_type) (
          field_type (codes "pair") (array_type 2 (ptr_type bool_type)) (
            field_type (codes "raw") bytes_type
              (field_type (codes "map") (map_type (int_type w8)) no_types))))))

abbrev pub ann : Val
ann = struct_val (
    entry (codes "age") (int_val (negsuc 127)) (
      entry (codes "names") (list_val (val (string_val (codes "a\"")) no_vals)) (
        entry (codes "best") nil_val (
          entry (codes "pair") (list_val (val nil_val (val (ptr_val (bool_val true)) no_vals))) (
            entry (codes "raw") (bytes_val (2 ∷ [])) (
              entry (codes "map")
                (map_val (
                  entry (codes "k") (int_val (pos 7))
                    (entry (codes "l") (int_val (pos 0)) no_entries)))
                no_entries))))))

ann_text :
    marshal lib ann
    ≡ codes
        "{\"age\":-128,\"names\":[\"a\\\"\"],\"best\":null,\"pair\":[null,true],\"raw\":\"001\",\"map\":{\"k\":7,\"l\":0}}"
unfolding marshal format_nat format_int escape_char escape_string encode_string elements members
    to_unary unary insertion_sort insert below same
ann_text = refl

pub ann-Fits : Fits lib person ann
unfolding Nested Quiet in_range is_nil same to_unary unary below
ann-Fits = fits_struct _ _ (
    fields_entry _ _ _ _ _ (ground arith) (ground arith) (ground arith)
      (fits_int w8 (negsuc 127) refl)
      (fields_entry _ _ _ _ _ (ground arith) (ground arith) (ground arith)
        (fits_slice string_type _ (all_val _ _ _ tt (fits_string _) (all_nothing _)))
        (fields_entry _ _ _ _ _ (ground arith) (ground arith) (ground arith)
          (fits_nil_ptr bool_type)
          (fields_entry _ _ _ _ _ (ground arith) (ground arith) (ground arith)
            (fits_array (ptr_type bool_type) _ (
              all_val _ _ _ tt (fits_nil_ptr bool_type)
                (all_val _ _ _ tt (fits_ptr bool_type _ refl (fits_bool true)) (all_nothing _))))
            (fields_entry _ _ _ _ _ (ground arith) (ground arith) (ground arith)
              (fits_bytes _ (omega arith, tt) refl)
              (fields_entry _ _ _ _ _ (ground arith) (ground arith) (ground arith)
                (fits_map (int_type w8) _
                  (entries_entry _ _ _ _ (ground arith) (ground arith) tt (fits_int w8 (pos 7) refl)
                    (entries_entry _ _ _ _ (ground arith) (ground arith) tt
                      (fits_int w8 (pos 0) refl) (entries_nothing _)))
                  (ground arith))
                fields_nothing))))))

unmarshal-marshal_example : unmarshal lib person (marshal lib ann) ≡ ok ann
unmarshal-marshal_example = unmarshal-marshal lib person ann lib-Documented ann-Fits

unmarshal-HasType_example : HasType person ann
unmarshal-HasType_example =
    unmarshal-HasType lib person (marshal lib ann) ann
      (unmarshal-marshal lib person ann lib-Documented ann-Fits)

mantissa : NumberText (codes "1.5")
unfolding value_map is_number
mantissa = record {
  first = b'1';
  others = codes ".5";
  splits = refl;
  begins = refl;
  inside = (refl, (refl, tt));
}

unmarshal-mantissa_example :
    unmarshal lib
      (struct_type (field_type (codes "x") float_type no_types))
      (marshal lib (struct_val (entry (codes "x") (float_val 9) no_entries)))
    ≡ ok (struct_val (entry (codes "x") (float_val 1) no_entries))
unfolding ends_number
unmarshal-mantissa_example =
    unmarshal-mantissa lib (codes "x") (codes "1.5") (codes "+10") 9 1 lib-Documented (refl, tt)
      refl refl mantissa (refl, (refl, (refl, tt))) refl

unmarshal-map_key_example :
    unmarshal lib
      (map_type bool_type)
      (marshal lib (map_val (entry odd_key (bool_val true) no_entries)))
    ≡ spin
unfolding Nested unescape same
unmarshal-map_key_example =
    unmarshal-map_key lib bool_type odd_key (codes "01\"") b'x' (bool_val true) lib-Documented
      (fits_bool true) tt refl refl

unmarshal-format_int_example :
    unmarshal lib (int_type w8) (format_int (pos 128)) ≡ err (plain "integer overflow")
unfolding in_range
unmarshal-format_int_example = unmarshal-format_int lib w8 (pos 128) (omega arith)
