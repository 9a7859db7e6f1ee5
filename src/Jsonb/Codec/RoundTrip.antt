-- ===== src/Jsonb/Codec/RoundTrip.antt =====
-- jsonb/decoder.go on what jsonb/encoder.go writes.
use sqlike.Common.{
  ℕ, ◌≡◌, refl, sym, ap, subst, ◌∙◌, true, false, [], some, Bytes, arith, same, same_self, inl, inr,
  Bool-cases, append-nil,
}
use sqlike.Jsonb.Outcome.{Outcome, ok}
use sqlike.Jsonb.Reader.{Reader, new_reader, is_null}
use sqlike.Jsonb.Reader.View.{then_ok}
use sqlike.Jsonb.Skip.Object.{encode_object, AllTokens}
use sqlike.Jsonb.Array.{read_array, read_object}
use sqlike.Jsonb.Array.Elements as Elements
use sqlike.Jsonb.Array.Elements.{encode_array, read_array-Visits}
use sqlike.Jsonb.Array.Members as Members
use sqlike.Jsonb.Array.Members.{read_object-Visits}
use sqlike.Jsonb.Codec.Types.{
  GoType, bool_type, int_type, uint_type, float_type, string_type, bytes_type, ptr_type, slice_type,
  array_type, map_type, struct_type, FieldTypes, field_type, Val, nil_val, bool_val, uint_val,
  string_val, ptr_val, list_val, map_val, struct_val, Vals, no_vals, val, Entries, no_entries,
  entry, is_nil, zero_of, zero_entries, fresh, copies,
}
use sqlike.Jsonb.Codec.Encode.{Library, encode, encode_vals, encode_entries, marshal}
use sqlike.Jsonb.Codec.Decode.{
  map_result, and_then, decode_index, decode_append, decode_pair, decode_member, decode,
  decode_field, unmarshal,
}
use sqlike.Jsonb.Codec.Fits.{
  Plain, Documented, count, Absent, Fits, fits_bool, fits_int, fits_uint, fits_string,
  fits_nil_bytes, fits_bytes, fits_nil_ptr, fits_ptr, fits_nil_slice, fits_slice, fits_array,
  fits_nil_map, fits_map, fits_struct, FitsAll, all_nothing, all_val, FitsEntries, entries_nothing,
  entries_entry, FitsFields, fields_nothing, fields_entry,
}
use sqlike.Jsonb.Codec.Text.{map_text, struct_text}
use sqlike.Jsonb.Codec.Tokens.{Fits-NotNull, entries-AllTokens, fields-AllTokens, all-AllElements}
use sqlike.Jsonb.Codec.Leaves.{
  Returns, unmarshal-Returns, Returns-null, Returns-NotNull, Returns-bool, Returns-int,
  Returns-uint, Returns-string,
}
use sqlike.Jsonb.Codec.Raw.{decode_bytes-null, decode_bytes-Plain}
use sqlike.Jsonb.Codec.Lift.{
  lift-elements, AllKeys, lift-members, behind_val, one_more, behind_index, behind_field, key-quote,
  Other, behind_entry,
}

-- What is there does not matter but in structs and arrays, and there pointers are nil.
decode-fresh : (lib : Library) (t : GoType) → decode lib t (fresh t) ≡ decode lib t (zero_of t)
unfolding decode
decode-fresh lib bool_type = refl
decode-fresh lib (int_type w) = refl
decode-fresh lib (uint_type w) = refl
decode-fresh lib float_type = refl
decode-fresh lib string_type = refl
decode-fresh lib bytes_type = refl
decode-fresh lib (ptr_type t) = refl
decode-fresh lib (slice_type t) = refl
decode-fresh lib (array_type n t) = refl
decode-fresh lib (map_type t) = refl
decode-fresh lib (struct_type fs) = refl

-- Nil is the zero value of its type.
zero-nil : (lib : Library) (t : GoType) (v : Val) → Fits lib t v → is_nil v ≡ true → zero_of t ≡ v
unfolding is_nil zero_of
zero-nil lib t v (fits_bool b) e = cc
zero-nil lib t v (fits_int w i h) e = cc
zero-nil lib t v (fits_uint w n h) e = cc
zero-nil lib t v (fits_string s) e = cc
zero-nil lib t v fits_nil_bytes e = refl
zero-nil lib t v (fits_bytes b h n) e = cc
zero-nil lib t v (fits_nil_ptr u) e = refl
zero-nil lib t v (fits_ptr u x n h) e = cc
zero-nil lib t v (fits_nil_slice u) e = refl
zero-nil lib t v (fits_slice u vs h) e = cc
zero-nil lib t v (fits_array u vs h) e = cc
zero-nil lib t v (fits_nil_map u) e = refl
zero-nil lib t v (fits_map u es h s) e = cc
zero-nil lib t v (fits_struct fs es h) e = cc

null_text : (lib : Library) (v : Val) → is_nil v ≡ true → is_null (new_reader (encode lib v)) ≡ true
unfolding is_nil encode same
null_text lib nil_val e = refl
null_text lib (bool_val b) e = cc
null_text lib v e = cc

module _ (lib : Library) (doc : Documented lib) where
  array-Returns :
      {S : Type 0} (cb : Reader → S → Outcome S) (f : S → Val) (t : GoType) (vs : Vals) (s u : S)
      → FitsAll lib t vs
      → Elements.Visits cb (encode_vals lib vs) s u
      → Returns (map_result f (read_array (some cb) s)) (encode_array (encode_vals lib vs)) (f u)
  array-Returns cb f t vs s u h k =
      let ws = encode_vals lib vs in
      then_ok (read_array (some cb) s) _ (
        ap (λ x. read_array (some cb) s (new_reader x)) (sym (append-nil (encode_array ws)))
        ∙ read_array-Visits cb ws [] [] s u (all-AllElements lib doc t vs h) k)

  object-Returns :
      (cb : Reader → Bytes → Entries → Outcome Entries) (f : Entries → Val) (es s : Entries)
      (w : Bytes)
      → w ≡ encode_object (encode_entries lib es)
      → AllTokens (encode_entries lib es)
      → Members.Visits cb (encode_entries lib es) s es
      → Returns (map_result f (read_object cb s)) w (f es)
  object-Returns cb f es s w e ts k =
      let ws = encode_entries lib es in
      subst (λ x. Returns (map_result f (read_object cb s)) x (f es)) (sym e)
        (then_ok (read_object cb s) _ (
          ap (λ x. read_object cb s (new_reader x)) (sym (append-nil (encode_object ws)))
          ∙ read_object-Visits cb ws [] [] s es ts k))

  first_val :
      (t : GoType) (v : Val)
      → Returns (decode lib t (zero_of t)) (encode lib v) v
      → decode_append (decode lib t (fresh t)) (new_reader (encode lib v)) no_vals
        ≡ ok (val v no_vals)
  unfolding decode_append
  first_val t v r = rw (decode-fresh lib t, r) refl

  first_index :
      (t : GoType) (v : Val) (vs : Vals)
      → Returns (decode lib t (zero_of t)) (encode lib v) v
      → decode_index (decode lib t) (new_reader (encode lib v)) (0, val (zero_of t) vs)
        ≡ ok (1, val v vs)
  unfolding decode_index
  first_index t v vs r = rw r refl

  first_field :
      (k : Bytes) (t : GoType) (fs : FieldTypes) (v : Val) (es : Entries)
      → Fits lib t v
      → Returns (decode lib t (zero_of t)) (encode lib v) v
      → decode_member
          (decode_field lib (field_type k t fs))
          (new_reader (encode lib v))
          k
          (entry k (zero_of t) es)
        ≡ ok (entry k v es)
  unfolding decode_member decode
  first_field k t fs v es h r = elim (Bool-cases (is_nil v)) [
    | inl e ↦ ground (arith, null_text lib v e, zero-nil lib t v h e)
    | inr e ↦
        let n : is_null (new_reader (encode lib v)) ≡ false = Fits-NotNull lib doc t v h e in
        ground (arith, n, same_self k, r)
  ]

  entries-AllKeys :
      (t : GoType) (n : Bytes) (es : Entries)
      → FitsEntries lib t es
      → Absent n es
      → AllKeys (Other lib doc n) (encode_entries lib es)
  unfolding encode
  entries-AllKeys t n es (entries_nothing u) q = tt
  entries-AllKeys t n es (entries_entry u k v xs p a m h r) (q, qs) =
      ((p, q), entries-AllKeys u n xs r qs)

  fields-AllKeys :
      (fs : FieldTypes) (n : Bytes) (es : Entries)
      → FitsFields lib fs es
      → Absent n es
      → AllKeys (λ k. same n k ≡ false) (encode_entries lib es)
  unfolding encode
  fields-AllKeys fs n es fields_nothing q = tt
  fields-AllKeys fs n es (fields_entry k u gs v xs p a m h r) (q, qs) =
      (q, fields-AllKeys gs n xs r qs)

  first_entry :
      (k : Bytes) (t : GoType) (v : Val)
      → Plain k
      → Returns (decode lib t (zero_of t)) (encode lib v) v
      → decode_pair lib (decode lib t (fresh t)) (new_reader (encode lib v)) k no_entries
        ≡ ok (entry k v no_entries)
  unfolding decode_pair
  first_entry k t v p r = rw (decode-fresh lib t, key-quote lib doc k p, and_then, r) refl

  mutual
    unfolding encode decode zero_of is_nil

    decode-encode :
        (t : GoType) (v : Val) → Fits lib t v → Returns (decode lib t (zero_of t)) (encode lib v) v
    decode-encode t v (fits_bool b) = Returns-bool lib b (bool_val false)
    decode-encode t v (fits_int w i h) = Returns-int lib w i (zero_of t) h
    decode-encode t v (fits_uint w n h) = Returns-uint lib w n (uint_val 0) h
    decode-encode t v (fits_string s) = Returns-string lib s (string_val [])
    decode-encode t v fits_nil_bytes = decode_bytes-null lib
    decode-encode t v (fits_bytes b h n) = decode_bytes-Plain lib doc b h n
    decode-encode t v (fits_nil_ptr u) =
        Returns-null (map_result ptr_val (decode lib u (zero_of u))) nil_val
    decode-encode t v (fits_ptr u x n h) =
        let m = map_result ptr_val (decode lib u (zero_of u)) in
        Returns-NotNull m nil_val v (encode lib x) (Fits-NotNull lib doc u x h n)
          (then_ok (decode lib u (zero_of u)) _ (decode-encode u x h))
    decode-encode t v (fits_nil_slice u) =
        Returns-null
          (map_result list_val (read_array (some (decode_append (decode lib u (fresh u)))) no_vals))
          nil_val
    decode-encode t v (fits_slice u vs h) =
        let cb = decode_append (decode lib u (fresh u)) in
        Returns-NotNull (map_result list_val (read_array (some cb) no_vals)) nil_val v
          (encode lib v) (Fits-NotNull lib doc t v (fits_slice u vs h) refl)
          (array-Returns cb list_val u vs no_vals vs h (Visits-append u vs h))
    decode-encode t v (fits_array u vs h) =
        let cb = decode_index (decode lib u) in
        let z : ℕ × Vals = (0, copies (count vs) (zero_of u)) in
        Returns-NotNull (map_result (λ (p : ℕ × Vals). list_val p.1) (read_array (some cb) z))
          (zero_of t) v (encode lib v) (Fits-NotNull lib doc t v (fits_array u vs h) refl)
          (array-Returns cb (λ p. list_val p.1) u vs z (count vs, vs) h (Visits-index u vs h))
    decode-encode t v (fits_nil_map u) =
        Returns-null
          (map_result map_val (read_object (decode_pair lib (decode lib u (fresh u))) no_entries))
          nil_val
    decode-encode t v (fits_map u es h s) =
        let cb = decode_pair lib (decode lib u (fresh u)) in
        Returns-NotNull (map_result map_val (read_object cb no_entries)) nil_val v (encode lib v)
          (Fits-NotNull lib doc t v (fits_map u es h s) refl)
          (object-Returns cb map_val es no_entries (encode lib v) (map_text lib doc es s)
            (entries-AllTokens lib doc u es h) (Visits-pair u es h))
    decode-encode t v (fits_struct fs es h) =
        let cb = decode_member (decode_field lib fs) in
        let z = zero_entries fs in
        Returns-NotNull (map_result struct_val (read_object cb z)) (zero_of t) v (encode lib v)
          (Fits-NotNull lib doc t v (fits_struct fs es h) refl)
          (object-Returns cb struct_val es z (encode lib v) (struct_text lib doc fs es h)
            (fields-AllTokens lib doc fs es h) (Visits-field fs es h))

    Visits-append :
        (t : GoType) (vs : Vals)
        → FitsAll lib t vs
        → Elements.Visits (decode_append (decode lib t (fresh t))) (encode_vals lib vs) no_vals vs
    Visits-append t vs (all_nothing u) = refl
    Visits-append t vs (all_val u v xs n h r) = (
      val v no_vals,
      first_val u v (decode-encode u v h),
      lift-elements (val v) (decode_append (decode lib u (fresh u)))
          (decode_append (decode lib u (fresh u))) (behind_val v (decode lib u (fresh u)))
          (encode_vals lib xs) no_vals xs (Visits-append u xs r),
    )

    Visits-index :
        (t : GoType) (vs : Vals)
        → FitsAll lib t vs
        → Elements.Visits
            (decode_index (decode lib t))
            (encode_vals lib vs)
            (0, copies (count vs) (zero_of t))
            (count vs, vs)
    Visits-index t vs (all_nothing u) = refl
    Visits-index t vs (all_val u v xs n h r) = (
      (1, val v (copies (count xs) (zero_of u))),
      first_index u v (copies (count xs) (zero_of u)) (decode-encode u v h),
      lift-elements (one_more v) (decode_index (decode lib u)) (decode_index (decode lib u))
          (behind_index v (decode lib u)) (encode_vals lib xs) (0, copies (count xs) (zero_of u))
          (count xs, xs) (Visits-index u xs r),
    )

    Visits-pair :
        (t : GoType) (es : Entries)
        → FitsEntries lib t es
        → Members.Visits
            (decode_pair lib (decode lib t (fresh t)))
            (encode_entries lib es)
            no_entries
            es
    Visits-pair t es (entries_nothing u) = refl
    Visits-pair t es (entries_entry u k v xs p a n h r) = (
      entry k v no_entries,
      first_entry k u v p (decode-encode u v h),
      lift-members (entry k v) (Other lib doc k) (decode_pair lib (decode lib u (fresh u)))
          (decode_pair lib (decode lib u (fresh u)))
          (behind_entry lib doc k v (decode lib u (fresh u))) (encode_entries lib xs) no_entries xs
          (entries-AllKeys u k xs r a) (Visits-pair u xs r),
    )

    Visits-field :
        (fs : FieldTypes) (es : Entries)
        → FitsFields lib fs es
        → Members.Visits
            (decode_member (decode_field lib fs))
            (encode_entries lib es)
            (zero_entries fs)
            es
    Visits-field fs es fields_nothing = refl
    Visits-field fs es (fields_entry k u gs v xs p a n h r) = (
      entry k v (zero_entries gs),
      first_field k u gs v (zero_entries gs) h (decode-encode u v h),
      lift-members (entry k v) (λ j. same k j ≡ false) (decode_member (decode_field lib gs))
          (decode_member (decode_field lib (field_type k u gs))) (behind_field lib k u gs v)
          (encode_entries lib xs) (zero_entries gs) xs (fields-AllKeys gs k xs r a)
          (Visits-field gs xs r),
    )

-- `Unmarshal` gives back the value that `Marshal` wrote, if the functions of the standard library do as documented
-- and the value fits the type: it holds no float64, no pointer to nil and no bytes whose base64 is `null`, the keys
-- of maps and structs are plain and different and those of maps are sorted, and the texts in a list that stands
-- inside another value hold no bracket.
pub unmarshal-marshal :
    (lib : Library) (t : GoType) (v : Val)
    → Documented lib
    → Fits lib t v
    → unmarshal lib t (marshal lib v) ≡ ok v
unfolding marshal
unmarshal-marshal lib t v doc h =
    unmarshal-Returns lib t (encode lib v) v
      (ap (λ m. m (new_reader (encode lib v))) (decode-fresh lib t) ∙ decode-encode lib doc t v h)
