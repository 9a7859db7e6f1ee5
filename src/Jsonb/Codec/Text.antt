-- ===== src/Jsonb/Codec/Text.antt =====
-- The texts of the values that are read back: which of them `skip` takes as a whole, and where they begin.
use sqlike.Common.{
  ℕ, suc, ◌≡◌, refl, sym, ap, subst, ◌∙◌, true, false, List, [], ◌∷◌, ◌++◌, Bytes, codes, arith,
}
use sqlike.Sql.Primitive.{ℤ, pos, negsuc}
use sqlike.Go.Escape.{AllBytes}
use sqlike.Go.Decimal.{
  is_digit, format_nat, format_int, AllDigits, format_nat-AllDigits, first_digit,
}
use sqlike.Jsonb.Types.{json_number, value_map}
use sqlike.Jsonb.Number.{is_number}
use sqlike.Jsonb.Str.{escape_char, escape_string, encode_string}
use sqlike.Jsonb.Skip.Object.{members, encode_object}
use sqlike.Jsonb.Skip.Brackets.{Neutral, text-Neutral}
use sqlike.Jsonb.Value.Text.{
  AllIn, NumberText, NumberText-Neutral, string-Neutral, AllNeutral, array-Neutral,
  AllFieldsNeutral, object-Neutral,
}
use sqlike.Jsonb.Codec.Types.{
  GoType, FieldTypes, Val, map_val, struct_val, bytes_val, Vals, Entries, no_entries, entry,
}
use sqlike.Jsonb.Codec.Encode.{Library, struct_members, encode, encode_vals, encode_entries}
use sqlike.Jsonb.Codec.Fits.{
  is_plain, Plain, Sorted, keys_of, Documented, names, Quiet, QuietVals, QuietEntries, Fits,
  fits_bool, fits_int, fits_uint, fits_string, fits_nil_bytes, fits_bytes, fits_nil_ptr, fits_ptr,
  fits_nil_slice, fits_slice, fits_array, fits_nil_map, fits_map, fits_struct, FitsAll, all_nothing,
  all_val, FitsEntries, entries_nothing, entries_entry, FitsFields, fields_nothing, fields_entry,
}

plain_char : (c : ℕ) → is_plain c ≡ true → escape_char c ≡ c ∷ []
unfolding escape_char
plain_char c h = ground arith

plain_string : (w : Bytes) → Plain w → escape_string w ≡ w
unfolding escape_string
plain_string [] h = refl
plain_string (c ∷ w) (h, k) = rw (plain_char c h, plain_string w k) refl

-- `EncodeString` of plain text puts it in quotes.
pub encode_string-Plain : (w : Bytes) → Plain w → encode_string w ≡ b'"' ∷ (w ++ b'"' ∷ [])
unfolding encode_string
encode_string-Plain w h = rw (plain_string w h) refl

digits-AllIn : (w : Bytes) → AllDigits w → AllIn w
unfolding is_number value_map
digits-AllIn [] h = tt
digits-AllIn (c ∷ w) (h, k) = (ground arith, digits-AllIn w k)

digit_begins : (c : ℕ) → is_digit c ≡ true → value_map c ≡ json_number
unfolding value_map
digit_begins c h = ground arith

pub format_nat-NumberText : (n : ℕ) → NumberText (format_nat n)
format_nat-NumberText n =
    let (c, w, e, d) = first_digit n in
    record {
      first = c;
      others = w;
      splits = e;
      begins = digit_begins c d;
      inside = digits-AllIn w (subst AllDigits e (format_nat-AllDigits n)).1;
    }

pub format_int-NumberText : (i : ℤ) → NumberText (format_int i)
unfolding format_int value_map
format_int-NumberText (pos n) = format_nat-NumberText n
format_int-NumberText (negsuc n) = record {
  first = b'-';
  others = format_nat (suc n);
  splits = refl;
  begins = refl;
  inside = digits-AllIn (format_nat (suc n)) (format_nat-AllDigits (suc n));
}

abbrev AllPlain : List Bytes → Type 0
AllPlain [] = Unit {0}
AllPlain (k ∷ ks) = Plain k × AllPlain ks

module _ (lib : Library) (doc : Documented lib) where
  pub quote-encode_string : (k : Bytes) → Plain k → lib.quote k ≡ encode_string k
  quote-encode_string k h = doc.quotes k h ∙ sym (encode_string-Plain k h)

  struct_members-members :
      (kvs : List (Bytes × Bytes)) → AllPlain (keys_of kvs) → struct_members lib kvs ≡ members kvs
  unfolding struct_members members
  struct_members-members [] h = refl
  struct_members-members ((k, w) ∷ []) (h, _) = rw (quote-encode_string k h) refl
  struct_members-members ((k, w) ∷ kw ∷ kws) (h, i) =
      rw (quote-encode_string k h, struct_members-members (kw ∷ kws) i) refl

  keys-encode_entries : (es : Entries) → keys_of (encode_entries lib es) ≡ names es
  unfolding encode
  keys-encode_entries no_entries = refl
  keys-encode_entries (entry k v es) = ap (λ ks. k ∷ ks) (keys-encode_entries es)

  -- The text of a map, of a struct and of bytes.
  pub map_text :
      (es : Entries)
      → Sorted (names es)
      → encode lib (map_val es) ≡ encode_object (encode_entries lib es)
  unfolding encode
  map_text es h =
      ap encode_object
        (doc.sorts (encode_entries lib es) (subst Sorted (sym (keys-encode_entries es)) h))

  fields-AllPlain : (fs : FieldTypes) (es : Entries) → FitsFields lib fs es → AllPlain (names es)
  fields-AllPlain fs es fields_nothing = tt
  fields-AllPlain fs es (fields_entry k t gs v xs p a n h r) = (p, fields-AllPlain gs xs r)

  pub struct_text :
      (fs : FieldTypes) (es : Entries)
      → FitsFields lib fs es
      → encode lib (struct_val es) ≡ encode_object (encode_entries lib es)
  unfolding encode
  struct_text fs es h =
      ap (λ w. b'{' ∷ w)
        (struct_members-members (encode_entries lib es)
          (subst AllPlain (sym (keys-encode_entries es)) (fields-AllPlain fs es h)))

  pub bytes_text :
      (b : Bytes) → AllBytes b → encode lib (bytes_val b) ≡ encode_string (lib.base64 b)
  unfolding encode
  bytes_text b h = sym (encode_string-Plain (lib.base64 b) (doc.letters b h).0)

  true-Neutral : Neutral (codes "true")
  true-Neutral =
      text-Neutral (codes "true") (refl, refl, (refl, refl, (refl, refl, (refl, refl, tt))))

  false-Neutral : Neutral (codes "false")
  false-Neutral =
      text-Neutral (codes "false")
        (refl, refl, (refl, refl, (refl, refl, (refl, refl, (refl, refl, tt)))))

  null-Neutral : Neutral (codes "null")
  null-Neutral =
      text-Neutral (codes "null") (refl, refl, (refl, refl, (refl, refl, (refl, refl, tt))))

  mutual
    unfolding Quiet encode

    Fits-Neutral : (t : GoType) (v : Val) → Fits lib t v → Quiet v → Neutral (encode lib v)
    Fits-Neutral t v (fits_bool true) q = true-Neutral
    Fits-Neutral t v (fits_bool false) q = false-Neutral
    Fits-Neutral t v (fits_int w i h) q =
        NumberText-Neutral (format_int i) (format_int-NumberText i)
    Fits-Neutral t v (fits_uint w n h) q =
        NumberText-Neutral (format_nat n) (format_nat-NumberText n)
    Fits-Neutral t v (fits_string s) q = string-Neutral s q
    Fits-Neutral t v fits_nil_bytes q = null-Neutral
    Fits-Neutral t v (fits_bytes b h n) q =
        subst Neutral (sym (bytes_text b h)) (string-Neutral (lib.base64 b) (doc.letters b h).1)
    Fits-Neutral t v (fits_nil_ptr u) q = null-Neutral
    Fits-Neutral t v (fits_ptr u x n h) q = Fits-Neutral u x h q
    Fits-Neutral t v (fits_nil_slice u) q = null-Neutral
    Fits-Neutral t v (fits_slice u vs h) q =
        array-Neutral (encode_vals lib vs) (all-Neutral u vs h q)
    Fits-Neutral t v (fits_array u vs h) q =
        array-Neutral (encode_vals lib vs) (all-Neutral u vs h q)
    Fits-Neutral t v (fits_nil_map u) q = null-Neutral
    Fits-Neutral t v (fits_map u es h s) q =
        subst Neutral (sym (map_text es s))
          (object-Neutral (encode_entries lib es) (entries-Neutral u es h q))
    Fits-Neutral t v (fits_struct fs es h) q =
        subst Neutral (sym (struct_text fs es h))
          (object-Neutral (encode_entries lib es) (fields-Neutral fs es h q))

    pub all-Neutral :
        (t : GoType) (vs : Vals) → FitsAll lib t vs → QuietVals vs → AllNeutral (encode_vals lib vs)
    all-Neutral t vs (all_nothing u) q = tt
    all-Neutral t vs (all_val u v xs n h r) (q, qs) = (Fits-Neutral u v h q, all-Neutral u xs r qs)

    entries-Neutral :
        (t : GoType) (es : Entries)
        → FitsEntries lib t es
        → QuietEntries es
        → AllFieldsNeutral (encode_entries lib es)
    entries-Neutral t es (entries_nothing u) q = tt
    entries-Neutral t es (entries_entry u k v xs p a n h r) (b, q, qs) =
        (b, Fits-Neutral u v h q, entries-Neutral u xs r qs)

    fields-Neutral :
        (fs : FieldTypes) (es : Entries)
        → FitsFields lib fs es
        → QuietEntries es
        → AllFieldsNeutral (encode_entries lib es)
    fields-Neutral fs es fields_nothing q = tt
    fields-Neutral fs es (fields_entry k u gs v xs p a n h r) (b, q, qs) =
        (b, Fits-Neutral u v h q, fields-Neutral gs xs r qs)
