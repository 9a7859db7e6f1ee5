-- ===== src/Jsonb/Codec/Tokens.antt =====
-- The texts of the values that are read back are values that `skip` takes as a whole, and only nil is `null`.
use sqlike.Common.{
  ℕ, ◌≡◌, refl, sym, subst, true, false, [], ◌∷◌, ◌++◌, Bytes, codes, arith, ◌==◌, same,
}
use sqlike.Go.Decimal.{format_nat, format_int}
use sqlike.Jsonb.Reader.{is_null, new_reader}
use sqlike.Jsonb.Str.{escape_string, encode_string}
use sqlike.Jsonb.Skip.Token.{IsToken, string-IsToken, number-ne-n}
use sqlike.Jsonb.Skip.Object.{
  members, AllTokens, object-IsToken, true-IsToken, false-IsToken, null-IsToken,
}
use sqlike.Jsonb.Array.Elements.{elements, AllElements}
use sqlike.Jsonb.Value.Text.{NumberText, NumberText-IsToken, array-IsToken}
use sqlike.Jsonb.Codec.Types.{GoType, FieldTypes, Val, Vals, Entries, is_nil}
use sqlike.Jsonb.Codec.Encode.{Library, encode, encode_vals, encode_entries}
use sqlike.Jsonb.Codec.Fits.{
  Documented, Nested, Fits, fits_bool, fits_int, fits_uint, fits_string, fits_nil_bytes, fits_bytes,
  fits_nil_ptr, fits_ptr, fits_nil_slice, fits_slice, fits_array, fits_nil_map, fits_map,
  fits_struct, FitsAll, all_nothing, all_val, FitsEntries, entries_nothing, entries_entry,
  FitsFields, fields_nothing, fields_entry,
}
use sqlike.Jsonb.Codec.Text.{
  format_nat-NumberText, format_int-NumberText, map_text, struct_text, bytes_text, all-Neutral,
}

-- A reader in front of a value that does not begin with an `n`.
abbrev pub NotNull : Bytes → Type 0
NotNull w = is_null (new_reader w) ≡ false

pub starts-NotNull : (c : ℕ) (w : Bytes) → (c == b'n') ≡ false → NotNull (c ∷ w)
unfolding same
starts-NotNull c w h = ground arith

number-NotNull : (w : Bytes) → NumberText w → NotNull w
number-NotNull w n =
    subst NotNull (sym n.splits) (starts-NotNull n.first n.others (number-ne-n n.first n.begins))

string-NotNull : (s : Bytes) → NotNull (encode_string s)
unfolding encode_string
string-NotNull s = starts-NotNull b'"' (escape_string s ++ b'"' ∷ []) refl

module _ (lib : Library) (doc : Documented lib) where
  pub Fits-NotNull :
      (t : GoType) (v : Val) → Fits lib t v → is_nil v ≡ false → NotNull (encode lib v)
  unfolding encode is_nil
  Fits-NotNull t v (fits_bool true) e = starts-NotNull b't' (codes "rue") refl
  Fits-NotNull t v (fits_bool false) e = starts-NotNull b'f' (codes "alse") refl
  Fits-NotNull t v (fits_int w i h) e = number-NotNull (format_int i) (format_int-NumberText i)
  Fits-NotNull t v (fits_uint w n h) e = number-NotNull (format_nat n) (format_nat-NumberText n)
  Fits-NotNull t v (fits_string s) e = string-NotNull s
  Fits-NotNull t v fits_nil_bytes e = cc
  Fits-NotNull t v (fits_bytes b h n) e = starts-NotNull b'"' (lib.base64 b ++ b'"' ∷ []) refl
  Fits-NotNull t v (fits_nil_ptr u) e = cc
  Fits-NotNull t v (fits_ptr u x n h) e = Fits-NotNull u x h n
  Fits-NotNull t v (fits_nil_slice u) e = cc
  Fits-NotNull t v (fits_slice u vs h) e = starts-NotNull b'[' (elements (encode_vals lib vs)) refl
  Fits-NotNull t v (fits_array u vs h) e = starts-NotNull b'[' (elements (encode_vals lib vs)) refl
  Fits-NotNull t v (fits_nil_map u) e = cc
  Fits-NotNull t v (fits_map u es h s) e =
      subst NotNull (sym (map_text lib doc es s))
        (starts-NotNull b'{' (members (encode_entries lib es)) refl)
  Fits-NotNull t v (fits_struct fs es h) e =
      subst NotNull (sym (struct_text lib doc fs es h))
        (starts-NotNull b'{' (members (encode_entries lib es)) refl)

  mutual
    unfolding Nested encode

    pub Fits-IsToken : (t : GoType) (v : Val) → Fits lib t v → Nested v → IsToken (encode lib v)
    Fits-IsToken t v (fits_bool true) q = true-IsToken
    Fits-IsToken t v (fits_bool false) q = false-IsToken
    Fits-IsToken t v (fits_int w i h) q =
        NumberText-IsToken (format_int i) (format_int-NumberText i)
    Fits-IsToken t v (fits_uint w n h) q =
        NumberText-IsToken (format_nat n) (format_nat-NumberText n)
    Fits-IsToken t v (fits_string s) q = string-IsToken s
    Fits-IsToken t v fits_nil_bytes q = null-IsToken
    Fits-IsToken t v (fits_bytes b h n) q =
        subst IsToken (sym (bytes_text lib doc b h)) (string-IsToken (lib.base64 b))
    Fits-IsToken t v (fits_nil_ptr u) q = null-IsToken
    Fits-IsToken t v (fits_ptr u x n h) q = Fits-IsToken u x h q
    Fits-IsToken t v (fits_nil_slice u) q = null-IsToken
    Fits-IsToken t v (fits_slice u vs h) q =
        array-IsToken (encode_vals lib vs) (all-Neutral lib doc u vs h q)
    Fits-IsToken t v (fits_array u vs h) q =
        array-IsToken (encode_vals lib vs) (all-Neutral lib doc u vs h q)
    Fits-IsToken t v (fits_nil_map u) q = null-IsToken
    Fits-IsToken t v (fits_map u es h s) q =
        subst IsToken (sym (map_text lib doc es s))
          (object-IsToken (encode_entries lib es) (entries-AllTokens u es h))
    Fits-IsToken t v (fits_struct fs es h) q =
        subst IsToken (sym (struct_text lib doc fs es h))
          (object-IsToken (encode_entries lib es) (fields-AllTokens fs es h))

    pub entries-AllTokens :
        (t : GoType) (es : Entries) → FitsEntries lib t es → AllTokens (encode_entries lib es)
    entries-AllTokens t es (entries_nothing u) = tt
    entries-AllTokens t es (entries_entry u k v xs p a n h r) =
        (Fits-IsToken u v h n, entries-AllTokens u xs r)

    pub fields-AllTokens :
        (fs : FieldTypes) (es : Entries) → FitsFields lib fs es → AllTokens (encode_entries lib es)
    fields-AllTokens fs es fields_nothing = tt
    fields-AllTokens fs es (fields_entry k u gs v xs p a n h r) =
        (Fits-IsToken u v h n, fields-AllTokens gs xs r)

  pub all-AllElements :
      (t : GoType) (vs : Vals) → FitsAll lib t vs → AllElements (encode_vals lib vs)
  unfolding encode
  all-AllElements t vs (all_nothing u) = tt
  all-AllElements t vs (all_val u v xs n h r) = (Fits-IsToken u v h n, all-AllElements u xs r)
