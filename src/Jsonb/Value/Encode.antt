-- ===== src/Jsonb/Value/Encode.antt =====
-- What jsonb/encoder.go writes for a value (`EncodeString`, `EncodeBool`, `EncodeArray`, `EncodeMap`), with
-- `EncodeInt` for numbers, and the values whose text `ReadValue` can take apart.
use sqlike.Common.{ℕ, ◌≡◌, refl, true, false, List, [], ◌∷◌, Bytes, codes, same}
use sqlike.Go.Decimal.{format_int}
use sqlike.Sql.Primitive.{ℤ}
use sqlike.Jsonb.Codec.Text.{format_int-NumberText}
use sqlike.Jsonb.Outcome.{Outcome, ok}
use sqlike.Jsonb.Str.{encode_string}
use sqlike.Jsonb.Skip.Token.{IsToken, string-IsToken}
use sqlike.Jsonb.Skip.Object.{
  encode_object, AllTokens, object-IsToken, true-IsToken, false-IsToken, null-IsToken,
}
use sqlike.Jsonb.Skip.Brackets.{Neutral, NoBrackets, text-Neutral}
use sqlike.Jsonb.Array.Elements.{encode_array, AllElements}
use sqlike.Jsonb.Value.{
  Value, null_value, bool_value, number_value, string_value, array_value, object_value, Items,
  no_items, item, Fields, no_fields, field,
}
use sqlike.Jsonb.Value.Text.{
  NumberText-IsToken, NumberText-Neutral, string-Neutral, AllNeutral, array-Neutral, array-IsToken,
  AllFieldsNeutral, object-Neutral,
}

-- No key of the fields is `k`.
abbrev pub Absent : Bytes → Fields → Type 0
Absent k no_fields = Unit {0}
Absent k (field j v fs) = (same k j ≡ false) × Absent k fs

-- `int_of` is the integer that a float64, which is its bits, stands for: a number of a value is what `EncodeInt`
-- writes for this integer.
module _ (int_of : ℕ → ℤ) where
  unfoldable mutual
    pub encode_value : Value → Bytes
    encode_value null_value = codes "null"
    encode_value (bool_value true) = codes "true"
    encode_value (bool_value false) = codes "false"
    encode_value (number_value n) = format_int (int_of n)
    encode_value (string_value s) = encode_string s
    encode_value (array_value xs) = encode_array (encode_items xs)
    encode_value (object_value fs) = encode_object (encode_fields fs)

    pub encode_items : Items → List Bytes
    encode_items no_items = []
    encode_items (item v xs) = encode_value v ∷ encode_items xs

    pub encode_fields : Fields → List (Bytes × Bytes)
    encode_fields no_fields = []
    encode_fields (field k v fs) = (k, encode_value v) ∷ encode_fields fs

-- No text in the value holds a bracket.
unfoldable mutual
  pub Quiet : Value → Type 0
  Quiet (string_value s) = NoBrackets s
  Quiet (array_value xs) = QuietItems xs
  Quiet (object_value fs) = QuietFields fs
  Quiet _ = Unit {0}

  pub QuietItems : Items → Type 0
  QuietItems no_items = Unit {0}
  QuietItems (item v xs) = Quiet v × QuietItems xs

  pub QuietFields : Fields → Type 0
  QuietFields no_fields = Unit {0}
  QuietFields (field k v fs) = NoBrackets k × Quiet v × QuietFields fs

-- A value inside another: if it is an array, no text in it holds a bracket.
abbrev pub Nested : Value → Type 0
unfolding Quiet
Nested (array_value xs) = QuietItems xs
Nested _ = Unit {0}

-- A value that reads back: each number is the one that `Float64` gives for the text of its integer, the keys of each
-- object are different, and each array inside another value is such.
module _ (int_of : ℕ → ℤ) (float64 : Bytes → Outcome ℕ) where
  unfoldable mutual
    unfolding Quiet

    pub Readable : Value → Type 0
    Readable (array_value xs) = ReadableItems xs
    Readable (object_value fs) = ReadableFields fs
    Readable (number_value n) = float64 (format_int (int_of n)) ≡ ok n
    Readable _ = Unit {0}

    pub ReadableItems : Items → Type 0
    ReadableItems no_items = Unit {0}
    ReadableItems (item v xs) = Nested v × Readable v × ReadableItems xs

    pub ReadableFields : Fields → Type 0
    ReadableFields no_fields = Unit {0}
    ReadableFields (field k v fs) = Absent k fs × Nested v × Readable v × ReadableFields fs

module _ (int_of : ℕ → ℤ) (float64 : Bytes → Outcome ℕ) where
  mutual
    unfolding Quiet encode_value

    Quiet-Neutral : (v : Value) → Quiet v → Neutral (encode_value int_of v)
    Quiet-Neutral null_value q =
        text-Neutral (codes "null") (refl, refl, (refl, refl, (refl, refl, (refl, refl, tt))))
    Quiet-Neutral (bool_value true) q =
        text-Neutral (codes "true") (refl, refl, (refl, refl, (refl, refl, (refl, refl, tt))))
    Quiet-Neutral (bool_value false) q =
        text-Neutral (codes "false")
          (refl, refl, (refl, refl, (refl, refl, (refl, refl, (refl, refl, tt)))))
    Quiet-Neutral (number_value n) q =
        NumberText-Neutral (format_int (int_of n)) (format_int-NumberText (int_of n))
    Quiet-Neutral (string_value s) q = string-Neutral s q
    Quiet-Neutral (array_value xs) q = array-Neutral (encode_items int_of xs) (items-Neutral xs q)
    Quiet-Neutral (object_value fs) q =
        object-Neutral (encode_fields int_of fs) (fields-Neutral fs q)

    items-Neutral : (xs : Items) → QuietItems xs → AllNeutral (encode_items int_of xs)
    items-Neutral no_items q = tt
    items-Neutral (item v xs) (q, qs) = (Quiet-Neutral v q, items-Neutral xs qs)

    fields-Neutral : (fs : Fields) → QuietFields fs → AllFieldsNeutral (encode_fields int_of fs)
    fields-Neutral no_fields q = tt
    fields-Neutral (field k v fs) (h, q, qs) = (h, Quiet-Neutral v q, fields-Neutral fs qs)

  mutual
    unfolding Readable encode_value Quiet

    pub Nested-IsToken :
        (v : Value) → Nested v → Readable int_of float64 v → IsToken (encode_value int_of v)
    Nested-IsToken null_value q r = null-IsToken
    Nested-IsToken (bool_value true) q r = true-IsToken
    Nested-IsToken (bool_value false) q r = false-IsToken
    Nested-IsToken (number_value n) q r =
        NumberText-IsToken (format_int (int_of n)) (format_int-NumberText (int_of n))
    Nested-IsToken (string_value s) q r = string-IsToken s
    Nested-IsToken (array_value xs) q r =
        array-IsToken (encode_items int_of xs) (items-Neutral xs q)
    Nested-IsToken (object_value fs) q r =
        object-IsToken (encode_fields int_of fs) (fields-AllTokens fs r)

    pub fields-AllTokens :
        (fs : Fields) → ReadableFields int_of float64 fs → AllTokens (encode_fields int_of fs)
    fields-AllTokens no_fields r = tt
    fields-AllTokens (field k v fs) (a, q, r, rs) = (Nested-IsToken v q r, fields-AllTokens fs rs)

  pub items-AllElements :
      (xs : Items) → ReadableItems int_of float64 xs → AllElements (encode_items int_of xs)
  unfolding Readable encode_value
  items-AllElements no_items r = tt
  items-AllElements (item v xs) (q, r, rs) = (Nested-IsToken v q r, items-AllElements xs rs)
