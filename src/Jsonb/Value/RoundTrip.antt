-- ===== src/Jsonb/Value/RoundTrip.antt =====
-- `ReadValue` of jsonb/reader.go on what jsonb/encoder.go writes.
use sqlike.Common.{
  ℕ, zero, suc, ◌≤◌, ◌<◌, ◌≡◌, refl, sym, ap, ◌∙◌, Bool, true, false, [], ◌∷◌, ◌++◌, Bytes, arith,
  same, length, append-nil, some,
}
use sqlike.Go.Decimal.{format_int}
use sqlike.Sql.Primitive.{ℤ}
use sqlike.Jsonb.Codec.Text.{format_int-NumberText}
use sqlike.Jsonb.Types.{json_number, is_white_space, value_map}
use sqlike.Jsonb.Outcome.{Outcome, ok}
use sqlike.Jsonb.Reader.{
  Reader, new_reader, next_token, skip_bytes, peek_type, read_boolean, read_null,
}
use sqlike.Jsonb.Reader.View.{at, peek_type-found, then_ok}
use sqlike.Jsonb.Str.{escape_string, encode_string, read_string}
use sqlike.Jsonb.Str.RoundTrip.{read_string-encode_string}
use sqlike.Jsonb.Skip.Token.{number-not_white}
use sqlike.Jsonb.Skip.Object.{members, encode_object}
use sqlike.Jsonb.Array.{read_array, read_object}
use sqlike.Jsonb.Array.Elements as Elements
use sqlike.Jsonb.Array.Elements.{elements, encode_array, read_array-Visits}
use sqlike.Jsonb.Array.Members as Members
use sqlike.Jsonb.Array.Members.{read_object-Visits}
use sqlike.Jsonb.Value.{
  Value, null_value, bool_value, number_value, string_value, array_value, object_value, Items,
  no_items, item, Fields, no_fields, field, snoc, put, with_result, of_type, read_value,
}
use sqlike.Jsonb.Value.Numbers.{read_number_whole}
use sqlike.Jsonb.Value.Encode.{
  encode_value, encode_items, encode_fields, Readable, ReadableItems, ReadableFields,
  items-AllElements, fields-AllTokens,
}
use sqlike.Jsonb.Value.Fold.{
  join, glue, join-glue, put_all, glue_fields, put_all-glue, length_element, length_member_value,
}

-- `peekType` in front of a value.
of_peeked :
    (float64 : Bytes → Outcome ℕ) (f c : ℕ) (t : Bytes)
    → is_white_space c ≡ false
    → read_value float64 (suc f) (new_reader (c ∷ t))
      ≡ of_type float64 (read_value float64 f) (value_map c) (new_reader (c ∷ t))
unfolding read_value
of_peeked float64 f c t w = then_ok peek_type _ (peek_type-found [] c t w)

module _ (int_of : ℕ → ℤ) (float64 : Bytes → Outcome ℕ) where
  -- `ReadValue` returns the value, behind the text.
  abbrev Reads : ℕ → Value → Type 0
  Reads f v =
      read_value float64 f (new_reader (encode_value int_of v))
      ≡ (at (encode_value int_of v) [], ok v)

  Reads-null : (f : ℕ) → Reads (suc f) null_value
  unfolding encode_value read_value of_type is_white_space value_map next_token skip_bytes read_null
      same
  Reads-null f = refl

  Reads-bool : (f : ℕ) (b : Bool) → Reads (suc f) (bool_value b)
  unfolding encode_value read_value of_type is_white_space value_map next_token skip_bytes
      read_boolean same
  Reads-bool f true = refl
  Reads-bool f false = refl

  Reads-number : (f n : ℕ) → float64 (format_int (int_of n)) ≡ ok n → Reads (suc f) (number_value n)
  unfolding encode_value
  Reads-number f n h =
      let i = int_of n in
      let t = format_int-NumberText i in
      let w : format_int i ≡ t.first ∷ t.others = t.splits in
      ap (λ x. read_value float64 (suc f) (new_reader x)) w
      ∙ of_peeked float64 f t.first t.others (number-not_white t.first t.begins)
      ∙ ap (λ y. of_type float64 (read_value float64 f) y (new_reader (t.first ∷ t.others)))
          t.begins
      ∙ ap (λ x. of_type float64 (read_value float64 f) json_number (new_reader x)) (sym w)
      ∙ unfold of_type in ground (arith, read_number_whole (format_int i) [] t, h)

  Reads-string : (f : ℕ) (s : Bytes) → Reads (suc f) (string_value s)
  unfolding encode_value is_white_space value_map of_type encode_string
  Reads-string f s =
      of_peeked float64 f b'"' (escape_string s ++ b'"' ∷ []) refl
      ∙ then_ok read_string _ (
          ap (λ x. read_string (new_reader x)) (sym (append-nil (encode_string s)))
          ∙ read_string-encode_string s [] [])

  -- The callbacks of `ReadValue`.
  abbrev on_element : ℕ → Reader → Items → Outcome Items
  on_element f it acc = with_result (read_value float64 f it).1 (λ x. snoc acc x)

  abbrev on_member : ℕ → Reader → Bytes → Fields → Outcome Fields
  on_member f it k acc = with_result (read_value float64 f it).1 (λ x. put acc k x)

  Reads-array :
      (f : ℕ) (xs : Items)
      → ReadableItems int_of float64 xs
      → Elements.Visits (on_element f) (encode_items int_of xs) no_items xs
      → Reads (suc f) (array_value xs)
  unfolding encode_value is_white_space value_map of_type
  Reads-array f xs r h =
      let ws = encode_items int_of xs in
      of_peeked float64 f b'[' (elements ws) refl
      ∙ then_ok (read_array (some (on_element f)) no_items) _ (
          ap (λ x. read_array (some (on_element f)) no_items (new_reader x))
            (sym (append-nil (encode_array ws)))
          ∙ read_array-Visits (on_element f) ws [] [] no_items xs
              (items-AllElements int_of float64 xs r) h)

  Reads-object :
      (f : ℕ) (fs : Fields)
      → ReadableFields int_of float64 fs
      → Members.Visits (on_member f) (encode_fields int_of fs) no_fields fs
      → Reads (suc f) (object_value fs)
  unfolding encode_value is_white_space value_map of_type
  Reads-object f fs r h =
      let ws = encode_fields int_of fs in
      of_peeked float64 f b'{' (members ws) refl
      ∙ then_ok (read_object (on_member f) no_fields) _ (
          ap (λ x. read_object (on_member f) no_fields (new_reader x))
            (sym (append-nil (encode_object ws)))
          ∙ read_object-Visits (on_member f) ws [] [] no_fields fs
              (fields-AllTokens int_of float64 fs r) h)

  mutual
    unfolding Readable encode_value join put_all glue glue_fields

    reads :
        (v : Value) (f : ℕ)
        → Readable int_of float64 v
        → length (encode_value int_of v) < f
        → Reads f v
    reads v zero r h = absurd (omega arith)
    reads null_value (suc f) r h = Reads-null f
    reads (bool_value b) (suc f) r h = Reads-bool f b
    reads (number_value n) (suc f) r h = Reads-number f n r
    reads (string_value s) (suc f) r h = Reads-string f s
    reads (array_value xs) (suc f) r h =
        Reads-array f xs r (Visits-items xs f no_items xs r (omega arith) (join-glue xs no_items))
    reads (object_value fs) (suc f) r h = Reads-object f fs r (
        Visits-fields fs f no_fields fs r (omega arith)
          (put_all-glue int_of float64 fs no_fields tt r))

    Visits-items :
        (xs : Items) (f : ℕ) (acc u : Items)
        → ReadableItems int_of float64 xs
        → length (elements (encode_items int_of xs)) ≤ f
        → join acc xs ≡ u
        → Elements.Visits (on_element f) (encode_items int_of xs) acc u
    Visits-items no_items f acc u r h e = e
    Visits-items (item v xs) f acc u (q, r, rs) h e =
        let l = length_element (encode_value int_of v) (encode_items int_of xs) in
        (
          snoc acc v,
          ap (λ p. with_result p.1 (λ x. snoc acc x)) (reads v f r (omega (arith, l))),
          Visits-items xs f (snoc acc v) u rs (omega (arith, l)) e,
        )

    Visits-fields :
        (fs : Fields) (f : ℕ) (acc u : Fields)
        → ReadableFields int_of float64 fs
        → length (members (encode_fields int_of fs)) ≤ f
        → put_all acc fs ≡ u
        → Members.Visits (on_member f) (encode_fields int_of fs) acc u
    Visits-fields no_fields f acc u r h e = e
    Visits-fields (field k v fs) f acc u (a, q, r, rs) h e =
        let l = length_member_value k (encode_value int_of v) (encode_fields int_of fs) in
        (
          put acc k v,
          ap (λ p. with_result p.1 (λ x. put acc k x)) (reads v f r (omega (arith, l))),
          Visits-fields fs f (put acc k v) u rs (omega (arith, l)) e,
        )

-- `ReadValue` on the text that the encoder writes for a value returns the value and stops at the end of the
-- text, if each number is the one that `Float64` gives for the decimal text of its integer, the keys of each object
-- are different, no text in an array that stands inside another value holds a bracket, and the fuel is more than
-- the length of the text. Numbers are written as `EncodeInt` writes them; those that `EncodeFloat` writes are not
-- among them.
pub read_value-encode_value :
    (int_of : ℕ → ℤ) (float64 : Bytes → Outcome ℕ) (v : Value) (f : ℕ)
    → Readable int_of float64 v
    → length (encode_value int_of v) < f
    → read_value float64 f (new_reader (encode_value int_of v))
      ≡ (at (encode_value int_of v) [], ok v)
read_value-encode_value int_of float64 v f r h = reads int_of float64 v f r h
