-- ===== src/Jsonb/Codec/Losses.antt =====
-- Values that jsonb/decoder.go does not give back.
use sqlike.Common.{
  ℕ, suc, ◌≡◌, refl, sym, ap, subst, ◌∙◌, true, List, [], ◌∷◌, ◌++◌, none, some, Bytes, codes,
  arith, ◌==◌, same, same_iff, same_self, if◌then◌else◌, length, append_assoc, append-nil,
}
use sqlike.Go.Escape.{AllBytes}
use sqlike.Jsonb.Types.{is_white_space, value_map}
use sqlike.Jsonb.Outcome.{invalid_json, Outcome, ok, spin, next}
use sqlike.Jsonb.Reader.{Reader, M, ◌>>=◌, return, throw, new_reader, next_token}
use sqlike.Jsonb.Reader.View.{at, then_ok, next_token-found}
use sqlike.Jsonb.Number.{is_number, read_number}
use sqlike.Jsonb.Str.{
  backslash, unescape, escape_string, encode_string, read_string_loop, read_string, read_raw_string,
}
use sqlike.Jsonb.Str.Loops.{read_string_loop_unknown}
use sqlike.Jsonb.Skip.{ends_number}
use sqlike.Jsonb.Skip.Token.{IsToken, Digits, number-IsToken, number-ne-n}
use sqlike.Jsonb.Skip.Object.{members, encode_object}
use sqlike.Jsonb.Array.{read_object, read_object_loop}
use sqlike.Jsonb.Array.Elements.{read_bytes-token}
use sqlike.Jsonb.Array.Members.{key-at, read_object-Visits}
use sqlike.Jsonb.Value.Text.{NumberText, in_number-Digits}
use sqlike.Jsonb.Value.Numbers.{read_number_before}
use sqlike.Jsonb.Codec.Types.{
  GoType, float_type, bytes_type, map_type, struct_type, no_types, field_type, Val, nil_val,
  float_val, bytes_val, map_val, struct_val, no_entries, entry, zero_of, fresh,
}
use sqlike.Jsonb.Codec.Encode.{Library, encode, marshal}
use sqlike.Jsonb.Codec.Decode.{
  map_result, or_null, and_then, decode_bytes, decode_pair, decode_member, decode, decode_field,
  unmarshal,
}
use sqlike.Jsonb.Codec.Fits.{Plain, Documented, Nested, Fits}
use sqlike.Jsonb.Codec.Text.{quote-encode_string}
use sqlike.Jsonb.Codec.Tokens.{NotNull, starts-NotNull, Fits-IsToken}
use sqlike.Jsonb.Codec.Leaves.{Returns, Returns-NotNull, unmarshal-Returns}
use sqlike.Jsonb.Codec.Raw.{read_raw_string-Plain}

-- A call behind one that goes on for ever.
next_spin : {A B : Type 0} (p : Reader × Outcome A) (f : A → M B) → p.1 ≡ spin → (next p f).1 ≡ spin
next_spin (r, ok a) f h = cc
next_spin (r, _) f h = ground arith

-- If base64 writes bytes as `null`, then `Unmarshal` makes nil of what `Marshal` wrote for them.
unmarshal-null_bytes :
    (lib : Library) (b : Bytes)
    → Documented lib
    → AllBytes b
    → lib.base64 b ≡ codes "null"
    → unmarshal lib bytes_type (marshal lib (bytes_val b)) ≡ ok nil_val
unfolding marshal encode decode decode_bytes
unmarshal-null_bytes lib b doc h e =
    let n : same (lib.base64 b) (codes "null") ≡ true =
      (same_iff (lib.base64 b) (codes "null")).1 e in
    let w = b'"' ∷ (lib.base64 b ++ b'"' ∷ []) in
    unmarshal-Returns lib bytes_type w nil_val (
      then_ok read_raw_string _ (read_raw_string-Plain (lib.base64 b) (doc.letters b h).0)
      ∙ rw n refl)

-- The text of a number with an exponent behind a capital `E`.
abbrev exponent : Bytes → Bytes → Bytes
exponent m e = m ++ b'E' ∷ e

append-Digits : (v w : Bytes) → Digits v → Digits w → Digits (v ++ w)
append-Digits [] w h k = k
append-Digits (c ∷ v) w (h, i) k = (h, append-Digits v w i k)

exponent-IsToken : (m e : Bytes) → NumberText m → Digits e → IsToken (exponent m e)
unfolding ends_number
exponent-IsToken m e n d =
    subst (λ w. IsToken (exponent w e)) (sym n.splits)
      (number-IsToken n.first (n.others ++ b'E' ∷ e) n.begins
        (append-Digits n.others (b'E' ∷ e) (in_number-Digits n.others n.inside) (refl, d)))

exponent-NotNull : (m e : Bytes) → NumberText m → NotNull (exponent m e)
exponent-NotNull m e n =
    subst (λ w. NotNull (exponent w e)) (sym n.splits)
      (starts-NotNull n.first (n.others ++ b'E' ∷ e) (number-ne-n n.first n.begins))

mantissa_read :
    (lib : Library) (m e : Bytes) (y : ℕ)
    → NumberText m
    → lib.parse_float m ≡ some y
    → (decode lib float_type (float_val 0) (new_reader (exponent m e))).1 ≡ ok (float_val y)
unfolding decode is_number value_map is_white_space
mantissa_read lib m e y n q =
    ap (λ (o : Reader × Outcome Val). o.1)
      (then_ok read_number _ (read_number_before m [] e b'E' n refl refl))
    ∙ rw q refl

-- In a struct of one field, a positive float64 is read back as its mantissa, the text in front of the `E` that `FormatFloat`
-- writes.
pub unmarshal-mantissa :
    (lib : Library) (k m e : Bytes) (x y : ℕ)
    → Documented lib
    → Plain k
    → lib.is_positive x ≡ true
    → lib.format_float x ≡ exponent m e
    → NumberText m
    → Digits e
    → lib.parse_float m ≡ some y
    → unmarshal lib
        (struct_type (field_type k float_type no_types))
        (marshal lib (struct_val (entry k (float_val x) no_entries)))
      ≡ ok (struct_val (entry k (float_val y) no_entries))
unfolding marshal encode decode decode_member members
unmarshal-mantissa lib k m e x y doc p pos f n d q =
    let t = struct_type (field_type k float_type no_types) in
    let kvs : List (Bytes × Bytes) = (k, exponent m e) ∷ [] in
    let cb = decode_member (decode_field lib (field_type k float_type no_types)) in
    let z = entry k (float_val 0) no_entries in
    let u = entry k (float_val y) no_entries in
    let w : encode lib (struct_val (entry k (float_val x) no_entries)) ≡ encode_object kvs =
      rw (pos, f, quote-encode_string lib doc k p) refl in
    let read = mantissa_read lib m e y n q in
    let called : cb (new_reader (exponent m e)) k z ≡ ok u =
      ground (arith, exponent-NotNull m e n, same_self k, read) in
    let r : Returns (map_result struct_val (read_object cb z)) (encode_object kvs) (struct_val u) =
      then_ok (read_object cb z) _ (
        ap (λ x. read_object cb z (new_reader x)) (sym (append-nil (encode_object kvs)))
        ∙ read_object-Visits cb kvs [] [] z u (exponent-IsToken m e n d, tt) (u, called, refl)) in
    ap (unmarshal lib t) w
    ∙ unmarshal-Returns lib t (encode_object kvs) (struct_val u) (
        Returns-NotNull (map_result struct_val (read_object cb z)) (zero_of t) (struct_val u)
          (encode_object kvs) (starts-NotNull b'{' (members kvs) refl) r)

or_null-spin :
    (m : M Val) (u : Val) (w : Bytes)
    → NotNull w
    → (m (new_reader w)).1 ≡ spin
    → (or_null u m (new_reader w)).1 ≡ spin
or_null-spin m u w n h = rw (n, or_null) h

unmarshal-spin :
    (lib : Library) (t : GoType) (w : Bytes)
    → (decode lib t (fresh t) (new_reader w)).1 ≡ spin
    → unmarshal lib t w ≡ spin
unfolding unmarshal
unmarshal-spin lib t w h =
    next_spin (decode lib t (fresh t) (new_reader w))
      (λ v. next_token >>= λ c.
        if c == 0 then return v else throw (invalid_json "Unmarshal" "extra char"))
      h

to_spin : {A : Type 0} (p : Reader × Outcome A) → p.1 ≡ spin → p ≡ (p.0, spin)
to_spin (r, o) h = ap (λ x. (r, x)) h

read_string-unknown :
    (e : ℕ) (rest : Bytes)
    → unescape e ≡ none
    → (read_string (new_reader (b'"' ∷ backslash ∷ e ∷ rest))).1 ≡ spin
unfolding read_string is_white_space escape_string
read_string-unknown e rest u =
    let t = backslash ∷ e ∷ rest in
    let f = suc (length (b'"' ∷ t)) in
    ground (
      arith,
      next_token-found [] b'"' t refl,
      to_spin (read_string_loop f 1 b'"' [] (at (b'"' ∷ []) t))
          (read_string_loop_unknown [] (b'"' ∷ []) rest [] f b'"' e 1 u),
    )

module _ {S : Type 0} (cb : Reader → Bytes → S → Outcome S) where
  -- The loop of `ReadObject` goes on for ever if its callback does so for the first member.
  object_loop-spin :
      (f : ℕ) (k v pre ds : Bytes) (s : S)
      → IsToken v
      → cb (new_reader v) k s ≡ spin
      → (read_object_loop (suc f) cb s (at pre (encode_string k ++ (b':' ∷ (v ++ b'}' ∷ ds))))).1
        ≡ spin
  unfolding read_object_loop is_white_space encode_string
  object_loop-spin f k v pre ds s t h =
      let x = b':' ∷ (v ++ b'}' ∷ ds) in
      let colon = (pre ++ encode_string k) ++ b':' ∷ [] in
      ground (
        arith,
        next_token-found pre b'"' (escape_string k ++ b'"' ∷ x) refl,
        append_assoc (escape_string k) (b'"' ∷ []) x,
        key-at k pre x,
        next_token-found (pre ++ encode_string k) b':' (v ++ b'}' ∷ ds) refl,
        read_bytes-token v colon b'}' ds t refl,
      )

  read_object-spin :
      (k v : Bytes) (s : S)
      → IsToken v
      → cb (new_reader v) k s ≡ spin
      → (read_object cb s (new_reader (encode_object ((k, v) ∷ [])))).1 ≡ spin
  unfolding read_object is_white_space members
  read_object-spin k v s t h =
      let x = encode_string k ++ (b':' ∷ (v ++ b'}' ∷ [])) in
      ap (λ (o : Reader × Outcome S). o.1) (then_ok next_token _ (next_token-found [] b'{' x refl))
      ∙ object_loop-spin (length (b'{' ∷ x)) k v (b'{' ∷ []) [] s t h

-- `Unmarshal` goes on for ever on what `Marshal` wrote for a map with one entry, if `Quote` writes the key with an
-- escape that `ReadString` does not know at its start, such as `\x01`.
pub unmarshal-map_key :
    (lib : Library) (t : GoType) (k rest : Bytes) (e : ℕ) (v : Val)
    → Documented lib
    → Fits lib t v
    → Nested v
    → lib.quote k ≡ b'"' ∷ backslash ∷ e ∷ rest
    → unescape e ≡ none
    → unmarshal lib (map_type t) (marshal lib (map_val (entry k v no_entries))) ≡ spin
unfolding marshal encode decode decode_pair
unmarshal-map_key lib t k rest e v doc h n q u =
    let w = encode lib v in
    let kvs : List (Bytes × Bytes) = (k, w) ∷ [] in
    let cb = decode_pair lib (decode lib t (fresh t)) in
    let called : cb (new_reader w) k no_entries ≡ spin =
      let key : (read_string (new_reader (lib.quote k))).1 ≡ spin =
        ap (λ x. (read_string (new_reader x)).1) q ∙ read_string-unknown e rest u in
      rw (key, and_then) refl in
    let object = read_object-spin cb k w no_entries (Fits-IsToken lib doc t v h n) called in
    let m = map_result map_val (read_object cb no_entries) in
    ap (λ x. unmarshal lib (map_type t) (encode_object x)) (doc.sorts kvs tt)
    ∙ unmarshal-spin lib (map_type t) (encode_object kvs) (
        or_null-spin m nil_val (encode_object kvs) (starts-NotNull b'{' (members kvs) refl) (
          next_spin (read_object cb no_entries (new_reader (encode_object kvs)))
            (λ es. return (map_val es)) object))
