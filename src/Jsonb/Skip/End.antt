-- ===== src/Jsonb/Skip/End.antt =====
-- `ReadBytes` where the input ends behind the value, or before it: jsonb/skip.go and jsonb/number.go
-- look for a byte that is not there.
use sqlike.Common.{
  ℕ, zero, suc, ◌<◌, ◌≡◌, refl, sym, ap, ◌∙◌, List, [], ◌∷◌, ◌++◌, none, Bytes, arith, ltb-false,
  length, get_elem?, length-append, append_assoc, append-nil,
}
use sqlike.Jsonb.Outcome.{ok, panic}
use sqlike.Jsonb.Reader.{Reader, M, ignore, next_token}
use sqlike.Jsonb.Reader.View.{
  at, over, shift, get_at, in_bounds, next_token-found, next_token-at, then_ok, slice,
}
use sqlike.Jsonb.Types.{json_number, value_map, is_white_space}
use sqlike.Jsonb.Skip.{
  skip, by_type, skip_object, skip_object_loop, skip_number, skip_number_loop, read_bytes,
}
use sqlike.Jsonb.Skip.Token.{Digits, skip-found, number_go, number-not_white, number-ne-n}
use sqlike.Jsonb.Skip.Object.{members, members_loop, encode_object, AllTokens}

get_end : (s : Bytes) → get_elem? s (length s) ≡ none
get_end [] = refl
get_end (x ∷ s) = get_end s

get_at_end : (s : Bytes) → get_elem? (s ++ []) (length s) ≡ none
get_at_end s = rw append-nil (get_end s)

skip_object_end :
    (loop : M (Unit {0})) (pre x s : Bytes)
    → loop (at (pre ++ b'{' ∷ []) x) ≡ (at s [], ok tt)
    → skip_object loop (at pre (b'{' ∷ x)) ≡ (at s [], panic)
unfolding skip_object is_white_space
skip_object_end loop pre x s h =
    then_ok next_token _ (next_token-found pre b'{' x refl)
    ∙ then_ok loop _ h
    ∙ ground (arith, get_at_end s)

ignore_panic : (m : M (Unit {0})) (r s : Reader) → m r ≡ (s, panic) → ignore m r ≡ (s, panic)
ignore_panic m r s h = ground arith

read_bytes_panic : (r s : Reader) → skip (suc r.len) r ≡ (s, panic) → (read_bytes r).1 ≡ panic
unfolding read_bytes
read_bytes_panic r s h = ground arith

-- `ReadBytes` panics on an encoded object that ends the input, whose values are texts that `skip`
-- takes as a whole: `skipObject` indexes the buffer behind the closing brace.
pub read_bytes_object_end :
    (kvs : List (Bytes × Bytes)) (pre : Bytes)
    → AllTokens kvs
    → (read_bytes (at pre (encode_object kvs))).1 ≡ panic
unfolding value_map is_white_space by_type
read_bytes_object_end kvs pre ts =
    let seen = pre ++ b'{' ∷ [] in
    let f = length (pre ++ encode_object kvs) in
    read_bytes_panic (at pre (encode_object kvs)) _ (
      skip-found f pre b'{' (members kvs) refl
      ∙ ignore_panic (skip_object (skip_object_loop f)) _ _ (
          skip_object_end (skip_object_loop f) pre (members kvs) (seen ++ members kvs) (
            ap (λ x. skip_object_loop f (at seen x)) (sym (append-nil (members kvs)))
            ∙ members_loop kvs f seen [] ts
                (omega (arith, length-append pre (encode_object kvs))))))

-- The loop of `skipNumber` over digits up to the end of the input moves nothing.
Digits-end :
    (w seen : Bytes) (f p : ℕ)
    → Digits w
    → length w < f
    → skip_number_loop f (length seen) (over seen w p) ≡ (over seen w p, ok tt)
Digits-end w seen zero p a h = absurd (omega arith)
Digits-end [] seen (suc f) p a h =
    unfold skip_number_loop in
    ground
      (arith, ltb-false (length seen) (length (seen ++ [])) (omega (arith, length-append seen [])))
Digits-end (x ∷ w) seen (suc f) p (ax, a) h =
    number_go f (length seen) x (over seen (x ∷ w) p) (in_bounds seen x w) (get_at seen x w) ax
    ∙ shift (skip_number_loop f) seen x w p
    ∙ Digits-end w (seen ++ x ∷ []) f p a (omega arith)
    ∙ rw append_assoc

skip_number_end :
    (f x : ℕ) (w pre : Bytes)
    → value_map x ≡ json_number
    → Digits w
    → skip (suc f) (at pre (x ∷ w)) ≡ (at (pre ++ x ∷ []) w, ok tt)
unfolding skip_number by_type
skip_number_end f x w pre v a =
    let seen = pre ++ x ∷ [] in
    skip-found f pre x w (number-not_white x v)
    ∙ ground (
      arith,
      number-ne-n x v,
      next_token-found pre x w (number-not_white x v),
      Digits-end w seen (suc (length (seen ++ w))) (length seen) a
          (omega (arith, length-append seen w)),
    )

-- A number that ends the input, a first byte of a number and bytes that do not end one, is cut short
-- by `ReadBytes`: only its first byte is returned, and the rest stays unread.
read_bytes_number_end :
    (x : ℕ) (w pre : Bytes)
    → value_map x ≡ json_number
    → Digits w
    → read_bytes (at pre (x ∷ w)) ≡ (at (pre ++ x ∷ []) w, ok (x ∷ []))
unfolding read_bytes
read_bytes_number_end x w pre v a = ground (
  arith,
  skip_number_end (length (pre ++ x ∷ w)) x w pre v a,
  slice pre (x ∷ []) w,
  append_assoc pre (x ∷ []) w,
  length-append pre (x ∷ []),
)

-- `ReadBytes` panics at the end of an input that is not empty: the position goes back by one.
read_bytes_end : (pre : Bytes) (c : ℕ) → (read_bytes (at (pre ++ c ∷ []) [])).1 ≡ panic
unfolding read_bytes skip value_map by_type
read_bytes_end pre c = ground (arith, next_token-at (pre ++ c ∷ []) [], length-append pre (c ∷ []))
