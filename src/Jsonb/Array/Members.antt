-- ===== src/Jsonb/Array/Members.antt =====
-- `ReadObject` on what `EncodeMap` and `EncodeStruct` of jsonb/encoder.go write.
use sqlike.Common.{
  ℕ, zero, suc, ◌<◌, ◌≡◌, refl, sym, ap, ◌∙◌, List, [], ◌∷◌, ◌++◌, Bytes, arith, length,
  length-append, append_assoc,
}
use sqlike.Jsonb.Outcome.{Outcome, ok}
use sqlike.Jsonb.Reader.{Reader, next_token, new_reader, unread_byte}
use sqlike.Jsonb.Reader.View.{at, next_token-found, then_ok, unread_byte-at}
use sqlike.Jsonb.Types.{is_white_space}
use sqlike.Jsonb.Str.{escape_string, encode_string, read_string}
use sqlike.Jsonb.Str.RoundTrip.{read_string-encode_string}
use sqlike.Jsonb.Skip.Token.{IsToken}
use sqlike.Jsonb.Skip.Object.{members, encode_object, AllTokens, behind, length_member}
use sqlike.Jsonb.Array.Elements.{read_bytes-token}
use sqlike.Jsonb.Array.{read_object, read_object_loop}

-- The key of a member, up to its colon.
pub key-at :
    (k pre x : Bytes)
    → read_string (unread_byte (at (pre ++ b'"' ∷ []) (escape_string k ++ b'"' ∷ x)))
      ≡ (at (pre ++ encode_string k) x, ok k)
unfolding encode_string
key-at k pre x =
    ap read_string (unread_byte-at pre b'"' (escape_string k ++ b'"' ∷ x))
    ∙ ap (λ y. read_string (at pre (b'"' ∷ y))) (sym (append_assoc (escape_string k) (b'"' ∷ []) x))
    ∙ read_string-encode_string k pre x

module _ {S : Type 0} (cb : Reader → Bytes → S → Outcome S) where
  -- The callback returns on each member in order, and the variables of the caller go from `s` to `t`.
  abbrev pub Visits : List (Bytes × Bytes) → S → S → Type 0
  Visits [] s t = s ≡ t
  Visits ((k, v) ∷ kvs) s t = (u : S) × (cb (new_reader v) k s ≡ ok u) × Visits kvs u t

  module _ (f : ℕ) (k v pre ds : Bytes) (s u : S) (token : IsToken v)
      (called : cb (new_reader v) k s ≡ ok u) where
    abbrev start_at : ℕ → Reader
    start_at d = at pre (encode_string k ++ (b':' ∷ (v ++ d ∷ ds)))

    read_last :
        read_object_loop (suc f) cb s (start_at b'}') ≡ (at (behind pre k v ++ b'}' ∷ []) ds, ok u)
    unfolding read_object_loop is_white_space encode_string
    read_last =
        let x = b':' ∷ (v ++ b'}' ∷ ds) in
        let colon = (pre ++ encode_string k) ++ b':' ∷ [] in
        ground (
          arith,
          next_token-found pre b'"' (escape_string k ++ b'"' ∷ x) refl,
          append_assoc (escape_string k) (b'"' ∷ []) x,
          key-at k pre x,
          next_token-found (pre ++ encode_string k) b':' (v ++ b'}' ∷ ds) refl,
          read_bytes-token v colon b'}' ds token refl,
          next_token-found (behind pre k v) b'}' ds refl,
        )

    read_next :
        read_object_loop (suc f) cb s (start_at b',')
        ≡ read_object_loop f cb u (at (behind pre k v ++ b',' ∷ []) ds)
    unfolding read_object_loop is_white_space encode_string
    read_next =
        let x = b':' ∷ (v ++ b',' ∷ ds) in
        let colon = (pre ++ encode_string k) ++ b':' ∷ [] in
        ground (
          arith,
          next_token-found pre b'"' (escape_string k ++ b'"' ∷ x) refl,
          append_assoc (escape_string k) (b'"' ∷ []) x,
          key-at k pre x,
          next_token-found (pre ++ encode_string k) b':' (v ++ b',' ∷ ds) refl,
          read_bytes-token v colon b',' ds token refl,
          next_token-found (behind pre k v) b',' ds refl,
        )

  members_loop :
      (kvs : List (Bytes × Bytes)) (f : ℕ) (pre rest : Bytes) (s u : S)
      → AllTokens kvs
      → Visits kvs s u
      → length (members kvs) < f
      → read_object_loop f cb s (at pre (members kvs ++ rest))
        ≡ (at (pre ++ members kvs) rest, ok u)
  unfolding members
  members_loop kvs zero pre rest s u ts q h = absurd (omega arith)
  members_loop [] (suc f) pre rest s u ts q h =
      rw q
        unfold read_object_loop is_white_space in
          ground (arith, next_token-found pre b'}' rest refl)
  members_loop ((k, v) ∷ []) (suc f) pre rest s u (t, ts) (x, q, e) h =
      simp append_assoc (read_last f k v pre rest s u t (q ∙ ap ok e) ∙ simp append_assoc)
  members_loop ((k, v) ∷ kv ∷ kvs) (suc f) pre rest s u (t, ts) (x, q, e) h =
      let more = members (kv ∷ kvs) in
      simp append_assoc (
        read_next f k v pre (more ++ rest) s x t q
        ∙ members_loop (kv ∷ kvs) f (behind pre k v ++ b',' ∷ []) rest x u ts e
            (omega (arith, length_member k v (b',' ∷ more)))
        ∙ simp append_assoc)

  pub read_object-Visits :
      (kvs : List (Bytes × Bytes)) (pre rest : Bytes) (s u : S)
      → AllTokens kvs
      → Visits kvs s u
      → read_object cb s (at pre (encode_object kvs ++ rest))
        ≡ (at (pre ++ encode_object kvs) rest, ok u)
  unfolding read_object is_white_space
  read_object-Visits kvs pre rest s u ts q =
      let seen = pre ++ b'{' ∷ [] in
      let x = members kvs ++ rest in
      then_ok next_token _ (next_token-found pre b'{' x refl)
      ∙ members_loop kvs (suc (length (seen ++ x))) seen rest s u ts q
          (omega (arith, length-append seen x, length-append (members kvs) rest))
      ∙ ap (λ y. (at y rest, ok u)) (append_assoc pre (b'{' ∷ []) (members kvs))

module _ {S : Type 0} (g : Reader → Bytes → S → S) where
  -- A callback that does not fail.
  abbrev pub callback : Reader → Bytes → S → Outcome S
  callback it k s = ok (g it k s)

  -- The variables of the caller after a call for each member in order.
  pub visit : List (Bytes × Bytes) → S → S
  visit [] s = s
  visit ((k, v) ∷ kvs) s = visit kvs (g (new_reader v) k s)

  visit-Visits : (kvs : List (Bytes × Bytes)) (s : S) → Visits callback kvs s (visit kvs s)
  unfolding visit
  visit-Visits [] s = refl
  visit-Visits ((k, v) ∷ kvs) s =
      (g (new_reader v) k s, refl, visit-Visits kvs (g (new_reader v) k s))

  -- `ReadObject` on an encoded object, whose values are texts that `skip` takes as a whole, with a
  -- callback that does not fail: it calls the callback once for each member, in order, with the key as
  -- it was before it was escaped and a reader of exactly the value's bytes, and stops behind the
  -- closing brace.
  pub read_object-encode_object :
      (kvs : List (Bytes × Bytes)) (pre rest : Bytes) (s : S)
      → AllTokens kvs
      → read_object callback s (at pre (encode_object kvs ++ rest))
        ≡ (at (pre ++ encode_object kvs) rest, ok (visit kvs s))
  read_object-encode_object kvs pre rest s ts =
      read_object-Visits callback kvs pre rest s (visit kvs s) ts (visit-Visits kvs s)
