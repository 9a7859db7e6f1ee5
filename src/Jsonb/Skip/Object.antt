-- ===== src/Jsonb/Skip/Object.antt =====
-- `skipObject` on what `EncodeStruct` and `EncodeMap` of jsonb/encoder.go write: the whole object is
-- one value to `skip`.
use sqlike.Common.{
  ℕ, zero, suc, ◌+◌, ◌<◌, ◌≡◌, refl, ap, ◌∙◌, List, [], ◌∷◌, ◌++◌, Bytes, codes, arith,
  if◌then◌else◌, ◌==◌, length, length-append, append_assoc,
}
use sqlike.Jsonb.Outcome.{Outcome, ok, err, plain}
use sqlike.Jsonb.Reader.{Reader, M, ignore, next_token}
use sqlike.Jsonb.Reader.View.{
  at, get_at, next_token-found, peek-found, then_ok, skip_bytes-at, unread_byte-at,
}
use sqlike.Jsonb.Types.{value_map, is_white_space}
use sqlike.Jsonb.Str.{escape_string, encode_string}
use sqlike.Jsonb.Skip.{skip, by_type, skip_object, skip_object_loop, skip_key, skip_boolean}
use sqlike.Jsonb.Skip.Token.{Skips, IsToken, skip-found, skip_string-encode_string}

true-Skips : Skips (codes "true")
unfolding is_white_space value_map by_type skip_boolean
true-Skips zero pre d ds q h = absurd (omega arith)
true-Skips (suc f) pre d ds q h =
    skip-found f pre b't' _ refl
    ∙ ground (
      arith,
      peek-found pre b't' (codes "rue" ++ d ∷ ds) refl,
      skip_bytes-at (codes "true") pre (d ∷ ds),
    )

false-Skips : Skips (codes "false")
unfolding is_white_space value_map by_type skip_boolean
false-Skips zero pre d ds q h = absurd (omega arith)
false-Skips (suc f) pre d ds q h =
    skip-found f pre b'f' _ refl
    ∙ ground (
      arith,
      peek-found pre b'f' (codes "alse" ++ d ∷ ds) refl,
      skip_bytes-at (codes "false") pre (d ∷ ds),
    )

null-Skips : Skips (codes "null")
unfolding is_white_space value_map by_type
null-Skips zero pre d ds q h = absurd (omega arith)
null-Skips (suc f) pre d ds q h =
    skip-found f pre b'n' _ refl ∙ skip_bytes-at (codes "null") pre (d ∷ ds)

pub true-IsToken : IsToken (codes "true")
unfolding is_white_space
true-IsToken = record {
  first = b't';
  others = codes "rue";
  splits = refl;
  not_white = refl;
  not_close = refl;
  skips = true-Skips;
}

pub false-IsToken : IsToken (codes "false")
unfolding is_white_space
false-IsToken = record {
  first = b'f';
  others = codes "alse";
  splits = refl;
  not_white = refl;
  not_close = refl;
  skips = false-Skips;
}

pub null-IsToken : IsToken (codes "null")
unfolding is_white_space
null-IsToken = record {
  first = b'n';
  others = codes "ull";
  splits = refl;
  not_white = refl;
  not_close = refl;
  skips = null-Skips;
}

-- The members of an object behind its opening brace, as `EncodeMap` writes them: the keys in
-- quotes, commas between the members, and the closing brace.
unfoldable pub members : List (Bytes × Bytes) → Bytes
members [] = b'}' ∷ []
members ((k, v) ∷ []) = encode_string k ++ (b':' ∷ (v ++ b'}' ∷ []))
members ((k, v) ∷ kv ∷ kvs) = encode_string k ++ (b':' ∷ (v ++ (b',' ∷ members (kv ∷ kvs))))

abbrev pub encode_object : List (Bytes × Bytes) → Bytes
encode_object kvs = b'{' ∷ members kvs

abbrev pub AllTokens : List (Bytes × Bytes) → Type 0
AllTokens [] = Unit {0}
AllTokens ((k, v) ∷ kvs) = IsToken v × AllTokens kvs

-- One member: the key, the colon, the value and the byte behind it.
skip_key-at :
    (k pre rest : Bytes)
    → skip_key (at (pre ++ b'"' ∷ []) (escape_string k ++ (b'"' ∷ b':' ∷ rest)))
      ≡ (at ((pre ++ encode_string k) ++ b':' ∷ []) rest, ok tt)
unfolding skip_key is_white_space encode_string
skip_key-at k pre rest = ground (
  arith,
  unread_byte-at pre b'"' (escape_string k ++ (b'"' ∷ b':' ∷ rest)),
  skip_string-encode_string k pre (b':' ∷ rest),
  append_assoc (escape_string k) (b'"' ∷ []) (b':' ∷ rest),
  next_token-found (pre ++ encode_string k) b':' rest refl,
)

-- Where the reader is behind the value of a member.
abbrev pub behind : Bytes → Bytes → Bytes → Bytes
behind pre k v = ((pre ++ encode_string k) ++ b':' ∷ []) ++ v

pub length_member :
    (k v t : Bytes) → length v + length t < length (encode_string k ++ (b':' ∷ (v ++ t)))
length_member k v t =
    omega (arith, length-append (encode_string k) (b':' ∷ (v ++ t)), length-append v t)

module _ (f : ℕ) (k v pre ds : Bytes) (token : IsToken v) (enough : length v < f) where
  abbrev start_at : ℕ → Reader
  start_at d = at pre (encode_string k ++ (b':' ∷ (v ++ d ∷ ds)))

  last_member :
      skip_object_loop (suc f) (start_at b'}') ≡ (at (behind pre k v ++ b'}' ∷ []) ds, ok tt)
  unfolding skip encode_string is_white_space
  last_member =
      let t = b':' ∷ (v ++ b'}' ∷ ds) in
      ground (
        arith,
        next_token-found pre b'"' (escape_string k ++ b'"' ∷ t) refl,
        append_assoc (escape_string k) (b'"' ∷ []) t,
        skip_key-at k pre (v ++ b'}' ∷ ds),
        token.skips f ((pre ++ encode_string k) ++ b':' ∷ []) b'}' ds refl enough,
        next_token-found (behind pre k v) b'}' ds refl,
      )

  next_member :
      skip_object_loop (suc f) (start_at b',')
      ≡ skip_object_loop f (at (behind pre k v ++ b',' ∷ []) ds)
  unfolding skip encode_string is_white_space
  next_member =
      let t = b':' ∷ (v ++ b',' ∷ ds) in
      ground (
        arith,
        next_token-found pre b'"' (escape_string k ++ b'"' ∷ t) refl,
        append_assoc (escape_string k) (b'"' ∷ []) t,
        skip_key-at k pre (v ++ b',' ∷ ds),
        token.skips f ((pre ++ encode_string k) ++ b':' ∷ []) b',' ds refl enough,
        next_token-found (behind pre k v) b',' ds refl,
      )

pub members_loop :
    (kvs : List (Bytes × Bytes)) (f : ℕ) (pre rest : Bytes)
    → AllTokens kvs
    → length (members kvs) < f
    → skip_object_loop f (at pre (members kvs ++ rest)) ≡ (at (pre ++ members kvs) rest, ok tt)
unfolding members
members_loop kvs zero pre rest ts h = absurd (omega arith)
members_loop [] (suc f) pre rest ts h =
    unfold skip is_white_space in ground (arith, next_token-found pre b'}' rest refl)
members_loop ((k, v) ∷ []) (suc f) pre rest (t, ts) h = simp append_assoc (
    last_member f k v pre rest t (omega (arith, length_member k v (b'}' ∷ []))) ∙ simp append_assoc)
members_loop ((k, v) ∷ kv ∷ kvs) (suc f) pre rest (t, ts) h =
    let more = members (kv ∷ kvs) in
    simp append_assoc (
      next_member f k v pre (more ++ rest) t (omega (arith, length_member k v (b',' ∷ more)))
      ∙ members_loop (kv ∷ kvs) f (behind pre k v ++ b',' ∷ []) rest ts
          (omega (arith, length_member k v (b',' ∷ more)))
      ∙ simp append_assoc)

-- What `skipObject` says of the byte behind the closing brace.
abbrev verdict : ℕ → Outcome (Unit {0})
verdict d = if d == b'}' then ok tt else err (plain "invalid char on end of object")

skip_object-at :
    (loop : M (Unit {0})) (pre x s : Bytes) (d : ℕ) (ds : Bytes)
    → loop (at (pre ++ b'{' ∷ []) x) ≡ (at s (d ∷ ds), ok tt)
    → skip_object loop (at pre (b'{' ∷ x)) ≡ (at s (d ∷ ds), verdict d)
unfolding skip_object is_white_space
skip_object-at loop pre x s d ds h =
    then_ok next_token _ (next_token-found pre b'{' x refl)
    ∙ then_ok loop _ h
    ∙ ground (arith, get_at s d ds)

ignore-verdict :
    (m : M (Unit {0})) (r s : Reader) (d : ℕ) → m r ≡ (s, verdict d) → ignore m r ≡ (s, ok tt)
ignore-verdict m r s d h = ground arith

object-Skips : (kvs : List (Bytes × Bytes)) → AllTokens kvs → Skips (encode_object kvs)
unfolding value_map is_white_space by_type
object-Skips kvs ts zero pre d ds q h = absurd (omega arith)
object-Skips kvs ts (suc f) pre d ds q h =
    let seen = pre ++ b'{' ∷ [] in
    skip-found f pre b'{' (members kvs ++ d ∷ ds) refl
    ∙ ignore-verdict (skip_object (skip_object_loop f)) _ _ d (
        skip_object-at (skip_object_loop f) pre (members kvs ++ d ∷ ds) (seen ++ members kvs) d ds
          (members_loop kvs f seen (d ∷ ds) ts (omega arith)))
    ∙ ap (λ x. (at x (d ∷ ds), ok tt)) (append_assoc pre (b'{' ∷ []) (members kvs))

-- An encoded object whose values are such texts, at any nesting.
pub object-IsToken : (kvs : List (Bytes × Bytes)) → AllTokens kvs → IsToken (encode_object kvs)
unfolding is_white_space
object-IsToken kvs ts = record {
  first = b'{';
  others = members kvs;
  splits = refl;
  not_white = refl;
  not_close = refl;
  skips = object-Skips kvs ts;
}
