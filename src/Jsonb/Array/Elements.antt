-- ===== src/Jsonb/Array/Elements.antt =====
-- `ReadArray` and `ReadObject` on what the encoder writes.
use sqlike.Common.{
  ℕ, zero, suc, ◌<◌, ◌≡◌, refl, sym, ap, ◌∙◌, true, false, List, [], ◌∷◌, ◌++◌, Bytes, arith, ◌==◌,
  length, length-append, append_assoc, some,
}
use sqlike.Jsonb.Outcome.{Outcome, ok}
use sqlike.Jsonb.Reader.{Reader, next_token, new_reader}
use sqlike.Jsonb.Reader.View.{at, next_token-found, then_ok, unread_byte-at, slice}
use sqlike.Jsonb.Types.{is_white_space}
use sqlike.Jsonb.Skip.{read_bytes}
use sqlike.Jsonb.Skip.Token.{delimiter, IsToken}
use sqlike.Jsonb.Skip.Object.{encode_object, AllTokens, object-IsToken}
use sqlike.Jsonb.Array.{read_array, read_array_loop}

-- `ReadBytes` returns exactly the bytes of the value.
pub read_bytes-token :
    (w pre : Bytes) (d : ℕ) (ds : Bytes)
    → IsToken w
    → delimiter d ≡ true
    → read_bytes (at pre (w ++ d ∷ ds)) ≡ (at (pre ++ w) (d ∷ ds), ok w)
unfolding read_bytes
read_bytes-token w pre d ds t q = ground (
  arith,
  t.skips (suc (length (pre ++ (w ++ d ∷ ds)))) pre d ds q
      (omega (arith, length-append pre (w ++ d ∷ ds), length-append w (d ∷ ds))),
  slice pre w (d ∷ ds),
  append_assoc pre w (d ∷ ds),
  length-append pre w,
)

-- `ReadBytes` returns exactly the bytes of an encoded object, and stops behind it, if its values are
-- texts that `skip` takes as a whole and a byte that may follow a value stands behind it.
read_bytes-encode_object :
    (kvs : List (Bytes × Bytes)) (pre : Bytes) (d : ℕ) (ds : Bytes)
    → AllTokens kvs
    → delimiter d ≡ true
    → read_bytes (at pre (encode_object kvs ++ d ∷ ds))
      ≡ (at (pre ++ encode_object kvs) (d ∷ ds), ok (encode_object kvs))
read_bytes-encode_object kvs pre d ds ts q =
    read_bytes-token (encode_object kvs) pre d ds (object-IsToken kvs ts) q

-- The elements of an array behind its opening bracket, as `EncodeArray` writes them.
unfoldable pub elements : List Bytes → Bytes
elements [] = b']' ∷ []
elements (w ∷ []) = w ++ b']' ∷ []
elements (w ∷ v ∷ ws) = w ++ (b',' ∷ elements (v ∷ ws))

abbrev pub encode_array : List Bytes → Bytes
encode_array ws = b'[' ∷ elements ws

abbrev pub AllElements : List Bytes → Type 0
AllElements [] = Unit {0}
AllElements (w ∷ ws) = IsToken w × AllElements ws

-- What stands behind the first element.
behind : List Bytes → Bytes
behind [] = b']' ∷ []
behind (v ∷ ws) = b',' ∷ elements (v ∷ ws)

elements_split :
    (w : Bytes) (ws : List Bytes) (rest : Bytes)
    → elements (w ∷ ws) ++ rest ≡ w ++ (behind ws ++ rest)
unfolding elements behind
elements_split w [] rest = append_assoc w (b']' ∷ []) rest
elements_split w (v ∷ ws) rest = append_assoc w (b',' ∷ elements (v ∷ ws)) rest

module _ {S : Type 0} (cb : Reader → S → Outcome S) where
  -- The callback returns on each element in order, and the variables of the caller go from `s` to `t`.
  abbrev pub Visits : List Bytes → S → S → Type 0
  Visits [] s t = s ≡ t
  Visits (w ∷ ws) s t = (u : S) × (cb (new_reader w) s ≡ ok u) × Visits ws u t

  read_last :
      (f : ℕ) (w pre ds : Bytes) (s u : S)
      → IsToken w
      → cb (new_reader w) s ≡ ok u
      → read_array_loop (suc f) (some cb) s (at pre (w ++ b']' ∷ ds))
        ≡ (at ((pre ++ w) ++ b']' ∷ []) ds, ok u)
  unfolding read_array_loop is_white_space
  read_last f w pre ds s u t k =
      ground
        (arith, read_bytes-token w pre b']' ds t refl, next_token-found (pre ++ w) b']' ds refl)

  read_next :
      (f : ℕ) (w pre ds : Bytes) (s u : S)
      → IsToken w
      → cb (new_reader w) s ≡ ok u
      → read_array_loop (suc f) (some cb) s (at pre (w ++ b',' ∷ ds))
        ≡ read_array_loop f (some cb) u (at ((pre ++ w) ++ b',' ∷ []) ds)
  unfolding read_array_loop is_white_space
  read_next f w pre ds s u t k =
      ground
        (arith, read_bytes-token w pre b',' ds t refl, next_token-found (pre ++ w) b',' ds refl)

  elements_loop :
      (w : Bytes) (ws : List Bytes) (f : ℕ) (pre rest : Bytes) (s u : S)
      → AllElements (w ∷ ws)
      → Visits (w ∷ ws) s u
      → length (elements (w ∷ ws)) < f
      → read_array_loop f (some cb) s (at pre (elements (w ∷ ws) ++ rest))
        ≡ (at (pre ++ elements (w ∷ ws)) rest, ok u)
  unfolding elements
  elements_loop w ws zero pre rest s u ts k h = absurd (omega arith)
  elements_loop w [] (suc f) pre rest s u (t, ts) (x, k, e) h =
      simp append_assoc (read_last f w pre rest s u t (k ∙ ap ok e) ∙ simp append_assoc)
  elements_loop w (v ∷ ws) (suc f) pre rest s u (t, ts) (x, k, e) h = simp append_assoc (
      read_next f w pre (elements (v ∷ ws) ++ rest) s x t k
      ∙ elements_loop v ws f ((pre ++ w) ++ b',' ∷ []) rest x u ts e
          (omega (arith, length-append w (b',' ∷ elements (v ∷ ws))))
      ∙ simp append_assoc)

  -- `ReadArray` behind the opening bracket, in front of an element.
  enter :
      (c : ℕ) (cs pre : Bytes) (s : S)
      → is_white_space c ≡ false
      → (c == b']') ≡ false
      → read_array (some cb) s (at pre (b'[' ∷ c ∷ cs))
        ≡ read_array_loop
            (suc (length ((pre ++ b'[' ∷ []) ++ c ∷ cs)))
            (some cb)
            s
            (at (pre ++ b'[' ∷ []) (c ∷ cs))
  unfolding read_array is_white_space
  enter c cs pre s white close =
      then_ok next_token _ (next_token-found pre b'[' (c ∷ cs) refl)
      ∙ then_ok next_token _ (next_token-found (pre ++ b'[' ∷ []) c cs white)
      ∙ ground (arith, unread_byte-at (pre ++ b'[' ∷ []) c cs)

  pub read_array-Visits :
      (ws : List Bytes) (pre rest : Bytes) (s u : S)
      → AllElements ws
      → Visits ws s u
      → read_array (some cb) s (at pre (encode_array ws ++ rest))
        ≡ (at (pre ++ encode_array ws) rest, ok u)
  unfolding read_array is_white_space elements
  read_array-Visits [] pre rest s u ts k = ground (
    arith,
    next_token-found pre b'[' (b']' ∷ rest) refl,
    next_token-found (pre ++ b'[' ∷ []) b']' rest refl,
    append_assoc pre (b'[' ∷ []) (b']' ∷ []),
  )
  read_array-Visits (w ∷ ws) pre rest s u ts k =
      let t = ts.0 in
      let seen = pre ++ b'[' ∷ [] in
      let e = elements_split w ws rest ∙ ap (λ v. v ++ (behind ws ++ rest)) t.splits in
      ap (λ x. read_array (some cb) s (at pre (b'[' ∷ x))) e
      ∙ enter t.first (t.others ++ (behind ws ++ rest)) pre s t.not_white t.not_close
      ∙ ap (λ x. read_array_loop (suc (length (seen ++ x))) (some cb) s (at seen x)) (sym e)
      ∙ elements_loop w ws (suc (length (seen ++ (elements (w ∷ ws) ++ rest)))) seen rest s u ts k (
          omega (
            arith,
            length-append seen (elements (w ∷ ws) ++ rest),
            length-append (elements (w ∷ ws)) rest,
          ))
      ∙ ap (λ x. (at x rest, ok u)) (append_assoc pre (b'[' ∷ []) (elements (w ∷ ws)))

module _ {S : Type 0} (g : Reader → S → S) where
  -- A callback that does not fail.
  abbrev pub callback : Reader → S → Outcome S
  callback it s = ok (g it s)

  -- The variables of the caller after a call for each element in order, with a reader of its bytes.
  pub visit : List Bytes → S → S
  visit [] s = s
  visit (w ∷ ws) s = visit ws (g (new_reader w) s)

  visit-Visits : (ws : List Bytes) (s : S) → Visits callback ws s (visit ws s)
  unfolding visit
  visit-Visits [] s = refl
  visit-Visits (w ∷ ws) s = (g (new_reader w) s, refl, visit-Visits ws (g (new_reader w) s))

  -- `ReadArray` on an encoded array, whose elements are texts that `skip` takes as a whole, with a
  -- callback that does not fail: it calls the callback once for each element, in order, with a reader
  -- of exactly the element's bytes, and stops behind the closing bracket.
  pub read_array-encode_array :
      (ws : List Bytes) (pre rest : Bytes) (s : S)
      → AllElements ws
      → read_array (some callback) s (at pre (encode_array ws ++ rest))
        ≡ (at (pre ++ encode_array ws) rest, ok (visit ws s))
  read_array-encode_array ws pre rest s ts =
      read_array-Visits callback ws pre rest s (visit ws s) ts (visit-Visits ws s)
