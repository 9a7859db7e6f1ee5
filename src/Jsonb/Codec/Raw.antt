-- ===== src/Jsonb/Codec/Raw.antt =====
-- `DecodeByte` of jsonb/decoder.go, over `ReadRawString` of jsonb/string.go.
use sqlike.Common.{
  ℕ, zero, suc, ◌+◌, ◌<◌, ◌≡◌, refl, sym, ap, ◌∙◌, true, false, [], ◌∷◌, ◌++◌, some, Bytes, codes,
  arith, ltb, ◌==◌, same, same_iff, length, length-append, append_assoc, append-nil, take, drop,
  get_elem?, inl, inr, Bool-cases,
}
use sqlike.Go.Escape.{AllBytes}
use sqlike.Jsonb.Types.{is_white_space}
use sqlike.Jsonb.Outcome.{ok}
use sqlike.Jsonb.Reader.{Reader, new_reader, next_token, skip_bytes, read_null}
use sqlike.Jsonb.Reader.View.{at, in_bounds, get_at, next_token-found, then_ok, slice}
use sqlike.Jsonb.Str.{read_raw_string, read_raw_string_loop}
use sqlike.Jsonb.Codec.Types.{nil_val, bytes_val}
use sqlike.Jsonb.Codec.Encode.{Library, encode}
use sqlike.Jsonb.Codec.Decode.{decode_bytes}
use sqlike.Jsonb.Codec.Fits.{is_plain, Plain, Documented}

raw_go :
    (f i c : ℕ) (r : Reader)
    → ltb i r.len ≡ true
    → get_elem? r.b i ≡ some c
    → (c == b'"') ≡ false
    → read_raw_string_loop (suc f) i r ≡ read_raw_string_loop f (i + 1) r
unfolding read_raw_string_loop
raw_go f i c r b g q = ground arith

raw_stop :
    (f i : ℕ) (r : Reader)
    → ltb i r.len ≡ true
    → get_elem? r.b i ≡ some b'"'
    → read_raw_string_loop (suc f) i r ≡ (record r { pos = i + 1 }, ok (drop r.pos (take i r.b)))
unfolding read_raw_string_loop
raw_stop f i r b g = ground arith

plain-not_quote : (c : ℕ) → is_plain c ≡ true → (c == b'"') ≡ false
plain-not_quote c h = ground arith

module _ (r : Reader) (whole : r.len ≡ length r.b) where
  -- The loop goes over plain text up to the quote behind it.
  raw_over :
      (w seen rest : Bytes) (f i : ℕ)
      → r.b ≡ seen ++ (w ++ b'"' ∷ rest)
      → i ≡ length seen
      → Plain w
      → length w < f
      → read_raw_string_loop f i r
        ≡ (record r { pos = i + length w + 1 }, ok (drop r.pos (take (i + length w) r.b)))
  raw_over w seen rest zero i e k p h = absurd (omega arith)
  raw_over [] seen rest (suc f) i e k p h =
      let b : ltb i r.len ≡ true = rw (whole, e, k) (in_bounds seen b'"' rest) in
      let g : get_elem? r.b i ≡ some b'"' = rw (e, k) (get_at seen b'"' rest) in
      let z : i ≡ i + 0 = omega arith in
      raw_stop f i r b g
      ∙ ap (λ (j : ℕ). (record r { pos = j + 1 }, ok (drop r.pos (take j r.b)))) z
  raw_over (c ∷ w) seen rest (suc f) i e k (q, p) h =
      let t = w ++ b'"' ∷ rest in
      let b : ltb i r.len ≡ true = rw (whole, e, k) (in_bounds seen c t) in
      let g : get_elem? r.b i ≡ some c = rw (e, k) (get_at seen c t) in
      let z : i + 1 + length w ≡ i + suc (length w) = omega arith in
      raw_go f i c r b g (plain-not_quote c q)
      ∙ raw_over w (seen ++ c ∷ []) rest f (i + 1) (e ∙ sym (append_assoc seen (c ∷ []) t))
          (omega (arith, length-append seen (c ∷ []))) p (omega arith)
      ∙ ap (λ (j : ℕ). (record r { pos = j + 1 }, ok (drop r.pos (take j r.b)))) z

-- `ReadRawString` returns plain text in quotes.
pub read_raw_string-Plain :
    (w : Bytes)
    → Plain w
    → read_raw_string (new_reader (b'"' ∷ (w ++ b'"' ∷ [])))
      ≡ (at (b'"' ∷ (w ++ b'"' ∷ [])) [], ok w)
unfolding read_raw_string is_white_space
read_raw_string-Plain w p =
    let t = w ++ b'"' ∷ [] in
    let r = at (b'"' ∷ []) t in
    then_ok next_token _ (next_token-found [] b'"' t refl)
    ∙ raw_over r refl w (b'"' ∷ []) [] (suc r.len) 1 refl refl p
        (omega (arith, length-append w (b'"' ∷ [])))
    ∙ ground (arith, slice (b'"' ∷ []) w (b'"' ∷ []), append-nil t, length-append w (b'"' ∷ []))

pub decode_bytes-null :
    (lib : Library)
    → decode_bytes lib (new_reader (codes "null")) ≡ (at (codes "null") [], ok nil_val)
unfolding decode_bytes read_raw_string next_token is_white_space read_null skip_bytes same
decode_bytes-null lib = refl

module _ (lib : Library) (doc : Documented lib) where
  pub decode_bytes-Plain :
      (b : Bytes)
      → AllBytes b
      → same (lib.base64 b) (codes "null") ≡ false
      → decode_bytes lib (new_reader (encode lib (bytes_val b)))
        ≡ (at (encode lib (bytes_val b)) [], ok (bytes_val b))
  unfolding decode_bytes encode
  decode_bytes-Plain b h n =
      then_ok read_raw_string _ (read_raw_string-Plain (lib.base64 b) (doc.letters b h).0)
      ∙ elim (Bool-cases (same (lib.base64 b) [])) [
        | inl e ↦
            let s : some [] ≡ some b =
              sym doc.decodes_nothing
              ∙ ap lib.from_base64 (sym ((same_iff (lib.base64 b) []).0 e))
              ∙ doc.decodes b h in
            let v : bytes_val [] ≡ bytes_val b = cc s in
            rw (n, e) (ap (λ x. (at (b'"' ∷ (lib.base64 b ++ b'"' ∷ [])) [], ok x)) v)
        | inr e ↦ rw (n, e, doc.decodes b h) refl
      ]
