-- ===== src/Jsonb/Str/RoundTrip.antt =====
-- `ReadString` on what `EncodeString` of jsonb/encoder.go writes.
use sqlike.Common.{
  ℕ, zero, suc, ◌+◌, ◌≤◌, ◌<◌, ◌≡◌, refl, ap, ◌∙◌, inl, inr, [], ◌∷◌, ◌++◌, some, Bytes, arith,
  length, get_elem?, length-append, get_elem?-append, append_assoc, append-nil,
}
use sqlike.Jsonb.Outcome.{ok}
use sqlike.Jsonb.Types.{is_white_space}
use sqlike.Jsonb.Reader.View.{at, after, get_at, in_bounds, next_token-found, over}
use sqlike.Jsonb.Str.Steps.{read_plain, read_quote, read_escape, escape_char-cases, letter}
use sqlike.Jsonb.Str.{
  backslash, read_string, encode_string, read_string_loop, escape_char, escape_string,
}

pub get_next :
    (seen : Bytes) (x y : ℕ) (t : Bytes) → get_elem? (seen ++ x ∷ y ∷ t) (length seen + 1) ≡ some y
get_next seen x y t = get_elem?-append seen (x ∷ y ∷ t) 1

regroup :
    (f i c : ℕ) (out seen w t : Bytes) (p : ℕ)
    → i ≡ length (seen ++ w)
    → read_string_loop f i c out (over seen (w ++ t) p)
      ≡ read_string_loop f (length (seen ++ w)) c out (over (seen ++ w) t p)
regroup f i c out seen w t p h = rw (append_assoc, h)

-- One byte of the text: the loop appends it.
pub read-escape_char :
    (f c x p : ℕ) (out seen t : Bytes)
    → (d : ℕ) × (read_string_loop (suc f) (length seen) c out (over seen (escape_char x ++ t) p)
        ≡ read_string_loop f
            (length (seen ++ escape_char x))
            d
            (out ++ x ∷ [])
            (over (seen ++ escape_char x) t p))
read-escape_char f c x p out seen t = elim (escape_char-cases x) [
  | inl (e, u) ↦ (
    backslash,
    rw e (
        read_escape f (length seen) c backslash out (over seen (backslash ∷ letter x ∷ t) p)
          (in_bounds seen backslash (letter x ∷ t)) (get_at seen backslash (letter x ∷ t))
          (letter x) x refl (get_next seen backslash (letter x) t) u
        ∙ regroup f (length seen + 2) backslash (out ++ x ∷ []) seen (backslash ∷ letter x ∷ []) t p
            (omega (arith, length-append seen (backslash ∷ letter x ∷ [])))),
  )
  | inr (e, q, b) ↦ (
    x,
    rw e (
        read_plain f (length seen) c x out (over seen (x ∷ t) p) (in_bounds seen x t)
          (get_at seen x t) q b
        ∙ regroup f (length seen + 1) x (out ++ x ∷ []) seen (x ∷ []) t p
            (omega (arith, length-append seen (x ∷ [])))),
  )
]

length-escape_char : (c : ℕ) → 0 < length (escape_char c)
unfolding escape_char
length-escape_char c = ground arith

length-escape_string : (s : Bytes) → length s ≤ length (escape_string s)
unfolding escape_string
length-escape_string [] = omega arith
length-escape_string (c ∷ s) = omega (
  arith,
  length-append (escape_char c) (escape_string s),
  length-escape_char c,
  length-escape_string s,
)

-- The loop reads an escaped text up to the quote behind it.
read-escape_string :
    (s seen rest out : Bytes) (f c p : ℕ)
    → length s < f
    → read_string_loop f (length seen) c out (over seen (escape_string s ++ b'"' ∷ rest) p)
      ≡ (at ((seen ++ escape_string s) ++ b'"' ∷ []) rest, ok (b'"', out ++ s))
unfolding escape_string
read-escape_string s seen rest out zero c p h = absurd (omega arith)
read-escape_string [] seen rest out (suc f) c p h =
    read_quote f (length seen) c b'"' out (over seen (b'"' ∷ rest) p) (in_bounds seen b'"' rest)
      (get_at seen b'"' rest) refl
    ∙ rw (append-nil, append-nil) (ap (λ r. (r, ok (b'"', out))) (after seen b'"' rest))
read-escape_string (x ∷ s) seen rest out (suc f) c p h =
    let (d, e) = read-escape_char f c x p out seen (escape_string s ++ b'"' ∷ rest) in
    let ih =
      read-escape_string s (seen ++ escape_char x) rest (out ++ x ∷ []) f d p (omega arith) in
    rw append_assoc e ∙ ih ∙ simp append_assoc

-- A text in quotes is read back.
read_string-quoted :
    (s pre rest : Bytes)
    → read_string (at pre (b'"' ∷ (escape_string s ++ b'"' ∷ rest)))
      ≡ (at (((pre ++ b'"' ∷ []) ++ escape_string s) ++ b'"' ∷ []) rest, ok s)
unfolding read_string is_white_space
read_string-quoted s pre rest =
    let t = escape_string s ++ b'"' ∷ rest in
    let seen = pre ++ b'"' ∷ [] in
    ground (
      arith,
      next_token-found pre b'"' t refl,
      read-escape_string s seen rest [] (suc (length (seen ++ t))) b'"' (length seen) (
          omega (
            arith,
            length-append seen t,
            length-append (escape_string s) (b'"' ∷ rest),
            length-escape_string s,
          )),
    )

-- What `EncodeString` writes is read back by `ReadString`, whatever bytes the text holds, and the
-- reader is then behind the closing quote.
pub read_string-encode_string :
    (s pre rest : Bytes)
    → read_string (at pre (encode_string s ++ rest)) ≡ (at (pre ++ encode_string s) rest, ok s)
unfolding encode_string
read_string-encode_string s pre rest =
    rw (append_assoc (escape_string s) (b'"' ∷ []) rest)
      (read_string-quoted s pre rest ∙ simp append_assoc)
