-- ===== src/Jsonb/Str/Loops.antt =====
-- When the loop of `ReadString` goes round for ever: at a backslash before a byte that is no escape,
-- where it appends the backslash and stays. The fuel of the model is enough: a loop that uses it up
-- is such a loop.
use sqlike.Common.{
  ℕ, zero, suc, ◌+◌, ◌-◌, ◌<◌, ◌≡◌, refl, ◌∙◌, ap, inl, inr, true, [], ◌∷◌, ◌++◌, some, none, Bytes,
  arith, ltb, get_elem?, Option-cases, length, append_assoc,
}
use sqlike.Jsonb.Outcome.{Outcome, spin}
use sqlike.Jsonb.Reader.{Reader}
use sqlike.Jsonb.Reader.View.{over, get_at, in_bounds}
use sqlike.Jsonb.Str.RoundTrip.{get_next, read-escape_char}
use sqlike.Jsonb.Str.Steps.{read_unknown}
use sqlike.Jsonb.Str.{backslash, unescape, read_string_loop, escape_char, escape_string}

abbrev Spins : ℕ → ℕ → ℕ → Bytes → Reader → Type 0
Spins f i c out r = (read_string_loop f i c out r).1 ≡ spin

-- At a backslash before a byte that is no escape, no fuel is enough.
stays :
    (f i c e : ℕ) (out : Bytes) (r : Reader)
    → ltb i r.len ≡ true
    → get_elem? r.b i ≡ some backslash
    → get_elem? r.b (i + 1) ≡ some e
    → unescape e ≡ none
    → Spins f i c out r
stays zero i c e out r within here ahead u = unfold read_string_loop in refl
stays (suc f) i c e out r within here ahead u =
    ap (λ x. x.1) (read_unknown f i c backslash out r within here e refl ahead u)
    ∙ stays f i backslash e (out ++ backslash ∷ []) r within here ahead u

-- The loop of `ReadString` uses up any fuel on an escaped text with a backslash behind it before a
-- byte that is no escape, whatever was read before and whatever stands behind.
pub read_string_loop_unknown :
    (s seen rest out : Bytes) (f c e p : ℕ)
    → unescape e ≡ none
    → (read_string_loop f
        (length seen)
        c
        out
        (over seen (escape_string s ++ backslash ∷ e ∷ rest) p)).1
      ≡ spin
unfolding escape_string
read_string_loop_unknown s seen rest out zero c e p u = unfold read_string_loop in refl
read_string_loop_unknown [] seen rest out (suc f) c e p u =
    stays (suc f) (length seen) c e out (over seen (backslash ∷ e ∷ rest) p)
      (in_bounds seen backslash (e ∷ rest)) (get_at seen backslash (e ∷ rest))
      (get_next seen backslash e rest) u
read_string_loop_unknown (x ∷ s) seen rest out (suc f) c e p u =
    let (d, step) = read-escape_char f c x p out seen (escape_string s ++ backslash ∷ e ∷ rest) in
    let ih = read_string_loop_unknown s (seen ++ escape_char x) rest (out ++ x ∷ []) f d e p u in
    rw (append_assoc (escape_char x) (escape_string s) (backslash ∷ e ∷ rest))
      (ap (λ (o : Reader × Outcome (ℕ × Bytes)). o.1) step ∙ ih)

-- The loop of `ReadString` with more fuel than there are bytes left: if it uses the fuel up, it does
-- so with any fuel, whatever was read before.
spin-forever :
    (f g i c c' : ℕ) (out out' : Bytes) (r : Reader)
    → r.len - i < f
    → (read_string_loop f i c out r).1 ≡ spin
    → (read_string_loop g i c' out' r).1 ≡ spin
unfolding read_string_loop
spin-forever zero g i c c' out out' r h s = absurd (omega arith)
spin-forever (suc f) zero i c c' out out' r h s = refl
spin-forever (suc f) (suc g) i c c' out out' r h s = elim (Option-cases (get_elem? r.b i)) [
  | inl end ↦ ground arith
  | inr (d, here) ↦ elim (Option-cases (get_elem? r.b (i + 1))) [
    | inl end ↦ ground (arith, spin-forever f g (i + 1) d d (out ++ d ∷ []) (out' ++ d ∷ []) r)
    | inr (e, ahead) ↦ elim (Option-cases (unescape e)) [
      | inl u ↦ ground (
        arith,
        stays g i d e (out' ++ d ∷ []) r,
        spin-forever f g (i + 1) d d (out ++ d ∷ []) (out' ++ d ∷ []) r,
      )
      | inr (x, u) ↦ ground (
        arith,
        spin-forever f g (i + 2) d d (out ++ x ∷ []) (out' ++ x ∷ []) r,
        spin-forever f g (i + 1) d d (out ++ d ∷ []) (out' ++ d ∷ []) r,
      )
    ]
  ]
]
