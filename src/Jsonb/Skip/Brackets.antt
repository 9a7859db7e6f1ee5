-- ===== src/Jsonb/Skip/Brackets.antt =====
-- `skipArray` on what `EncodeArray` of jsonb/encoder.go writes: it counts brackets, those inside strings too.
use sqlike.Common.{
  ℕ, zero, suc, ◌+◌, ◌≡◌, refl, ap, ◌∙◌, false, [], ◌∷◌, ◌++◌, Bytes, arith, ◌==◌, length,
  length-append, append_assoc, append-nil,
}
use sqlike.Jsonb.Outcome.{ok}
use sqlike.Jsonb.Reader.{next_token}
use sqlike.Jsonb.Reader.View.{at, get_at, in_bounds, over, shift, next_token-found, then_ok}
use sqlike.Jsonb.Types.{is_white_space, value_map}
use sqlike.Jsonb.Skip.{skip_array_loop, skip_array, by_type}
use sqlike.Jsonb.Skip.Token.{Skips, IsToken, skip-found}

-- Behind the text the count of open brackets is what it was, and it was never closed in between.
pub record Neutral (w : Bytes) : Type 0 where
  pub goes_on :
      (f level : ℕ) (seen t : Bytes) (p : ℕ)
      → skip_array_loop (length w + f) (length seen) (suc level) (over seen (w ++ t) p)
        ≡ skip_array_loop f (length (seen ++ w)) (suc level) (over (seen ++ w) t p)

pub nothing-Neutral : Neutral []
nothing-Neutral = record {
  goes_on = λ f level seen t p.
      simp append-nil
        (ap (λ n. skip_array_loop n (length seen) (suc level) (over seen t p)) (omega arith));
}

pub append-Neutral : (v w : Bytes) → Neutral v → Neutral w → Neutral (v ++ w)
append-Neutral v w hv hw = record {
  goes_on = λ f level seen t p. simp append_assoc (
      ap (λ n. skip_array_loop n (length seen) (suc level) (over seen (v ++ (w ++ t)) p)) (more f)
      ∙ hv.goes_on (length w + f) level seen (w ++ t) p
      ∙ hw.goes_on f level (seen ++ v) t p
      ∙ simp append_assoc);
}
  where
    more : (f : ℕ) → length (v ++ w) + f ≡ length v + (length w + f)
    more f = omega (arith, length-append v w)

byte_step :
    (f level x : ℕ) (seen t : Bytes) (p : ℕ)
    → (x == b'[') ≡ false
    → (x == b']') ≡ false
    → skip_array_loop (suc f) (length seen) level (over seen (x ∷ t) p)
      ≡ skip_array_loop f (length seen + 1) level (over seen (x ∷ t) p)
unfolding skip_array_loop
byte_step f level x seen t p h k = ground (arith, in_bounds seen x t, get_at seen x t)

open_step :
    (f level : ℕ) (seen t : Bytes) (p : ℕ)
    → skip_array_loop (suc f) (length seen) level (over seen (b'[' ∷ t) p)
      ≡ skip_array_loop f (length seen + 1) (level + 1) (over seen (b'[' ∷ t) p)
unfolding skip_array_loop
open_step f level seen t p = ground (arith, in_bounds seen b'[' t, get_at seen b'[' t)

close_step :
    (f level : ℕ) (seen t : Bytes) (p : ℕ)
    → skip_array_loop (suc f) (length seen) (suc (suc level)) (over seen (b']' ∷ t) p)
      ≡ skip_array_loop f (length seen + 1) (suc level) (over seen (b']' ∷ t) p)
unfolding skip_array_loop
close_step f level seen t p = ground (arith, in_bounds seen b']' t, get_at seen b']' t)

end_step :
    (f : ℕ) (seen t : Bytes) (p : ℕ)
    → skip_array_loop (suc f) (length seen) 1 (over seen (b']' ∷ t) p)
      ≡ (at (seen ++ b']' ∷ []) t, ok tt)
unfolding skip_array_loop
end_step f seen t p = ground (
  arith,
  in_bounds seen b']' t,
  get_at seen b']' t,
  append_assoc seen (b']' ∷ []) t,
  length-append seen (b']' ∷ []),
)

pub byte-Neutral : (x : ℕ) → (x == b'[') ≡ false → (x == b']') ≡ false → Neutral (x ∷ [])
byte-Neutral x h k = record {
  goes_on = λ f level seen t p.
      ap (λ n. skip_array_loop n (length seen) (suc level) (over seen (x ∷ t) p)) (omega arith)
      ∙ byte_step f (suc level) x seen t p h k
      ∙ shift (λ i r. skip_array_loop f i (suc level) r) seen x t p;
}

-- No byte of the text is a bracket.
abbrev pub NoBrackets : Bytes → Type 0
NoBrackets [] = Unit {0}
NoBrackets (x ∷ w) = ((x == b'[') ≡ false) × ((x == b']') ≡ false) × NoBrackets w

pub text-Neutral : (w : Bytes) → NoBrackets w → Neutral w
text-Neutral [] h = nothing-Neutral
text-Neutral (x ∷ w) (h, k, q) = append-Neutral (x ∷ []) w (byte-Neutral x h k) (text-Neutral w q)

-- A text in brackets.
pub enclosed-Neutral : (w : Bytes) → Neutral w → Neutral (b'[' ∷ (w ++ b']' ∷ []))
enclosed-Neutral w hw = record {
  goes_on = λ f level seen t p. simp append_assoc (
      ap (λ n. skip_array_loop n (length seen) (suc level) (over seen (b'[' ∷ (w ++ b']' ∷ t)) p))
        (more f)
      ∙ open_step (length w + suc f) (suc level) seen (w ++ b']' ∷ t) p
      ∙ ap
          (λ n.
            skip_array_loop (length w + suc f) (length seen + 1) n
              (over seen (b'[' ∷ (w ++ b']' ∷ t)) p))
          (omega arith)
      ∙ shift (λ i r. skip_array_loop (length w + suc f) i (suc (suc level)) r) seen b'['
          (w ++ b']' ∷ t) p
      ∙ hw.goes_on (suc f) (suc level) (seen ++ b'[' ∷ []) (b']' ∷ t) p
      ∙ close_step f level ((seen ++ b'[' ∷ []) ++ w) t p
      ∙ shift (λ i r. skip_array_loop f i (suc level) r) ((seen ++ b'[' ∷ []) ++ w) b']' t p
      ∙ simp append_assoc);
}
  where
    more : (f : ℕ) → length (b'[' ∷ (w ++ b']' ∷ [])) + f ≡ suc (length w + suc f)
    more f = omega (arith, length-append w (b']' ∷ []))

-- `skipArray` takes a text in brackets, if the brackets inside match.
skip_array-bracketed :
    (w pre rest : Bytes)
    → Neutral w
    → skip_array (at pre (b'[' ∷ (w ++ b']' ∷ rest)))
      ≡ (at (pre ++ b'[' ∷ (w ++ b']' ∷ [])) rest, ok tt)
unfolding skip_array is_white_space
skip_array-bracketed w pre rest hw =
    let seen = pre ++ b'[' ∷ [] in
    let t = w ++ b']' ∷ rest in
    let f = length seen + length rest + 1 in
    let fuel : suc (length (seen ++ t)) ≡ length w + suc f =
      omega (arith, length-append seen t, length-append w (b']' ∷ rest)) in
    then_ok next_token _ (next_token-found pre b'[' t refl)
    ∙ ap (λ n. skip_array_loop n (length seen) 1 (at seen t)) fuel
    ∙ hw.goes_on (suc f) 0 seen (b']' ∷ rest) (length seen)
    ∙ end_step f (seen ++ w) rest (length seen)
    ∙ simp append_assoc

-- `skip` takes a text in brackets as one value, if the brackets inside match.
pub bracketed-IsToken : (w : Bytes) → Neutral w → IsToken (b'[' ∷ (w ++ b']' ∷ []))
unfolding is_white_space value_map by_type
bracketed-IsToken w hw = record {
  first = b'[';
  others = w ++ b']' ∷ [];
  splits = refl;
  not_white = refl;
  not_close = refl;
  skips = skips;
}
  where
    skips : Skips (b'[' ∷ (w ++ b']' ∷ []))
    skips zero pre d ds q h = absurd (omega arith)
    skips (suc f) pre d ds q h =
        skip-found f pre b'[' _ refl
        ∙ simp append_assoc (skip_array-bracketed w pre (d ∷ ds) hw ∙ simp append_assoc)
