-- ===== src/Jsonb/Str/Agree.antt =====
-- `skipString` against `ReadString`: the same bytes are taken, and the calls end alike.
use sqlike.Common.{
  ℕ, zero, suc, ◌+◌, ◌≡◌, refl, true, false, [], ◌∷◌, ◌++◌, some, none, Bytes, arith, get_elem?,
  Option-cases, inl, inr,
}
use sqlike.Jsonb.Outcome.{Outcome, ok, err, spin, panic}
use sqlike.Jsonb.Reader.{Reader, next_token}
use sqlike.Jsonb.Str.{
  unescape, is_escape, read_string_loop, skip_string_loop, read_string, skip_string,
}

-- How a call ended, without what it returned or which error it gave.
pub data Ending : Type 0 where
  returned failed panicked looped : Ending

abbrev pub ending : {A : Type 0} → Outcome A → Ending
ending (ok a) = returned
ending (err e) = failed
ending panic = panicked
ending spin = looped

abbrev last_byte : Reader × Outcome (ℕ × Bytes) → Reader × Outcome ℕ
last_byte (r, ok (c, out)) = (r, ok c)
last_byte (r, err e) = (r, err e)
last_byte (r, panic) = (r, panic)
last_byte (r, spin) = (r, spin)

unknown : (e : ℕ) → unescape e ≡ none → is_escape e ≡ false
unfolding unescape is_escape
unknown e h = ground arith

known : (e x : ℕ) → unescape e ≡ some x → is_escape e ≡ true
unfolding unescape is_escape
known e x h = ground arith

skip_string_loop-read_string_loop :
    (f i c : ℕ) (out : Bytes) (r : Reader)
    → skip_string_loop f i c r ≡ last_byte (read_string_loop f i c out r)
unfolding skip_string_loop read_string_loop
skip_string_loop-read_string_loop zero i c out r = refl
skip_string_loop-read_string_loop (suc f) i c out r = elim (Option-cases (get_elem? r.b i)) [
  | inl end ↦ ground arith
  | inr (d, here) ↦
      let plain = skip_string_loop-read_string_loop f (i + 1) d (out ++ d ∷ []) r in
      elim (Option-cases (get_elem? r.b (i + 1))) [
        | inl end ↦ ground (arith, plain)
        | inr (e, ahead) ↦ elim (Option-cases (unescape e)) [
          | inl u ↦
              ground (
                arith,
                plain,
                unknown e u,
                skip_string_loop-read_string_loop f i d (out ++ d ∷ []) r,
              )
          | inr (x, u) ↦ ground (
            arith,
            plain,
            known e x u,
            skip_string_loop-read_string_loop f (i + 2) d (out ++ x ∷ []) r,
          )
        ]
      ]
]

-- `skipString` leaves the reader as `ReadString` does, and returns, fails, panics or loops as it does.
pub skip_string-read_string :
    (r : Reader)
    → ((skip_string r).0 ≡ (read_string r).0)
      × (ending (skip_string r).1 ≡ ending (read_string r).1)
unfolding skip_string read_string
skip_string-read_string r = ground (
  arith,
  skip_string_loop-read_string_loop (suc (next_token r).0.len) (next_token r).0.pos b'"' []
      (next_token r).0,
)
