-- ===== src/Jsonb/Value/Numbers.antt =====
-- `ReadNumber` on numbers: where it stops.
use sqlike.Common.{
  ℕ, suc, ◌+◌, ◌≡◌, sym, ap, ◌∙◌, true, false, [], ◌∷◌, ◌++◌, Bytes, arith, length, length-append,
  append_assoc, append-nil, drop-append_length,
}
use sqlike.Jsonb.Outcome.{ok}
use sqlike.Jsonb.Types.{json_number, is_white_space, value_map}
use sqlike.Jsonb.Reader.{next_token}
use sqlike.Jsonb.Reader.View.{at, in_bounds, next_token-found, then_ok, unread_byte-at, slice}
use sqlike.Jsonb.Number.{is_number, read_number_loop, read_number}
use sqlike.Jsonb.Skip.Token.{number-not_white, number-ne-n}
use sqlike.Jsonb.Value.Text.{in_number, AllIn, NumberText}

inside-not_white : (c : ℕ) → in_number c ≡ true → is_white_space c ≡ false
unfolding is_number value_map is_white_space
inside-not_white c h = ground arith

loop_go :
    (f pos c : ℕ) (str seen t : Bytes)
    → in_number c ≡ true
    → read_number_loop (suc f) (length seen) pos str (at seen (c ∷ t))
      ≡ read_number_loop f (length seen + 1) pos str (at (seen ++ c ∷ []) t)
unfolding read_number_loop
loop_go f pos c str seen t h =
    ground (arith, in_bounds seen c t, next_token-found seen c t (inside-not_white c h))

loop_end :
    (f pos : ℕ) (str seen : Bytes)
    → read_number_loop (suc f) (length seen) pos str (at seen []) ≡ (at seen [], ok str)
unfolding read_number_loop
loop_end f pos str seen = ground (arith, length-append seen [])

-- Over bytes of a number, up to what stands behind them.
loop_over :
    (w : Bytes) (f pos : ℕ) (str seen t : Bytes)
    → AllIn w
    → read_number_loop (length w + f) (length seen) pos str (at seen (w ++ t))
      ≡ read_number_loop f (length (seen ++ w)) pos str (at (seen ++ w) t)
loop_over [] f pos str seen t h =
    simp append-nil (ap (λ n. read_number_loop n (length seen) pos str (at seen t)) (omega arith))
loop_over (c ∷ w) f pos str seen t (h, k) =
    let go = read_number_loop (length w + f) in
    ap (λ n. read_number_loop n (length seen) pos str (at seen (c ∷ (w ++ t)))) (omega arith)
    ∙ loop_go (length w + f) pos c str seen (w ++ t) h
    ∙ ap (λ n. go n pos str (at (seen ++ c ∷ []) (w ++ t)))
        (omega (arith, length-append seen (c ∷ [])))
    ∙ loop_over w f pos str (seen ++ c ∷ []) t k
    ∙ ap (λ s. read_number_loop f (length s) pos str (at s t)) (append_assoc seen (c ∷ []) w)

-- The first step of `ReadNumber`, in front of a byte that begins a number.
start_number :
    (x : ℕ) (t pre : Bytes)
    → value_map x ≡ json_number
    → read_number (at pre (x ∷ t))
      ≡ read_number_loop
          (suc (length (pre ++ x ∷ t)))
          (length pre)
          (length pre)
          (x ∷ t)
          (at pre (x ∷ t))
unfolding read_number is_number
start_number x t pre v =
    then_ok next_token _ (next_token-found pre x t (number-not_white x v))
    ∙ ground (arith, number-ne-n x v, unread_byte-at pre x t, drop-append_length pre (x ∷ t))

begins-inside : (x : ℕ) → value_map x ≡ json_number → in_number x ≡ true
unfolding is_number value_map
begins-inside x v = ground arith

-- `ReadNumber` takes a number that ends the input.
pub read_number_whole :
    (w pre : Bytes) → NumberText w → read_number (at pre w) ≡ (at (pre ++ w) [], ok w)
read_number_whole w pre n =
    let x = n.first in
    let t = n.others in
    let fuel : suc (length (pre ++ x ∷ t)) ≡ length (x ∷ t) + suc (length pre) =
      omega (arith, length-append pre (x ∷ t)) in
    ap (λ v. read_number (at pre v)) n.splits
    ∙ start_number x t pre n.begins
    ∙ ap (λ k. read_number_loop k (length pre) (length pre) (x ∷ t) (at pre (x ∷ t))) fuel
    ∙ ap
        (λ v.
          read_number_loop (length (x ∷ t) + suc (length pre)) (length pre) (length pre) (x ∷ t)
            (at pre v))
        (sym (append-nil (x ∷ t)))
    ∙ loop_over (x ∷ t) (suc (length pre)) (length pre) (x ∷ t) pre []
        (begins-inside x n.begins, n.inside)
    ∙ loop_end (length pre) (length pre) (x ∷ t) (pre ++ x ∷ t)
    ∙ ap (λ v. (at (pre ++ v) [], ok v)) (sym n.splits)

loop_stop :
    (f c : ℕ) (str pre w t : Bytes)
    → in_number c ≡ false
    → is_white_space c ≡ false
    → read_number_loop (suc f) (length (pre ++ w)) (length pre) str (at (pre ++ w) (c ∷ t))
      ≡ (at (pre ++ w) (c ∷ t), ok w)
unfolding read_number_loop
loop_stop f c str pre w t h k = ground (
  arith,
  in_bounds (pre ++ w) c t,
  next_token-found (pre ++ w) c t k,
  slice pre w (c ∷ t),
  append_assoc pre w (c ∷ t),
  length-append pre w,
  append_assoc (pre ++ w) (c ∷ []) t,
)

-- `ReadNumber` stops in front of a byte that it does not take for one of a number, a capital `E` for one,
-- and returns what stands before it.
pub read_number_before :
    (w pre t : Bytes) (c : ℕ)
    → NumberText w
    → in_number c ≡ false
    → is_white_space c ≡ false
    → read_number (at pre (w ++ c ∷ t)) ≡ (at (pre ++ w) (c ∷ t), ok w)
read_number_before w pre t c n h k =
    let x = n.first in
    let u = n.others in
    let fuel : suc (length (pre ++ x ∷ (u ++ c ∷ t)))
        ≡ length (x ∷ u) + suc (length pre + length t + 1) =
      omega (arith, length-append pre (x ∷ (u ++ c ∷ t)), length-append u (c ∷ t)) in
    ap (λ v. read_number (at pre (v ++ c ∷ t))) n.splits
    ∙ start_number x (u ++ c ∷ t) pre n.begins
    ∙ ap
        (λ k.
          read_number_loop k (length pre) (length pre) (x ∷ (u ++ c ∷ t))
            (at pre (x ∷ (u ++ c ∷ t))))
        fuel
    ∙ loop_over (x ∷ u) (suc (length pre + length t + 1)) (length pre) (x ∷ (u ++ c ∷ t)) pre
        (c ∷ t) (begins-inside x n.begins, n.inside)
    ∙ loop_stop (length pre + length t + 1) c (x ∷ (u ++ c ∷ t)) pre (x ∷ u) t h k
    ∙ ap (λ v. (at (pre ++ v) (c ∷ t), ok v)) (sym n.splits)
