-- ===== src/Jsonb/Reader/View.antt =====
-- A reader split at its position: the bytes read and the bytes unread. Each operation of
-- jsonb/reader.go is described on such a reader.
use sqlike.Common.{
  ℕ, zero, suc, ◌+◌, ◌<◌, ◌≡◌, refl, sym, ap, ◌∙◌, true, false, [], ◌∷◌, ◌++◌, some, Bytes, arith,
  ltb, lt→ltb, ltb-false, length, get_elem?, take, drop, length-append, append_assoc, inl, inr,
  take-append_length, get_elem?-append, Bool-cases, if◌then◌else◌, same_self,
}
use sqlike.Jsonb.Types.{is_white_space, value_map}
use sqlike.Jsonb.Outcome.{Outcome, ok, next}
use sqlike.Jsonb.Reader.{
  Reader, M, ◌>>=◌, peek, peek_type, delete, next_token_loop, next_token, unread_byte, skip_bytes,
}

abbrev pub at : Bytes → Bytes → Reader
at pre rest = record { b = pre ++ rest; pos = length pre; len = length (pre ++ rest) }

-- The unread bytes behind the white space in front of them.
abbrev pub strip : Bytes → Bytes
strip [] = []
strip (c ∷ cs) = if is_white_space c then strip cs else c ∷ cs

strip_white : (c : ℕ) (cs : Bytes) → is_white_space c ≡ true → strip (c ∷ cs) ≡ strip cs
strip_white c cs w = rw w

strip_found : (c : ℕ) (cs : Bytes) → is_white_space c ≡ false → strip (c ∷ cs) ≡ c ∷ cs
strip_found c cs w = rw w

pub get_at : (pre : Bytes) (c : ℕ) (cs : Bytes) → get_elem? (pre ++ c ∷ cs) (length pre) ≡ some c
get_at pre c cs = ap (get_elem? (pre ++ c ∷ cs)) (omega arith) ∙ get_elem?-append pre (c ∷ cs) 0

pub in_bounds :
    (pre : Bytes) (c : ℕ) (cs : Bytes) → ltb (length pre) (length (pre ++ c ∷ cs)) ≡ true
in_bounds pre c cs = lt→ltb _ _ (omega (arith, length-append pre (c ∷ cs)))

drop-suc : (pre : Bytes) (c : ℕ) (cs : Bytes) → drop (suc (length pre)) (pre ++ c ∷ cs) ≡ cs
drop-suc [] c cs = refl
drop-suc (x ∷ pre) c cs = drop-suc pre c cs

delete-at : (pre : Bytes) (c : ℕ) (cs : Bytes) → delete (length pre) (at pre (c ∷ cs)) ≡ at pre cs
delete-at pre c cs = rw (take-append_length pre (c ∷ cs), drop-suc pre c cs)

loop_found :
    (f i c : ℕ) (r : Reader)
    → ltb i r.len ≡ true
    → get_elem? r.b i ≡ some c
    → is_white_space c ≡ false
    → next_token_loop (suc f) i r ≡ (record r { pos = i + 1 }, ok c)
unfolding next_token_loop
loop_found f i c r h g w = ground arith

loop_white :
    (f i c : ℕ) (r : Reader)
    → ltb i r.len ≡ true
    → get_elem? r.b i ≡ some c
    → is_white_space c ≡ true
    → next_token_loop (suc f) i r ≡ next_token_loop f i (delete i r)
unfolding next_token_loop
loop_white f i c r h g w = ground arith

loop_end : (f i : ℕ) (r : Reader) → ltb i r.len ≡ false → next_token_loop (suc f) i r ≡ (r, ok 0)
unfolding next_token_loop
loop_end f i r h = ground arith

-- What `nextToken` leaves and returns, by the unread bytes without their leading white space.
abbrev pub token : Bytes → Bytes → Reader × Outcome ℕ
token pre [] = (at pre [], ok 0)
token pre (c ∷ cs) = (at (pre ++ c ∷ []) cs, ok c)

pub after :
    (pre : Bytes) (c : ℕ) (cs : Bytes)
    → record (at pre (c ∷ cs)) { pos = length pre + 1 } ≡ at (pre ++ c ∷ []) cs
after pre c cs = rw append_assoc (
    ap (λ (p : ℕ). record (at pre (c ∷ cs)) { pos = p })
      (omega (arith, length-append pre (c ∷ []))))

next_token_loop-at :
    (f : ℕ) (pre rest : Bytes)
    → length rest < f
    → next_token_loop f (length pre) (at pre rest) ≡ token pre (strip rest)
next_token_loop-at zero pre rest h = absurd (omega arith)
next_token_loop-at (suc f) pre [] h =
    loop_end f (length pre) (at pre []) (ltb-false _ _ (omega (arith, length-append pre [])))
next_token_loop-at (suc f) pre (c ∷ cs) h = elim (Bool-cases (is_white_space c)) [
  | inl w ↦
      loop_white f _ c (at pre (c ∷ cs)) (in_bounds pre c cs) (get_at pre c cs) w
      ∙ ap (next_token_loop f (length pre)) (delete-at pre c cs)
      ∙ next_token_loop-at f pre cs (omega arith)
      ∙ ap (token pre) (sym (strip_white c cs w))
  | inr w ↦
      loop_found f _ c (at pre (c ∷ cs)) (in_bounds pre c cs) (get_at pre c cs) w
      ∙ ap (λ r. (r, ok c)) (after pre c cs)
      ∙ ap (token pre) (sym (strip_found c cs w))
]

-- `nextToken` skips white space and takes one byte, or returns 0 at the end of the input.
pub next_token-at : (pre rest : Bytes) → next_token (at pre rest) ≡ token pre (strip rest)
unfolding next_token
next_token-at pre rest =
    next_token_loop-at (suc (length (pre ++ rest))) pre rest (omega (arith, length-append pre rest))

pub unread_byte-at :
    (pre : Bytes) (c : ℕ) (cs : Bytes) → unread_byte (at (pre ++ c ∷ []) cs) ≡ at pre (c ∷ cs)
unread_byte-at pre c cs = ground (arith, length-append pre (c ∷ []), append_assoc pre (c ∷ []) cs)

pub slice :
    (pre w rest : Bytes) → drop (length pre) (take (length pre + length w) (pre ++ (w ++ rest))) ≡ w
slice [] w rest = ap (λ n. take n (w ++ rest)) (omega arith) ∙ take-append_length w rest
slice (x ∷ pre) w rest =
    ap (λ n. drop (suc (length pre)) (take n (x ∷ (pre ++ (w ++ rest)))))
      (let e : suc (length pre) + length w ≡ suc (length pre + length w) = omega arith in e)
    ∙ slice pre w rest

-- A call behind one that returned.
pub then_ok :
    {A B : Type 0} {r s : Reader} {a : A} (m : M A) (f : A → M B)
    → m r ≡ (s, ok a)
    → (m >>= f) r ≡ f a s
then_ok m f e = ap (λ x. next x f) e

pub skip_bytes-at :
    (w pre rest : Bytes) → skip_bytes w (at pre (w ++ rest)) ≡ (at (pre ++ w) rest, ok tt)
unfolding skip_bytes
skip_bytes-at w pre rest = ground (
  arith,
  slice pre w rest,
  same_self w,
  append_assoc pre w rest,
  length-append pre (w ++ rest),
  length-append w rest,
  length-append pre w,
)

pub next_token-found :
    (pre : Bytes) (c : ℕ) (cs : Bytes)
    → is_white_space c ≡ false
    → next_token (at pre (c ∷ cs)) ≡ (at (pre ++ c ∷ []) cs, ok c)
next_token-found pre c cs w = next_token-at pre (c ∷ cs) ∙ ap (token pre) (strip_found c cs w)

pub peek-found :
    (pre : Bytes) (c : ℕ) (cs : Bytes)
    → is_white_space c ≡ false
    → peek (at pre (c ∷ cs)) ≡ (at pre (c ∷ cs), ok c)
peek-found pre c cs w =
    then_ok next_token _ (next_token-found pre c cs w)
    ∙ ap (λ r. (r, ok c)) (unread_byte-at pre c cs)

pub peek_type-found :
    (pre : Bytes) (c : ℕ) (cs : Bytes)
    → is_white_space c ≡ false
    → peek_type (at pre (c ∷ cs)) ≡ (at pre (c ∷ cs), ok (value_map c))
peek_type-found pre c cs w = then_ok peek _ (peek-found pre c cs w)

-- A reader whose buffer is `seen` and `t`, at any position.
abbrev pub over : Bytes → Bytes → ℕ → Reader
over seen t p = record { b = seen ++ t; pos = p; len = length (seen ++ t) }

-- A loop that goes on behind one more byte.
pub shift :
    {X : Type 0} (loop : ℕ → Reader → X) (seen : Bytes) (x : ℕ) (t : Bytes) (p : ℕ)
    → loop (length seen + 1) (over seen (x ∷ t) p)
      ≡ loop (length (seen ++ x ∷ [])) (over (seen ++ x ∷ []) t p)
shift loop seen x t p =
    rw append_assoc
      (ap (λ n. loop n (over seen (x ∷ t) p)) (omega (arith, length-append seen (x ∷ []))))
