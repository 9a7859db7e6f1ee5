-- ===== src/Jsonb/Reader/Valid.antt =====
-- The invariant of a reader: `len` is the length of the buffer, and the position is in it.
use sqlike.Common.{
  ℕ, ◌≤◌, ◌≡◌, sym, Bool, true, false, [], ◌∷◌, ◌++◌, Bytes, arith, if◌then◌else◌, length, take,
  drop, length-append, subst, codes, ◌==◌, take-append-drop, length-take_of_le,
}
use sqlike.Jsonb.Types.{value_map}
use sqlike.Jsonb.Outcome.{Outcome, ok, err, panic, spin, next}
use sqlike.Jsonb.Reader.{
  Reader, M, ◌>>=◌, next_token, unread_byte, skip_bytes, ignore, read_null, peek, peek_type,
  new_reader,
}
use sqlike.Jsonb.Reader.View.{at, token, strip, next_token-at}

pub record IsValid (r : Reader) : Type 0 where
  pub len_is : r.len ≡ length r.b
  pub in_buffer : r.pos ≤ r.len

-- A call that keeps readers valid, and their buffers no longer than they were.
abbrev pub Keeps : {A : Type 0} → M A → Type 0
Keeps m = (r : Reader) → IsValid r → IsValid (m r).0 × ((m r).0.len ≤ r.len)

pub new_reader-IsValid : (b : Bytes) → IsValid (new_reader b)
new_reader-IsValid b = omega arith

at-IsValid : (pre rest : Bytes) → IsValid (at pre rest)
at-IsValid pre rest = omega (arith, length-append pre rest)

-- A valid reader is its read bytes and its unread bytes.
valid-at : (r : Reader) → IsValid r → r ≡ at (take r.pos r.b) (drop r.pos r.b)
valid-at r v =
    ground (arith, take-append-drop r.pos r.b, length-take_of_le r.pos r.b (omega arith), v.len_is)

length-strip : (s : Bytes) → length (strip s) ≤ length s
length-strip [] = omega arith
length-strip (c ∷ s) = ground (arith, length-strip s)

token-Keeps :
    (pre s t : Bytes)
    → length s ≤ length t
    → IsValid (token pre s).0 × ((token pre s).0.len ≤ length (pre ++ t))
token-Keeps pre [] t h =
    (at-IsValid pre [], omega (arith, length-append pre t, length-append pre []))
token-Keeps pre (c ∷ s) t h = (
  at-IsValid (pre ++ c ∷ []) s,
  omega (arith, length-append pre t, length-append (pre ++ c ∷ []) s, length-append pre (c ∷ [])),
)

next_token-at-Keeps :
    (pre rest : Bytes)
    → IsValid (next_token (at pre rest)).0
      × ((next_token (at pre rest)).0.len ≤ length (pre ++ rest))
next_token-at-Keeps pre rest =
    rw next_token-at (token-Keeps pre (strip rest) rest (length-strip rest))

pub next_token-Keeps : Keeps next_token
next_token-Keeps r v =
    subst (λ x. IsValid (next_token x).0 × ((next_token x).0.len ≤ x.len)) (sym (valid-at r v))
      (next_token-at-Keeps (take r.pos r.b) (drop r.pos r.b))

-- How calls are put together.
next-Keeps :
    {A B : Type 0} (n : ℕ) (o : Reader × Outcome A) (f : A → M B)
    → IsValid o.0 × (o.0.len ≤ n)
    → ((a : A) → Keeps (f a))
    → IsValid (next o f).0 × ((next o f).0.len ≤ n)
next-Keeps n (r, ok a) f (v, h) k = let (w, l) = k a r v in (w, omega arith)
next-Keeps n (r, err e) f v k = v
next-Keeps n (r, panic) f v k = v
next-Keeps n (r, spin) f v k = v

module _ {A : Type 0} where
  pub bind_Keeps :
      {B : Type 0} (m : M B) (f : B → M A) → Keeps m → ((b : B) → Keeps (f b)) → Keeps (m >>= f)
  bind_Keeps m f km kf r v = next-Keeps r.len (m r) f (km r v) kf

  pub if_Keeps : (b : Bool) (m k : M A) → Keeps m → Keeps k → Keeps (if b then m else k)
  if_Keeps true m k km kk = km
  if_Keeps false m k km kk = kk

  pub same_Keeps : (o : Outcome A) → Keeps (λ r. (r, o))
  same_Keeps o r v = (v, omega arith)

  pub unread_Keeps : (m : M A) → Keeps m → Keeps (λ r. m (unread_byte r))
  unread_Keeps m k r v =
      let (w, h) = k (unread_byte r) (ground arith) in
      let e : (unread_byte r).len ≡ r.len = ground arith in (w, omega arith)

pub ignore-Keeps : (m : M (Unit {0})) → Keeps m → Keeps (ignore m)
ignore-Keeps m k r v = let kept = k r v in ground arith

pub skip_bytes-Keeps : (w : Bytes) → Keeps (skip_bytes w)
unfolding skip_bytes
skip_bytes-Keeps w r v = ground arith

pub peek-Keeps : Keeps peek
peek-Keeps =
    bind_Keeps next_token _ next_token-Keeps
      (λ c. unread_Keeps (λ r. (r, ok c)) (same_Keeps (ok c)))

pub peek_type-Keeps : Keeps peek_type
peek_type-Keeps = bind_Keeps peek _ peek-Keeps (λ c. same_Keeps (ok (value_map c)))

pub read_null-Keeps : Keeps read_null
unfolding read_null
read_null-Keeps =
    bind_Keeps next_token _ next_token-Keeps
      (λ c. if_Keeps (c == b'n') _ _ (skip_bytes-Keeps (codes "ull")) (same_Keeps (ok tt)))
