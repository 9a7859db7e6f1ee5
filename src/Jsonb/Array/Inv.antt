-- ===== src/Jsonb/Array/Inv.antt =====
-- What holds of the caller's variables behind `ReadArray` and `ReadObject`, on any input.
use sqlike.Common.{
  ℕ, zero, suc, ◌≡◌, refl, subst, Bool, true, false, some, Bytes, ◌==◌, not, if◌then◌else◌,
}
use sqlike.Jsonb.Outcome.{Error, invalid_json, Outcome, ok, err, panic, spin, next}
use sqlike.Jsonb.Reader.{Reader, M, ◌>>=◌, return, throw, new_reader, next_token, unread_byte}
use sqlike.Jsonb.Skip.{skip_null, read_bytes}
use sqlike.Jsonb.Str.{read_string}
use sqlike.Jsonb.Array.{read_array, read_array_loop, read_object, read_object_loop}

-- A result of two calls is one of the second.
pub next-ok :
    {A B : Type 0} (p : Reader × Outcome A) (f : A → M B) (b : B)
    → (next p f).1 ≡ ok b
    → (a : A) × (p.1 ≡ ok a) × ((f a p.0).1 ≡ ok b)
next-ok (r, ok a) f b h = (a, refl, h)
next-ok (r, err e) f b h = cc
next-ok (r, panic) f b h = cc
next-ok (r, spin) f b h = cc

-- A result of a call stands in `P`.
abbrev pub Yields : {A : Type 0} → (A → Type 0) → M A → Type 0
Yields {A} P m = (r : Reader) (a : A) → (m r).1 ≡ ok a → P a

pub Yields-next :
    {A B : Type 0} (P : B → Type 0) (m : M A) (f : A → M B)
    → ((a : A) (r : Reader) → (m r).1 ≡ ok a → Yields P (f a))
    → Yields P (m >>= f)
Yields-next P m f h r b e = let (a, i, j) = next-ok (m r) f b e in h a r i (m r).0 b j

pub Yields-if :
    {A : Type 0} (P : A → Type 0) (b : Bool) (m k : M A)
    → Yields P m
    → Yields P k
    → Yields P (if b then m else k)
Yields-if P true m k h i = h
Yields-if P false m k h i = i

pub Yields-return : {A : Type 0} (P : A → Type 0) (a : A) → P a → Yields P (return a)
Yields-return P a p r b e = let q : a ≡ b = cc e in subst P q p

pub Yields-error : {A : Type 0} (P : A → Type 0) (e : Error) → Yields P (throw e)
Yields-error P e r a h = cc

module _ {S : Type 0} (P : S → Type 0) (cb : Reader → S → Outcome S)
    (keeps : (it : Reader) (s u : S) → P s → cb it s ≡ ok u → P u) where
  array_loop-Yields : (f : ℕ) (s : S) → P s → Yields P (read_array_loop f (some cb) s)
  unfolding read_array_loop
  array_loop-Yields zero s p = λ r u h. cc
  array_loop-Yields (suc f) s p = Yields-next P read_bytes _ (λ b r e.
      Yields-next P (λ r'. (r', cb (new_reader b) s)) _
        (λ u r' i.
          let q = keeps (new_reader b) s u p i in
          Yields-next P next_token _ (λ c r'' j.
            elim (c == b',')
              as (λ x. Yields P (elim x [
                | true ↦ read_array_loop f (some cb) u
                | false ↦
                    if c == b']'
                    then return u
                    else throw (invalid_json "ReadArray" "expect end with ] for array")
              ])) [
                | true ↦ array_loop-Yields f u q
                | false ↦
                    Yields-if P (c == b']') (return u)
                      (throw (invalid_json "ReadArray" "expect end with ] for array"))
                      (Yields-return P u q)
                      (Yields-error P (invalid_json "ReadArray" "expect end with ] for array"))
              ])))

  pub read_array-Yields : (s : S) → P s → Yields P (read_array (some cb) s)
  unfolding read_array
  read_array-Yields s p = Yields-next P next_token _ (λ c r e.
      Yields-if P (c == b'n') _ _
        (Yields-next P (λ r. skip_null (unread_byte r)) _ (λ a r i. Yields-return P s p))
        (Yields-if P (not (c == b'[')) _ _
          (Yields-error P (invalid_json "ReadArray" "expect start with [ for array"))
          (Yields-next P next_token _ (λ d r i.
            Yields-if P (d == b']') _ _ (Yields-return P s p)
              (λ r. array_loop-Yields (suc (unread_byte r).len) s p (unread_byte r))))))

module _ {S : Type 0} (P : S → Type 0) (cb : Reader → Bytes → S → Outcome S)
    (keeps : (it : Reader) (k : Bytes) (s u : S) → P s → cb it k s ≡ ok u → P u) where
  object_loop-Yields : (f : ℕ) (s : S) → P s → Yields P (read_object_loop f cb s)
  unfolding read_object_loop
  object_loop-Yields zero s p = λ r u h. cc
  object_loop-Yields (suc f) s p = Yields-next P next_token _ (λ c r e.
      Yields-if P (c == b'}') _ _ (Yields-return P s p) (
        Yields-if P (not (c == b'"')) _ _
          (Yields-error P (invalid_json "ReadObject" "expect \" for object key"))
          (Yields-next P (λ r. read_string (unread_byte r)) _
            (λ k r i. Yields-next P next_token _ (λ d r i.
              Yields-if P (not (d == b':')) _ _
                (Yields-error P (invalid_json "ReadObject" "expect : after object key"))
                (Yields-next P read_bytes _ (λ v r i.
                  Yields-next P (λ r'. (r', cb (new_reader v) k s)) _
                    (λ u r i.
                      let q = keeps (new_reader v) k s u p i in
                      Yields-next P next_token _ (λ e r j.
                        elim (e == b',')
                          as (λ x. Yields P (elim x [
                            | true ↦ read_object_loop f cb u
                            | false ↦
                                if e == b'}'
                                then return u
                                else throw
                                    (invalid_json "ReadObject" "expect end with } for object")
                          ])) [
                            | true ↦ object_loop-Yields f u q
                            | false ↦
                                Yields-if P (e == b'}') (return u)
                                  (throw (invalid_json "ReadObject" "expect end with } for object"))
                                  (Yields-return P u q)
                                  (Yields-error P
                                    (invalid_json "ReadObject" "expect end with } for object"))
                          ])))))))))

  pub read_object-Yields : (s : S) → P s → Yields P (read_object cb s)
  unfolding read_object
  read_object-Yields s p = Yields-next P next_token _ (λ c r e.
      Yields-if P (not (c == b'{')) _ _
        (Yields-error P (invalid_json "ReadObject" "expect start with { for object"))
        (λ r. object_loop-Yields (suc r.len) s p r))
