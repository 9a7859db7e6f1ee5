-- ===== src/Jsonb/Skip/Valid.antt =====
-- The string scanners, `skip` and `ReadBytes` keep a reader valid, whatever the input holds.
use sqlike.Common.{
  ℕ, zero, suc, ◌+◌, ◌-◌, ◌≤◌, subst, Bool, true, false, not, inl, inr, Bytes, codes, arith, ◌==◌,
  get_elem?, Option-cases,
}
use sqlike.Jsonb.Types.{
  JsonType, json_invalid, json_null, json_object, json_array, json_whitespace, json_string,
  json_boolean, json_number,
}
use sqlike.Jsonb.Outcome.{ok, plain}
use sqlike.Jsonb.Reader.{
  Reader, M, return, throw, next_token, skip_bytes, ignore, read_null, peek, peek_type,
}
use sqlike.Jsonb.Reader.Valid.{
  IsValid, Keeps, next_token-Keeps, bind_Keeps, if_Keeps, same_Keeps, unread_Keeps, ignore-Keeps,
  skip_bytes-Keeps, peek-Keeps, peek_type-Keeps, read_null-Keeps,
}
use sqlike.Jsonb.Str.{skip_string_loop, skip_string, read_string}
use sqlike.Jsonb.Str.Agree.{skip_string-read_string}
use sqlike.Jsonb.Skip.{
  skip_array_loop, skip_array, skip_number_loop, skip_number, skip_boolean, skip_object, or_else,
  skip_key, by_type, skip, skip_object_loop, read_bytes,
}

skip_string_loop-Keeps : (f i c : ℕ) → Keeps (skip_string_loop f i c)
unfolding skip_string_loop
skip_string_loop-Keeps zero i c r v = (v, omega arith)
skip_string_loop-Keeps (suc f) i c r v = elim (Option-cases (get_elem? r.b i)) [
  | inl end ↦ ground arith
  | inr (d, here) ↦ ground (
    arith,
    skip_string_loop-Keeps f (i + 1) d r v,
    skip_string_loop-Keeps f (i + 2) d r v,
    skip_string_loop-Keeps f i d r v,
  )
]

skip_string-Keeps : Keeps skip_string
unfolding skip_string
skip_string-Keeps = bind_Keeps next_token _ next_token-Keeps (λ c.
    if_Keeps (c == b'n') _ _ (unread_Keeps read_null read_null-Keeps) (
      if_Keeps (not (c == b'"')) _ _ (λ r v. (v, omega arith))
        (bind_Keeps (λ r. skip_string_loop (suc r.len) r.pos c r) _
          (λ r v. skip_string_loop-Keeps (suc r.len) r.pos c r v)
          (λ d. if_Keeps (d == b'"') _ _ (λ r v. (v, omega arith)) (λ r v. (v, omega arith))))))

pub read_string-Keeps : Keeps read_string
read_string-Keeps r v =
    subst (λ s. IsValid s × (s.len ≤ r.len)) (skip_string-read_string r).0 (skip_string-Keeps r v)

skip_array_loop-Keeps : (f i level : ℕ) → Keeps (skip_array_loop f i level)
unfolding skip_array_loop
skip_array_loop-Keeps zero i level r v = (v, omega arith)
skip_array_loop-Keeps (suc f) i level r v = ground (
  arith,
  skip_array_loop-Keeps f (i + 1) (level + 1) r v,
  skip_array_loop-Keeps f (i + 1) level r v,
  skip_array_loop-Keeps f (i + 1) (level - 1) r v,
)

skip_array-Keeps : Keeps skip_array
unfolding skip_array
skip_array-Keeps = bind_Keeps next_token _ next_token-Keeps (λ c.
    if_Keeps (c == b'[') _ _ (λ r v. skip_array_loop-Keeps (suc r.len) r.pos 1 r v)
      (λ r v. (v, omega arith)))

skip_number_loop-Keeps : (f i : ℕ) → Keeps (skip_number_loop f i)
unfolding skip_number_loop
skip_number_loop-Keeps zero i r v = (v, omega arith)
skip_number_loop-Keeps (suc f) i r v = ground (arith, skip_number_loop-Keeps f (i + 1) r v)

skip_number-Keeps : Keeps skip_number
unfolding skip_number
skip_number-Keeps = bind_Keeps next_token _ next_token-Keeps (λ c.
    if_Keeps (c == b'n') _ _ (ignore-Keeps _ (unread_Keeps read_null read_null-Keeps))
      (λ r v. skip_number_loop-Keeps (suc r.len) r.pos r v))

skip_boolean-Keeps : Keeps skip_boolean
unfolding skip_boolean
skip_boolean-Keeps = bind_Keeps peek _ peek-Keeps (λ c.
    if_Keeps (c == b'n') _ _ (word (codes "null")) (
      if_Keeps (c == b't') _ _ (word (codes "true"))
        (if_Keeps (c == b'f') _ _ (word (codes "false")) (λ r v. (v, omega arith)))))
  where
    word : (w : Bytes) → Keeps (ignore (skip_bytes w))
    word w = ignore-Keeps (skip_bytes w) (skip_bytes-Keeps w)

skip_object-Keeps : (loop : M (Unit {0})) → Keeps loop → Keeps (skip_object loop)
unfolding skip_object
skip_object-Keeps loop k = bind_Keeps next_token _ next_token-Keeps (λ c.
    if_Keeps (not (c == b'{')) _ _ (λ r v. (v, omega arith))
      (bind_Keeps loop _ k (λ u r v. ground arith)))

or_else-Keeps : (m : M (Unit {0})) → Keeps m → Keeps (or_else (plain "object key must be string") m)
unfolding or_else
or_else-Keeps m k r v = let kept = k r v in ground arith

skip_key-Keeps : Keeps skip_key
unfolding skip_key
skip_key-Keeps = bind_Keeps _ _ (or_else-Keeps _ (unread_Keeps skip_string skip_string-Keeps)) (λ _.
    bind_Keeps next_token _ next_token-Keeps
      (λ c. if_Keeps (c == b':') _ _ (λ r v. (v, omega arith)) (λ r v. (v, omega arith))))

by_type-Keeps : (t : JsonType) (loop : M (Unit {0})) → Keeps loop → Keeps (by_type t loop)
unfolding by_type
by_type-Keeps json_string loop k = skip_string-Keeps
by_type-Keeps json_number loop k = skip_number-Keeps
by_type-Keeps json_boolean loop k = skip_boolean-Keeps
by_type-Keeps json_null loop k = skip_bytes-Keeps (codes "null")
by_type-Keeps json_array loop k = skip_array-Keeps
by_type-Keeps json_object loop k = ignore-Keeps _ (skip_object-Keeps loop k)
by_type-Keeps json_whitespace loop k = same_Keeps (ok tt)
by_type-Keeps json_invalid loop k = same_Keeps (ok tt)

elim_Keeps :
    (b : Bool) (m k : M (Unit {0}))
    → Keeps m
    → Keeps k
    → Keeps {A = Unit {0}} (elim b [ true ↦ m | false ↦ k ])
elim_Keeps true m k km kk = km
elim_Keeps false m k km kk = kk

-- Behind the value of a member.
after-Keeps :
    (d : ℕ) (more : M (Unit {0}))
    → Keeps more
    → Keeps {A = Unit {0}} (elim (d == b'}') [
      | true ↦ return tt
      | false ↦ elim (d == b',') [
        | true ↦ more
        | false ↦ throw (plain "expected , or } after object value")
      ]
    ])
after-Keeps d more k =
    elim_Keeps (d == b'}') _ _ (λ r v. (v, omega arith))
      (elim_Keeps (d == b',') _ _ k (λ r v. (v, omega arith)))

mutual
  unfolding skip

  value-Keeps : (f : ℕ) → Keeps (skip f)
  value-Keeps zero r v = (v, omega arith)
  value-Keeps (suc f) r v =
      bind_Keeps peek_type _ peek_type-Keeps
        (λ t. by_type-Keeps t (skip_object_loop f) (λ s w. members-Keeps f s w)) r v

  members-Keeps : (f : ℕ) → Keeps (skip_object_loop f)
  members-Keeps zero r v = (v, omega arith)
  members-Keeps (suc f) r v =
      bind_Keeps next_token _ next_token-Keeps
        (λ c.
          if_Keeps (c == b'}') _ _ (λ r v. (v, omega arith))
            (if_Keeps (not (c == b'"')) _ _ (λ r v. (v, omega arith))
              (bind_Keeps skip_key _ skip_key-Keeps (λ _.
                bind_Keeps (skip f) _ (λ s w. value-Keeps f s w)
                  (λ _.
                    bind_Keeps next_token _ next_token-Keeps
                      (λ d. after-Keeps d (skip_object_loop f) (λ s w. members-Keeps f s w)))))))
        r v

-- `ReadBytes` leaves a valid reader valid, with a buffer that is no longer than before, whatever the
-- input holds and however the call ends.
pub read_bytes-Keeps :
    (r : Reader) → IsValid r → IsValid (read_bytes r).0 × ((read_bytes r).0.len ≤ r.len)
unfolding read_bytes
read_bytes-Keeps r v = let kept = value-Keeps (suc r.len) r v in ground arith
