-- ===== src/Jsonb/Array/Valid.antt =====
-- `ReadArray` and `ReadObject` keep a reader valid, whatever the input holds and whatever the
-- callback does.
use sqlike.Common.{
  ℕ, zero, suc, ◌≤◌, Bool, true, false, not, Option, none, some, Bytes, codes, arith, ◌==◌,
}
use sqlike.Jsonb.Outcome.{Outcome}
use sqlike.Jsonb.Reader.{Reader, M, next_token, new_reader, peek}
use sqlike.Jsonb.Reader.Valid.{
  IsValid, Keeps, next_token-Keeps, bind_Keeps, if_Keeps, unread_Keeps, same_Keeps, peek-Keeps,
  skip_bytes-Keeps,
}
use sqlike.Jsonb.Skip.{read_bytes, skip_null}
use sqlike.Jsonb.Skip.Valid.{read_bytes-Keeps, read_string-Keeps}
use sqlike.Jsonb.Str.{read_string}
use sqlike.Jsonb.Array.{call, read_array, read_array_loop, read_object, read_object_loop}

skip_null-Keeps : Keeps skip_null
unfolding skip_null
skip_null-Keeps =
    bind_Keeps peek _ peek-Keeps
      (λ c. if_Keeps (c == b'n') _ _ (skip_bytes-Keeps (codes "null")) (λ r v. (v, omega arith)))

module _ {S : Type 0} where
  call-Keeps : (cb : Option (Reader → S → Outcome S)) (b : Bytes) (s : S) → Keeps (call cb b s)
  call-Keeps none b s r v = (v, omega arith)
  call-Keeps (some cb) b s r v = (v, omega arith)

  elim_Keeps :
      (b : Bool) (m k : M S) → Keeps m → Keeps k → Keeps {A = S} (elim b [ true ↦ m | false ↦ k ])
  elim_Keeps true m k km kk = km
  elim_Keeps false m k km kk = kk

  array_loop-Keeps :
      (f : ℕ) (cb : Option (Reader → S → Outcome S)) (s : S) → Keeps (read_array_loop f cb s)
  unfolding read_array_loop
  array_loop-Keeps zero cb s r v = (v, omega arith)
  array_loop-Keeps (suc f) cb s r v =
      bind_Keeps read_bytes _ read_bytes-Keeps
        (λ b. bind_Keeps (call cb b s) _ (call-Keeps cb b s) (λ s'.
          bind_Keeps next_token _ next_token-Keeps (λ c.
            elim_Keeps (c == b',') _ _ (λ r w. array_loop-Keeps f cb s' r w)
              (if_Keeps (c == b']') _ _ (λ r w. (w, omega arith)) (λ r w. (w, omega arith))))))
        r v

  -- `ReadArray` leaves a valid reader valid, with a buffer that is no longer than before, whatever the
  -- input holds and whatever the callback does.
  read_array-Keeps :
      (cb : Option (Reader → S → Outcome S)) (s : S) (r : Reader)
      → IsValid r
      → IsValid (read_array cb s r).0 × ((read_array cb s r).0.len ≤ r.len)
  unfolding read_array
  read_array-Keeps cb s = bind_Keeps next_token _ next_token-Keeps (λ c.
      if_Keeps (c == b'n') _ _
        (bind_Keeps _ _ (unread_Keeps skip_null skip_null-Keeps) (λ _ r w. (w, omega arith)))
        (if_Keeps (not (c == b'[')) _ _ (λ r w. (w, omega arith))
          (bind_Keeps next_token _ next_token-Keeps (λ d.
            if_Keeps (d == b']') _ _ (λ r w. (w, omega arith))
              (unread_Keeps (λ u. read_array_loop (suc u.len) cb s u)
                (λ u w. array_loop-Keeps (suc u.len) cb s u w))))))

  object_loop-Keeps :
      (f : ℕ) (cb : Reader → Bytes → S → Outcome S) (s : S) → Keeps (read_object_loop f cb s)
  unfolding read_object_loop
  object_loop-Keeps zero cb s r v = (v, omega arith)
  object_loop-Keeps (suc f) cb s r v =
      bind_Keeps next_token _ next_token-Keeps
        (λ c.
          if_Keeps (c == b'}') _ _ (λ r w. (w, omega arith))
            (if_Keeps (not (c == b'"')) _ _ (λ r w. (w, omega arith))
              (bind_Keeps _ _ (unread_Keeps read_string read_string-Keeps) (λ k.
                bind_Keeps next_token _ next_token-Keeps (λ d.
                  if_Keeps (not (d == b':')) _ _ (λ r w. (w, omega arith))
                    (bind_Keeps read_bytes _ read_bytes-Keeps (λ b.
                      bind_Keeps (λ r. (r, cb (new_reader b) k s)) _
                        (same_Keeps (cb (new_reader b) k s))
                        (λ s'. bind_Keeps next_token _ next_token-Keeps (λ e.
                          elim_Keeps (e == b',') _ _ (λ r w. object_loop-Keeps f cb s' r w)
                            (if_Keeps (e == b'}') _ _ (λ r w. (w, omega arith))
                              (λ r w. (w, omega arith))))))))))))
        r v

  -- `ReadObject` leaves a valid reader valid, with a buffer that is no longer than before, whatever
  -- the input holds and whatever the callback does.
  pub read_object-Keeps :
      (cb : Reader → Bytes → S → Outcome S) (s : S) (r : Reader)
      → IsValid r
      → IsValid (read_object cb s r).0 × ((read_object cb s r).0.len ≤ r.len)
  unfolding read_object
  read_object-Keeps cb s = bind_Keeps next_token _ next_token-Keeps (λ c.
      if_Keeps (not (c == b'{')) _ _ (λ r w. (w, omega arith))
        (λ r w. object_loop-Keeps (suc r.len) cb s r w))
