-- ===== src/Jsonb/Codec/Lift.antt =====
-- The callbacks of jsonb/decoder.go on an array or an object that stands behind a first part: what they do to the
-- rest of the variables.
use sqlike.Common.{
  ℕ, suc, ◌≡◌, sym, ap, ◌∙◌, false, List, [], ◌∷◌, Bytes, arith, same, inl, inr, Bool-cases,
  Option-cases, append-nil,
}
use sqlike.Jsonb.Outcome.{Outcome, ok, err, panic, spin}
use sqlike.Jsonb.Reader.{Reader, M, new_reader, is_null}
use sqlike.Jsonb.Str.{encode_string, read_string}
use sqlike.Jsonb.Str.RoundTrip.{read_string-encode_string}
use sqlike.Jsonb.Array.Elements as Elements
use sqlike.Jsonb.Array.Members as Members
use sqlike.Jsonb.Value.{with_result}
use sqlike.Jsonb.Codec.Types.{
  GoType, FieldTypes, field_type, Val, Vals, val, Entries, entry, get, set, append, set_map_index,
}
use sqlike.Jsonb.Codec.Encode.{Library}
use sqlike.Jsonb.Codec.Decode.{
  and_then, decode_index, decode_append, decode_pair, decode_member, decode_field, decode,
}
use sqlike.Jsonb.Codec.Fits.{Plain, Documented}
use sqlike.Jsonb.Codec.Text.{quote-encode_string}

with_result-ok :
    {A B C : Type 0} (o : Outcome A) (g : A → B) (f : B → C) (u : B)
    → with_result o g ≡ ok u
    → with_result o (λ a. f (g a)) ≡ ok (f u)
with_result-ok (ok a) g f u h = let e : g a ≡ u = cc h in ap (λ x. ok (f x)) e
with_result-ok (err e) g f u h = cc
with_result-ok panic g f u h = cc
with_result-ok spin g f u h = cc

abbrev pub AllKeys : (Bytes → Type 0) → List (Bytes × Bytes) → Type 0
AllKeys P [] = Unit {0}
AllKeys P ((k, w) ∷ kvs) = P k × AllKeys P kvs

module _ {S T : Type 0} (f : S → T) where
  -- A callback on other variables that does the same to a part of them.
  pub lift-elements :
      (cb : Reader → S → Outcome S) (cb' : Reader → T → Outcome T)
      → ((w : Bytes) (s u : S) → cb (new_reader w) s ≡ ok u → cb' (new_reader w) (f s) ≡ ok (f u))
      → (ws : List Bytes) (s t : S) → Elements.Visits cb ws s t
      → Elements.Visits cb' ws (f s) (f t)
  lift-elements cb cb' h [] s t e = ap f e
  lift-elements cb cb' h (w ∷ ws) s t (u, e, r) = (f u, h w s u e, lift-elements cb cb' h ws u t r)

  pub lift-members :
      (P : Bytes → Type 0) (cb : Reader → Bytes → S → Outcome S)
      (cb' : Reader → Bytes → T → Outcome T)
      → ((w k : Bytes) (s u : S)
          → P k
          → cb (new_reader w) k s ≡ ok u
          → cb' (new_reader w) k (f s) ≡ ok (f u))
      → (kvs : List (Bytes × Bytes)) (s t : S) → AllKeys P kvs
      → Members.Visits cb kvs s t
      → Members.Visits cb' kvs (f s) (f t)
  lift-members P cb cb' h [] s t ps e = ap f e
  lift-members P cb cb' h ((k, w) ∷ kvs) s t (p, ps) (u, e, r) =
      (f u, h w k s u p e, lift-members P cb cb' h kvs u t ps r)

-- Behind a first value.
pub behind_val :
    (v : Val) (m : M Val) (w : Bytes) (s u : Vals)
    → decode_append m (new_reader w) s ≡ ok u
    → decode_append m (new_reader w) (val v s) ≡ ok (val v u)
unfolding decode_append
behind_val v m w s u h = with_result-ok (m (new_reader w)).1 (λ x. append s x) (val v) u h

abbrev pub one_more : Val → ℕ × Vals → ℕ × Vals
one_more v p = (suc p.0, val v p.1)

pub behind_index :
    (v : Val) (m : Val → M Val) (w : Bytes) (s u : ℕ × Vals)
    → decode_index m (new_reader w) s ≡ ok u
    → decode_index m (new_reader w) (one_more v s) ≡ ok (one_more v u)
unfolding decode_index
behind_index v m w (i, vs) u h = elim (Option-cases (get vs i)) [
  | inl e ↦ ground arith
  | inr (x, e) ↦ ground (
    arith,
    with_result-ok (m x (new_reader w)).1 (λ (y : Val). (suc i, set vs i y)) (one_more v) u,
  )
]

-- Behind a member of another name.
pub behind_field :
    (lib : Library) (n : Bytes) (t : GoType) (fs : FieldTypes) (v : Val) (w k : Bytes)
    (s u : Entries)
    → same n k ≡ false
    → decode_member (decode_field lib fs) (new_reader w) k s ≡ ok u
    → decode_member (decode_field lib (field_type n t fs)) (new_reader w) k (entry n v s)
      ≡ ok (entry n v u)
unfolding decode_member decode
behind_field lib n t fs v w k s u q h = elim (Bool-cases (is_null (new_reader w))) [
  | inl e ↦ ground arith
  | inr e ↦
      let f : decode_field lib fs (new_reader w) k s ≡ ok u = ground arith in ground (arith, f)
]

module _ (lib : Library) (doc : Documented lib) where
  -- The key of a map that `Quote` puts in quotes.
  pub key-quote : (k : Bytes) → Plain k → (read_string (new_reader (lib.quote k))).1 ≡ ok k
  key-quote k p =
      ap (λ w. (read_string (new_reader w)).1)
        (quote-encode_string lib doc k p ∙ sym (append-nil (encode_string k)))
      ∙ ap (λ (o : Reader × Outcome Bytes). o.1) (read_string-encode_string k [] [])

  abbrev pub Other : Bytes → Bytes → Type 0
  Other n k = Plain k × (same n k ≡ false)

  pub behind_entry :
      (n : Bytes) (v : Val) (m : M Val) (w k : Bytes) (s u : Entries)
      → Other n k
      → decode_pair lib m (new_reader w) k s ≡ ok u
      → decode_pair lib m (new_reader w) k (entry n v s) ≡ ok (entry n v u)
  unfolding decode_pair
  behind_entry n v m w k s u (p, q) h =
      rw (key-quote k p, q, and_then)
        (with_result-ok (m (new_reader w)).1 (λ x. set_map_index s k x) (entry n v) u
          (rw (key-quote k p, and_then) at h))
