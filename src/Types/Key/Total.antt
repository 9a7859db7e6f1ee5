-- ===== src/Types/Key/Total.antt =====
-- `unmarshal` of types/key.go ends: each round goes on with a shorter text.
use sqlike.Common.{
  ℕ, zero, suc, ◌<◌, ◌≡◌, refl, ap, ◌∙◌, Bool, true, false, List, [], ◌∷◌, Option, none, some,
  Bytes, codes, arith, length, take, length-take_of_le, same, if◌then◌else◌, inl, inr, Option-cases,
}
use sqlike.Go.Decimal.{parse_int}
use sqlike.Go.Split.{last_index}
use sqlike.Types.Key.{
  Key, key, KeyError, endless, invalid_number, WithError, set_identity, set_parts, ascend, on_slash,
  unmarshal_loop, unmarshal,
}

abbrev pub is_endless : Option KeyError → Bool
is_endless (some endless) = true
is_endless _ = false

if-ends : (b : Bool) → is_endless (if b then none else some invalid_number) ≡ false
if-ends true = refl
if-ends false = refl

if_with :
    (b : Bool) (x y : WithError)
    → is_endless x.1 ≡ false
    → is_endless y.1 ≡ false
    → is_endless (if b then x else y).1 ≡ false
if_with true x y h k = h
if_with false x y h k = k

set_identity-ends : (k : Key) (v : Bytes) → is_endless (set_identity k v).1 ≡ false
unfolding set_identity
set_identity-ends k [] = refl
set_identity-ends (key ns kind i n p) (c ∷ cs) = ground (arith, if-ends (parse_int (c ∷ cs)).1)

set_parts-ends : (k : Key) (ps : List Bytes) → is_endless (set_parts k ps).1 ≡ false
unfolding set_parts set_identity
set_parts-ends (key ns kind i n p) [] = refl
set_parts-ends (key ns kind i n p) (a ∷ []) = refl
set_parts-ends (key ns kind i n p) (a ∷ v ∷ []) = set_identity-ends (key ns a i n p) v
set_parts-ends (key ns kind i n p) (a ∷ v ∷ w ∷ ps) = refl

ascend-ends :
    (next : Key → Bytes → WithError) (r : WithError) (rest : Bytes)
    → is_endless r.1 ≡ false
    → ((k : Key) → is_endless (next k rest).1 ≡ false)
    → is_endless (ascend next r rest).1 ≡ false
ascend-ends next (k, some e) rest h i = h
ascend-ends next (key ns kind i n p, none) [] h j = refl
ascend-ends next (key ns kind i n p, none) (c ∷ cs) h j = j _

last_index_lt : (c : ℕ) (s : Bytes) (j : ℕ) → last_index c s ≡ some j → j < length s
unfolding last_index
last_index_lt c [] j h = absurd (ground arith)
last_index_lt c (x ∷ s) j h = elim (Option-cases (last_index c s)) [
  | inl e ↦ ground arith
  | inr (i, e) ↦ ground (arith, last_index_lt c s i e)
]

loop-ends :
    (f : ℕ) (k : Key) (s : Bytes) → length s < f → is_endless (unmarshal_loop f k s).1 ≡ false
unfolding unmarshal_loop on_slash set_identity
loop-ends zero k s h = absurd (omega arith)
loop-ends (suc f) k s h = elim (Option-cases (last_index b'/' s)) [
  | inl e ↦ ap (λ o. is_endless (on_slash (unmarshal_loop f) k s o).1) e ∙ set_parts-ends k _
  | inr (j, e) ↦
      let l = last_index_lt b'/' s j e in
      ap (λ o. is_endless (on_slash (unmarshal_loop f) k s o).1) e
      ∙ ascend-ends (unmarshal_loop f) _ (take j s) (set_parts-ends k _) (λ q.
        loop-ends f q (take j s) (omega (arith, l, length-take_of_le j s (omega (arith, l)))))
]

-- `unmarshal` ends on every text and every key, with a key or with one of the errors that it names.
pub unmarshal-ends : (k : Key) (s : Bytes) → is_endless (unmarshal k s).1 ≡ false
unfolding unmarshal
unmarshal-ends k s =
    if_with (same s (codes "null")) (k, none) _ refl (loop-ends (suc (length s)) k s (omega arith))
