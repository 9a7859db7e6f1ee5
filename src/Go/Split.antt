-- ===== src/Go/Split.antt =====
-- `strings.LastIndex` and `strings.Split` for a separator of one byte.
use sqlike.Common.{
  ℕ, suc, ◌≡◌, refl, false, List, [], ◌∷◌, ◌++◌, Option, none, some, Bytes, arith, ◌==◌,
  if◌then◌else◌, length,
}

unfoldable pub last_index : ℕ → Bytes → Option ℕ
last_index c [] = none
last_index c (x ∷ s) = elim (last_index c s) [
  | some i ↦ some (suc i)
  | none ↦ if x == c then some 0 else none
]

-- A byte in front of the first part.
abbrev onto_first : ℕ → List Bytes → List Bytes
onto_first x [] = (x ∷ []) ∷ []
onto_first x (p ∷ ps) = (x ∷ p) ∷ ps

unfoldable pub split : ℕ → Bytes → List Bytes
split c [] = [] ∷ []
split c (x ∷ s) = let rest = split c s in if x == c then [] ∷ rest else onto_first x rest

-- The byte does not stand in the text.
abbrev pub Lacks : ℕ → Bytes → Type 0
Lacks c [] = Unit {0}
Lacks c (x ∷ w) = ((x == c) ≡ false) × Lacks c w

pub append-Lacks : (c : ℕ) (v w : Bytes) → Lacks c v → Lacks c w → Lacks c (v ++ w)
append-Lacks c [] w h k = k
append-Lacks c (x ∷ v) w (h, i) k = (h, append-Lacks c v w i k)

pub last_index-Lacks : (c : ℕ) (w : Bytes) → Lacks c w → last_index c w ≡ none
unfolding last_index
last_index-Lacks c [] h = refl
last_index-Lacks c (x ∷ w) (h, k) = rw (last_index-Lacks c w k, h) refl

pub last_index-append :
    (c : ℕ) (v w : Bytes) → Lacks c w → last_index c (v ++ c ∷ w) ≡ some (length v)
unfolding last_index
last_index-append c [] w h = rw (last_index-Lacks c w h) (ground arith)
last_index-append c (x ∷ v) w h = rw (last_index-append c v w h) refl

split-Lacks : (c : ℕ) (w : Bytes) → Lacks c w → split c w ≡ w ∷ []
unfolding split
split-Lacks c [] h = refl
split-Lacks c (x ∷ w) (h, k) = rw (split-Lacks c w k, h) refl

pub split-append : (c : ℕ) (v w : Bytes) → Lacks c v → Lacks c w → split c (v ++ c ∷ w) ≡ v ∷ w ∷ []
unfolding split
split-append c [] w h k = rw (split-Lacks c w k) (ground arith)
split-append c (x ∷ v) w (h, i) k = rw (split-append c v w i k, h) refl
