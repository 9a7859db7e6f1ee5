-- ===== src/Sql/Migrate/Refines/Leave.antt =====
-- Names that are apart, and the columns that are left.
use sqlike.Common.{
  ◌≡◌, refl, sym, ap, ◌∙◌, true, false, List, [], ◌∷◌, ◌++◌, Bytes, arith, same, same_iff, inl, inr,
  Bool-cases,
}
use sqlike.Sql.Migrate.Refines.{has, remove, Distinct, leave, has-append}

pub same_sym : (a b : Bytes) → same a b ≡ false → same b a ≡ false
same_sym a b h = elim (Bool-cases (same b a)) [
  | inr e ↦ e
  | inl e ↦
      let q : b ≡ a = (same_iff b a).0 e in let r : same a b ≡ true = (same_iff a b).1 (sym q) in cc
]

-- In a list of different names, the ones in front of a name are not it.
pub has-before : (p : Bytes) (xs ys : List Bytes) → Distinct (xs ++ p ∷ ys) → has p xs ≡ false
unfolding has
has-before p [] ys h = refl
has-before p (x ∷ xs) ys (h, k) =
    let e : same p x ≡ false = ground (arith, has-append x xs (p ∷ ys)) in
    ground (arith, same_sym p x e, has-before p xs ys k)

remove-keeps : (m n : Bytes) (xs : List Bytes) → has m xs ≡ false → has m (remove n xs) ≡ false
unfolding has remove
remove-keeps m n [] h = refl
remove-keeps m n (x ∷ xs) h = ground (arith, remove-keeps m n xs)

remove-Distinct : (n : Bytes) (xs : List Bytes) → Distinct xs → Distinct (remove n xs)
unfolding remove
remove-Distinct n [] h = tt
remove-Distinct n (x ∷ xs) (h, k) = elim (Bool-cases (same x n)) [
  | inl e ↦ rw e k
  | inr e ↦ rw e (remove-keeps x n xs h, remove-Distinct n xs k)
]

has-remove : (n : Bytes) (xs : List Bytes) → Distinct xs → has n (remove n xs) ≡ false
unfolding has remove
has-remove n [] h = refl
has-remove n (x ∷ xs) (h, k) = elim (Bool-cases (same x n)) [
  | inl e ↦ rw e (ap (λ y. has y xs) (sym ((same_iff x n).0 e)) ∙ h)
  | inr e ↦ rw (e, e) (has-remove n xs k)
]

leave-keeps : (m : Bytes) (ns xs : List Bytes) → has m xs ≡ false → has m (leave ns xs) ≡ false
unfolding leave
leave-keeps m [] xs h = h
leave-keeps m (n ∷ ns) xs h = leave-keeps m ns (remove n xs) (remove-keeps m n xs h)

-- No name of the first list stands in the second.
abbrev pub Apart : List Bytes → List Bytes → Type 0
Apart [] ns = Unit {0}
Apart (c ∷ cs) ns = (has c ns ≡ false) × Apart cs ns

Apart-nothing : (cs : List Bytes) → Apart cs []
unfolding has
Apart-nothing [] = tt
Apart-nothing (c ∷ cs) = (refl, Apart-nothing cs)

Apart-one : (n : Bytes) (ns cs : List Bytes) → has n cs ≡ false → Apart cs ns → Apart cs (n ∷ ns)
unfolding has
Apart-one n ns [] h a = tt
Apart-one n ns (c ∷ cs) h (a, b) =
    let e : same c n ≡ false = ground arith in
    (ground (arith, same_sym c n e), Apart-one n ns cs (ground arith) b)

-- What is left is apart from the names.
pub leave-Apart : (ns cols : List Bytes) → Distinct cols → Apart (leave ns cols) ns
unfolding leave
leave-Apart [] cols h = Apart-nothing cols
leave-Apart (n ∷ ns) cols h =
    Apart-one n ns (leave ns (remove n cols))
      (leave-keeps n ns (remove n cols) (has-remove n cols h))
      (leave-Apart ns (remove n cols) (remove-Distinct n cols h))
