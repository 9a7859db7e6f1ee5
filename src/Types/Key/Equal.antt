-- ===== src/Types/Key/Equal.antt =====
-- `Equal` of types/key.go, and the functions that copy a key.
use sqlike.Common.{
  ◌≡◌, refl, sym, ap, ◌∙◌, Bool, true, false, arith, ◌&&◌, not, same, same_iff, same_self,
  if◌then◌else◌, ◌↔◌,
}
use sqlike.Sql.Primitive.{ℤ, pos, negsuc}
use sqlike.Types.Key.{key, Pointer, nil, to, same_int, same_fields, equal, copy_key}

same_int_self : (i : ℤ) → same_int i i ≡ true
same_int_self (pos n) = ground arith
same_int_self (negsuc n) = ground arith

same_int_eq : (i j : ℤ) → same_int i j ≡ true → i ≡ j
same_int_eq (pos m) (pos n) h = ap pos (ground arith)
same_int_eq (negsuc m) (negsuc n) h = ap negsuc (ground arith)
same_int_eq (pos m) (negsuc n) h = absurd (ground arith)
same_int_eq (negsuc m) (pos n) h = absurd (ground arith)

equal_self : (p : Pointer) → equal p p ≡ true
unfolding equal
equal_self nil = refl
equal_self (to (key ns kind i n p)) =
    rw (same_self ns, same_self n, same_int_self i, same_self kind, equal_self p) refl

and_parts : (a b : Bool) → (a && b) ≡ true → (a ≡ true) × (b ≡ true)
and_parts a b h = (ground arith, ground arith)

if_not : (a b : Bool) → (if not a then false else b) ≡ true → (a ≡ true) × (b ≡ true)
if_not a b h = (ground arith, ground arith)

equal_eq : (p q : Pointer) → equal p q ≡ true → p ≡ q
unfolding equal
equal_eq nil nil h = refl
equal_eq nil (to o) h = absurd (ground arith)
equal_eq (to (key ns kind i n p)) nil h = absurd (ground arith)
equal_eq (to (key ns kind i n p)) (to (key ns' kind' i' n' p')) h =
    let (a, rest) =
      if_not (same_fields (key ns kind i n p) (key ns' kind' i' n' p')) (equal p p') h in
    let a1 : same ns ns' ≡ true = ground arith in
    let a2 : same n n' ≡ true = ground arith in
    let a3 : same_int i i' ≡ true = ground arith in
    let a4 : same kind kind' ≡ true = ground arith in
    let e1 = (same_iff ns ns').0 a1 in
    let e2 = (same_iff n n').0 a2 in
    let e3 = same_int_eq i i' a3 in
    let e4 = (same_iff kind kind').0 a4 in let e5 = equal_eq p p' rest in cc

-- `Equal` holds of two keys, or of nil, exactly when their namespaces, kinds, numbers, names and parents are
-- the same, at each level.
pub equal_iff : (p q : Pointer) → (equal p q ≡ true) ↔ (p ≡ q)
equal_iff p q = (equal_eq p q, λ (e : p ≡ q). ap (equal p) (sym e) ∙ equal_self p)

-- A clone is equal to the key.
copy_key-eq : (p : Pointer) → copy_key p ≡ p
unfolding copy_key
copy_key-eq nil = refl
copy_key-eq (to (key ns kind i n p)) = ap (λ q. to (key ns kind i n q)) (copy_key-eq p)
