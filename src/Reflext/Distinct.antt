-- ===== src/Reflext/Distinct.antt =====
-- The names of the properties that the second loop of `getCodec` of reflext/reflext.go chooses.
use sqlike.Common.{
  ℕ, ◌≡◌, refl, sym, subst, inl, inr, Bool, true, false, List, [], ◌∷◌, ◌++◌, Option, none, some,
  Bytes, same, same_iff, if◌then◌else◌, Bool-cases,
}
use sqlike.Reflext.Tag.{Library}
use sqlike.Reflext.Walk.{StructField}
use sqlike.Reflext.Properties.{
  found, find_index, without, is_nested, same_name, add_property, properties,
}

-- No field has this name.
abbrev Absent : Library → Bytes → List StructField → Type 0
Absent lib n [] = Unit {0}
Absent lib n (p ∷ ps) = (same (lib.to_lower p.tag.name) n ≡ false) × Absent lib n ps

-- The names of the fields, in lower case, differ.
abbrev pub Distinct : Library → List StructField → Type 0
Distinct lib [] = Unit {0}
Distinct lib (p ∷ ps) = Absent lib (lib.to_lower p.tag.name) ps × Distinct lib ps

-- The path of a field that can become a property is the name in its tag.
abbrev pub Named : List StructField → Type 0
Named [] = Unit {0}
Named (sf ∷ sfs) = ((is_nested sf ≡ false) → sf.path ≡ sf.tag.name) × Named sfs

without-found :
    (b : Bool) (o : Option ℕ) (p : StructField) (ps : List StructField)
    → without (found b o) (p ∷ ps) ≡ (if b then ps else p ∷ without o ps)
without-found true o p ps = refl
without-found false none p ps = refl
without-found false (some i) p ps = refl

without-next :
    (cb : StructField → Bool) (p : StructField) (ps : List StructField)
    → without (find_index cb (p ∷ ps)) (p ∷ ps)
      ≡ (if cb p then ps else p ∷ without (find_index cb ps) ps)
unfolding find_index
without-next cb p ps = without-found (cb p) (find_index cb ps) p ps

-- A name that no field has is that of no field that is left.
without-Absent :
    (lib : Library) (n : Bytes) (cb : StructField → Bool) (ps : List StructField)
    → Absent lib n ps
    → Absent lib n (without (find_index cb ps) ps)
unfolding find_index
without-Absent lib n cb [] h = _
without-Absent lib n cb (p ∷ ps) (h, k) = elim (Bool-cases (cb p)) [
  | inl e ↦ rw (without-next cb p ps, e) k
  | inr e ↦ rw (without-next cb p ps, e) (h, without-Absent lib n cb ps k)
]

without-Distinct :
    (lib : Library) (cb : StructField → Bool) (ps : List StructField)
    → Distinct lib ps
    → Distinct lib (without (find_index cb ps) ps)
unfolding find_index
without-Distinct lib cb [] h = _
without-Distinct lib cb (p ∷ ps) (h, k) = elim (Bool-cases (cb p)) [
  | inl e ↦ rw (without-next cb p ps, e) k
  | inr e ↦
      rw (without-next cb p ps, e)
        (without-Absent lib (lib.to_lower p.tag.name) cb ps h, without-Distinct lib cb ps k)
]

Absent-same :
    (lib : Library) (m n : Bytes) (ps : List StructField)
    → same m n ≡ true
    → Absent lib m ps
    → Absent lib n ps
Absent-same lib m n ps e h = subst (λ x. Absent lib x ps) ((same_iff m n).0 e) h

-- Of fields with different names none has the name that was taken out.
without-name :
    (lib : Library) (sf : StructField) (ps : List StructField)
    → Distinct lib ps
    → Absent lib (lib.to_lower sf.path) (without (find_index (same_name lib sf) ps) ps)
unfolding find_index
without-name lib sf [] h = _
without-name lib sf (p ∷ ps) (h, k) = elim (Bool-cases (same_name lib sf p)) [
  | inl e ↦
      rw (without-next (same_name lib sf) p ps, e) (Absent-same lib _ (lib.to_lower sf.path) ps e h)
  | inr e ↦ rw (without-next (same_name lib sf) p ps, e) (e, without-name lib sf ps k)
]

append-Absent :
    (lib : Library) (n : Bytes) (ps : List StructField) (sf : StructField)
    → Absent lib n ps
    → same (lib.to_lower sf.tag.name) n ≡ false
    → Absent lib n (ps ++ sf ∷ [])
append-Absent lib n [] sf h e = (e, _)
append-Absent lib n (p ∷ ps) sf (h, k) e = (h, append-Absent lib n ps sf k e)

same_flip : (m n : Bytes) → same m n ≡ false → same n m ≡ false
same_flip m n e = elim (Bool-cases (same n m)) [
  | inl f ↦ let t = (same_iff m n).1 (sym ((same_iff n m).0 f)) in cc
  | inr f ↦ f
]

append-Distinct :
    (lib : Library) (ps : List StructField) (sf : StructField)
    → Distinct lib ps
    → Absent lib (lib.to_lower sf.tag.name) ps
    → Distinct lib (ps ++ sf ∷ [])
append-Distinct lib [] sf d a = (_, _)
append-Distinct lib (p ∷ ps) sf (h, k) (a, b) =
    (append-Absent lib _ ps sf h (same_flip _ _ a), append-Distinct lib ps sf k b)

either_way :
    (lib : Library) (x y z : Bool) (ps qs rs : List StructField)
    → Distinct lib ps
    → Distinct lib qs
    → ((z ≡ false) → Distinct lib rs)
    → Distinct lib (if x then ps else if y then ps else if z then qs else rs)
either_way lib true y z ps qs rs h k l = h
either_way lib false true z ps qs rs h k l = h
either_way lib false false true ps qs rs h k l = k
either_way lib false false false ps qs rs h k l = l refl

add_property-Distinct :
    (lib : Library) (sf : StructField) (ps : List StructField)
    → ((is_nested sf ≡ false) → sf.path ≡ sf.tag.name)
    → Distinct lib ps
    → Distinct lib (add_property lib sf ps)
add_property-Distinct lib sf ps e d =
    let left = without-Distinct lib (same_name lib sf) ps d in
    let gone = without-name lib sf ps d in
    either_way lib _ sf.is_embedded (is_nested sf) ps _ _ d left (λ z.
      append-Distinct lib _ sf left (
        subst (λ x. Absent lib (lib.to_lower x) (without (find_index (same_name lib sf) ps) ps))
          (e z) gone))

-- Fields of which each that is not inside a struct of its own has the path that its tag names: the properties
-- that are chosen from them have different names, without regard to the case of letters.
pub properties-Distinct :
    (lib : Library) (sfs ps : List StructField)
    → Named sfs
    → Distinct lib ps
    → Distinct lib (properties lib sfs ps)
unfolding properties
properties-Distinct lib [] ps n d = d
properties-Distinct lib (sf ∷ sfs) ps (e, n) d =
    properties-Distinct lib sfs (add_property lib sf ps) n (add_property-Distinct lib sf ps e d)
