-- ===== src/Reflext/Tests.antt =====
-- Runs of the walk over struct types.
use sqlike.Common.{
  take, ◌++◌, drop, ℕ, zero, suc, ◌≡◌, refl, ◌<◌, ◌⊎◌, inl, true, false, List, [], ◌∷◌, Option,
  none, some, Bytes, codes, same, ◌==◌, arith,
}
use sqlike.Go.Split.{split}
use sqlike.Reflext.Tag.{Library, parse_tag, parse_options, split_option}
use sqlike.Reflext.Walk.{Decl, StructField, walk, root, visit}
use sqlike.Reflext.Ends.{Descends, LeadsOn, walk-ends, walk-runs_on}
use sqlike.Reflext.Distinct.{Named, Distinct, properties-Distinct}
use sqlike.Reflext.Properties.{get_codec, properties, sort, find_index}

abbrev plain_library : Library
plain_library = record { trim_space = λ w. w; to_lower = λ w. w }

abbrev field : Bytes → Bytes → Option ℕ → Decl
field n tag s = record {
  name = n;
  is_exported = true;
  is_anonymous = false;
  tag_text = tag;
  is_nullable = false;
  struct_type = s;
}

-- `type Leaf struct { Val string }`, `type Node struct { Leaf Leaf; Next *Node }`
abbrev chained : ℕ → List Decl
chained zero = field (codes "Val") (codes "val,size=20") none ∷ []
chained (suc n) = field (codes "Leaf") [] (some 0) ∷ field (codes "Next") [] (some (suc n)) ∷ []

-- `type A struct { B *B }`, `type B struct { A *A }`
abbrev knotted : ℕ → List Decl
knotted zero = field (codes "B") [] (some 1) ∷ []
knotted (suc n) = field (codes "A") [] (some 0) ∷ []

parse_tag_run : parse_tag plain_library none (codes "Val") (codes "val,size=20,unique") ≡ record {
  original_name = codes "val";
  name = codes "val";
  opts = (codes "unique", []) ∷ (codes "size", codes "20") ∷ [];
}
unfolding parse_tag parse_options split_option split
parse_tag_run = refl

own_type : (n u : ℕ) → some (suc n) ≡ some u → ((suc n == u) ≡ true) ⊎ (u < suc n)
own_type n u e = ground arith

leaf_type : (n u : ℕ) → some 0 ≡ some u → ((suc n == u) ≡ true) ⊎ (u < suc n)
leaf_type n u e = ground arith

chained-Descends : (t : ℕ) → Descends (λ n. n) t (chained t)
chained-Descends zero = ((λ u e. cc), _)
chained-Descends (suc n) = (leaf_type n, (own_type n, _))

walk-ends_example :
    (f : ℕ) × (fs : List StructField) × (walk plain_library none chained f (root 1 ∷ []) ≡ some fs)
walk-ends_example = walk-ends plain_library none chained (λ n. n) 1 chained-Descends

knotted-LeadsOn : (t : ℕ) → Unit {0} → LeadsOn plain_library none (λ u. Unit {0}) t (knotted t)
unfolding parse_tag parse_options split same
knotted-LeadsOn zero _ = inl (refl, 1, refl, refl, _)
knotted-LeadsOn (suc n) _ = inl (refl, 0, refl, ground arith, _)

walk-runs_on_example : walk plain_library none knotted 5 (root 0 ∷ []) ≡ none
walk-runs_on_example = walk-runs_on plain_library none knotted (λ u. Unit {0}) 0 knotted-LeadsOn _ 5

-- `id` of an embedded struct, and `ID` of the struct around it.
abbrev two_ids : List StructField
two_ids =
    record {
      index = 0 ∷ 0 ∷ [];
      name = codes "Id";
      path = codes "id";
      is_nullable = false;
      tag = record { original_name = codes "id"; name = codes "id"; opts = [] };
      is_embedded = false;
      parents = true ∷ [];
    }
    ∷ record {
      index = 1 ∷ [];
      name = codes "ID";
      path = codes "id";
      is_nullable = false;
      tag = record { original_name = codes "id"; name = codes "id"; opts = [] };
      is_embedded = false;
      parents = [];
    }
    ∷ []

override_run : properties plain_library two_ids [] ≡ drop 1 two_ids
unfolding properties find_index same
override_run = refl

two_ids-Named : Named two_ids
two_ids-Named = ((λ h. refl), ((λ h. refl), _))

properties-Distinct_example : Distinct plain_library (properties plain_library two_ids [])
properties-Distinct_example = properties-Distinct plain_library two_ids [] two_ids-Named _

-- With the embedded struct behind it, the field of the struct around it is the one that is left out.
override_lost : properties plain_library (drop 1 two_ids ++ take 1 two_ids) [] ≡ take 1 two_ids
unfolding properties find_index same
override_lost = refl

codec_run :
    get_codec plain_library none chained 3 0
    ≡ some (
        record {
          index = 0 ∷ [];
          name = codes "Val";
          path = codes "val";
          is_nullable = false;
          tag = record {
            original_name = codes "val";
            name = codes "val";
            opts = (codes "size", codes "20") ∷ [];
          };
          is_embedded = false;
          parents = [];
        }
        ∷ [])
unfolding get_codec walk visit properties sort find_index parse_tag parse_options split_option split
    same
codec_run = refl
