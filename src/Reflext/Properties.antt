-- ===== src/Reflext/Properties.antt =====
-- The second loop of `getCodec` of reflext/reflext.go: the properties are chosen among the fields, in the order of
-- their indexes. The map from a name to its field is left out.
use sqlike.Common.{
  ℕ, suc, Bool, true, false, not, ◌&&◌, List, [], ◌∷◌, ◌++◌, Option, none, some, Bytes, same, ◌==◌,
  ltb, length, take, drop, if◌then◌else◌,
}
use sqlike.Reflext.Tag.{Library}
use sqlike.Reflext.Walk.{Decl, StructField, walk, root}

-- `Fields.Less`, on indexes.
unfoldable pub less : List ℕ → List ℕ → Bool
less [] ys = not (length ys == 0)
less (x ∷ xs) [] = false
less (x ∷ xs) (y ∷ ys) = if x == y then less xs ys else ltb x y

-- `sort.Sort(codec.fields)`: all indexes differ, so the order is that of any sort.
abbrev insert : StructField → List StructField → List StructField
insert sf [] = sf ∷ []
insert sf (x ∷ xs) = if less sf.index x.index then sf ∷ x ∷ xs else x ∷ insert sf xs

unfoldable pub sort : List StructField → List StructField
sort [] = []
sort (sf ∷ sfs) = insert sf (sort sfs)

abbrev pub found : Bool → Option ℕ → Option ℕ
found true o = some 0
found false none = none
found false (some i) = some (suc i)

-- `Fields.FindIndex`, with nothing for -1.
unfoldable pub find_index : (StructField → Bool) → List StructField → Option ℕ
find_index cb [] = none
find_index cb (sf ∷ sfs) = found (cb sf) (find_index cb sfs)

-- `append(x[:i], x[i+1:]...)`
abbrev pub without : Option ℕ → List StructField → List StructField
without none sfs = sfs
without (some i) sfs = take i sfs ++ drop (suc i) sfs

abbrev is_empty {ℓ} : {A : Type ℓ} → List A → Bool
is_empty [] = true
is_empty (x ∷ xs) = false

-- `ParentByTraversal` finds a parent that is not embedded.
abbrev pub has_parent : List Bool → Bool
has_parent [] = false
has_parent (true ∷ bs) = has_parent bs
has_parent (false ∷ bs) = true

-- A field of a struct that is not embedded.
abbrev pub is_nested : StructField → Bool
is_nested sf = ltb 1 (length sf.index) && not (is_empty sf.parents) && has_parent sf.parents

abbrev pub same_name : Library → StructField → StructField → Bool
same_name lib sf each = same (lib.to_lower each.tag.name) (lib.to_lower sf.path)

-- The properties after one field more.
abbrev pub add_property : Library → StructField → List StructField → List StructField
add_property lib sf ps =
    if is_empty sf.path
    then ps
    else if sf.is_embedded
    then ps
    else let qs = without (find_index (same_name lib sf) ps) ps in
      if is_nested sf then qs else qs ++ sf ∷ []

unfoldable pub properties : Library → List StructField → List StructField → List StructField
properties lib [] ps = ps
properties lib (sf ∷ sfs) ps = properties lib sfs (add_property lib sf ps)

abbrev chosen : Library → Option (List StructField) → Option (List StructField)
chosen lib none = none
chosen lib (some fs) = some (properties lib (sort fs) [])

-- The properties of a struct type, for a number of rounds of the first loop.
unfoldable pub get_codec :
    Library → Option (Bytes → Bytes) → (ℕ → List Decl) → ℕ → ℕ → Option (List StructField)
get_codec lib fmt types f t = chosen lib (walk lib fmt types f (root t ∷ []))
