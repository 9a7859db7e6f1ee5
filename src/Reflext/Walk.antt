-- ===== src/Reflext/Walk.antt =====
-- The first loop of `getCodec` of reflext/reflext.go: a queue of struct types, whose fields are collected level by
-- level.
use sqlike.Common.{
  ℕ, zero, suc, Bool, true, false, not, ◌&&◌, ◌||◌, List, [], ◌∷◌, ◌++◌, Option, none, some, Bytes,
  codes, same, ◌==◌, if◌then◌else◌,
}
use sqlike.Reflext.Tag.{Library, StructTag, parse_tag}

-- A field of a struct as `reflect` gives it: its name, whether it is exported, whether it is embedded, the text under
-- the key of the tag, `IsNullable` of its type, and the struct type behind the pointers of its type, if that is one.
-- A struct type is a number.
pub record Decl : Type 0 where
  pub name : Bytes
  pub is_exported : Bool
  pub is_anonymous : Bool
  pub tag_text : Bytes
  pub is_nullable : Bool
  pub struct_type : Option ℕ

-- A `StructField`, without its type and its children. `parents` has `IsEmbedded` of its parent, of the parent's
-- parent, and so on.
pub record StructField : Type 0 where
  pub index : List ℕ
  pub name : Bytes
  pub path : Bytes
  pub is_nullable : Bool
  pub tag : StructTag
  pub is_embedded : Bool
  pub parents : List Bool

-- A `typeQueue`: the type, the field that has it, and the path in front of its fields.
pub record Item : Type 0 where
  pub struct_type : ℕ
  pub field : StructField
  pub path : Bytes

abbrev is_empty {ℓ} : {A : Type ℓ} → List A → Bool
is_empty [] = true
is_empty (x ∷ xs) = false

abbrev is_struct : Option ℕ → Bool
is_struct none = false
is_struct (some t) = true

-- The field is left out.
abbrev pub is_skipped : Decl → StructTag → Bool
is_skipped d tag = (not d.is_exported && not d.is_anonymous) || same tag.name (codes "-")

abbrev path_in : Bytes → Bytes → Bytes
path_in [] n = n
path_in (c ∷ p) n = c ∷ p ++ b'.' ∷ n

abbrev pub field_of : Item → ℕ → Decl → StructTag → StructField
field_of q i d tag = record {
  index = q.field.index ++ i ∷ [];
  name = d.name;
  path = path_in q.path tag.name;
  is_nullable = q.field.is_nullable || d.is_nullable;
  tag = tag;
  is_embedded = is_struct d.struct_type && d.is_anonymous;
  parents = if is_empty q.field.index then [] else q.field.is_embedded ∷ q.field.parents;
}

-- The path that the fields of an embedded struct without a name of its own get is that of the struct around it.
abbrev path_below : Item → Decl → StructField → Bytes
path_below q d sf = if d.is_anonymous && is_empty sf.tag.original_name then q.path else sf.path

-- What is put on the queue for a field.
abbrev pub enqueued : Item → Decl → StructField → Option ℕ → List Item
enqueued q d sf none = []
enqueued q d sf (some t) =
    if q.struct_type == t
    then []
    else record { struct_type = t; field = sf; path = path_below q d sf } ∷ []

-- The fields of a struct from the one with this number on, and what they put on the queue.
unfoldable pub visit :
    Library → Option (Bytes → Bytes) → Item → ℕ → List Decl → List StructField × List Item
visit lib fmt q i [] = ([], [])
visit lib fmt q i (d ∷ ds) =
    let tag = parse_tag lib fmt d.name d.tag_text in
    let sf = field_of q i d tag in
    let rest = visit lib fmt q (suc i) ds in
    if is_skipped d tag then rest else (sf ∷ rest.0, enqueued q d sf d.struct_type ++ rest.1)

abbrev behind : List StructField → Option (List StructField) → Option (List StructField)
behind fs none = none
behind fs (some gs) = some (fs ++ gs)

-- The loop, over the fields of each struct type; the fuel is the number of rounds.
unfoldable pub walk :
    Library → Option (Bytes → Bytes) → (ℕ → List Decl) → ℕ → List Item → Option (List StructField)
walk lib fmt types f [] = some []
walk lib fmt types zero (q ∷ qs) = none
walk lib fmt types (suc f) (q ∷ qs) =
    let seen = visit lib fmt q 0 (types q.struct_type) in
    behind seen.0 (walk lib fmt types f (qs ++ seen.1))

-- The root of a struct type.
abbrev pub root : ℕ → Item
root t = record {
  struct_type = t;
  field = record {
    index = [];
    name = [];
    path = [];
    is_nullable = false;
    tag = record { original_name = []; name = []; opts = [] };
    is_embedded = false;
    parents = [];
  };
  path = [];
}
