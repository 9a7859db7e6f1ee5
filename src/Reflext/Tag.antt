-- ===== src/Reflext/Tag.antt =====
-- `parseTag` of reflext/reflext.go.
use sqlike.Common.{List, [], ◌∷◌, ◌==◌, if◌then◌else◌, Option, none, some, Bytes}
use sqlike.Go.Split.{split}

-- What the walk calls of Go's library and the model does not read: `strings.TrimSpace` and `strings.ToLower`.
pub record Library : Type 0 where
  pub trim_space : Bytes → Bytes
  pub to_lower : Bytes → Bytes

-- A `StructTag`; of its options the one that was set last is in front.
pub record StructTag : Type 0 where
  pub original_name : Bytes
  pub name : Bytes
  pub opts : List (Bytes × Bytes)

-- The parts of `strings.SplitN(opt, "=", 2)`: the text in front of the first equals sign, and the text behind it,
-- if there is one.
unfoldable pub split_option : Bytes → Bytes × Option Bytes
split_option [] = ([], none)
split_option (c ∷ w) =
    let rest = split_option w in if c == b'=' then ([], some w) else (c ∷ rest.0, rest.1)

-- An option: with an equals sign a key and a value, and a key without a value otherwise.
abbrev parse_option : Library → Bytes → Bytes × Bytes
parse_option lib w =
    let opt = lib.trim_space w in
    elim (split_option opt).1 [
      | none ↦ (lib.to_lower opt, [])
      | some v ↦ (lib.trim_space (lib.to_lower (split_option opt).0), lib.trim_space v)
    ]

unfoldable pub parse_options : Library → List Bytes → List (Bytes × Bytes) → List (Bytes × Bytes)
parse_options lib [] opts = opts
parse_options lib (w ∷ ws) opts = parse_options lib ws (parse_option lib w ∷ opts)

abbrev or_formatted : Option (Bytes → Bytes) → Bytes → Bytes → Bytes
or_formatted fmt n (c ∷ w) = c ∷ w
or_formatted none n [] = n
or_formatted (some f) n [] = f n

-- The tag of a field with this name, with the parts of the text under the tag's key.
abbrev tag_of : Library → Option (Bytes → Bytes) → Bytes → List Bytes → StructTag
tag_of lib fmt n [] = record { original_name = []; name = or_formatted fmt n []; opts = [] }
tag_of lib fmt n (w ∷ ws) = record {
  original_name = lib.trim_space w;
  name = or_formatted fmt n (lib.trim_space w);
  opts = parse_options lib ws [];
}

unfoldable pub parse_tag : Library → Option (Bytes → Bytes) → Bytes → Bytes → StructTag
parse_tag lib fmt n text = tag_of lib fmt n (split b',' text)
