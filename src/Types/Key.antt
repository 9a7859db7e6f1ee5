-- ===== src/Types/Key.antt =====
-- types/key.go: keys with their ancestors, and the forms in which they are stored.
pub mod Equal
pub mod Shape
pub mod RoundTrip
pub mod Total
pub mod Opaque
mod Tests
use Prim.Native.String.{String}
use sqlike.Common.{
  ℕ, zero, suc, ◌-◌, Bool, true, false, List, [], ◌∷◌, ◌++◌, Option, none, some, Bytes, codes, ◌==◌,
  ◌&&◌, not, ltb, same, if◌then◌else◌, length, get_elem?, take, drop,
}
use sqlike.Sql.Primitive.{ℤ, pos, negsuc}
use sqlike.Go.Decimal.{format_int, parse_int}
use sqlike.Go.Escape.{path_escape, path_unescape}
use sqlike.Go.Split.{last_index, split}

-- `Key`, in the order of its fields: the namespace, the kind, the number, the name and the parent; and `*Key`.
-- Two keys that share an ancestor hold two copies of it.
mutual
  pub data Key : Type 0 where
    key : Bytes → Bytes → ℤ → Bytes → Pointer → Key

  pub data Pointer : Type 0 where
    nil : Pointer
    to : Key → Pointer

pub data KeyError : Type 0 where
  invalid_key_path : KeyError
  invalid_key_string : KeyError
  invalid_number : KeyError
  invalid_json_value : KeyError
  invalid_encoding : KeyError
  endless : KeyError

abbrev is_empty : Bytes → Bool
is_empty [] = true
is_empty (c ∷ w) = false

abbrev zero_int : ℤ → Bool
zero_int (pos n) = n == 0
zero_int (negsuc n) = false

abbrev same_int : ℤ → ℤ → Bool
same_int (pos m) (pos n) = m == n
same_int (negsuc m) (negsuc n) = m == n
same_int _ _ = false

-- `ID`
unfoldable pub id : Pointer → Bytes
id nil = []
id (to (key ns kind i [] p)) = format_int i
id (to (key ns kind i (c ∷ n) p)) = c ∷ n

-- `Root`
pub root : Key → Key
root (key ns kind i n nil) = key ns kind i n nil
root (key ns kind i n (to k)) = root k

-- `copyKey`
pub copy_key : Pointer → Pointer
copy_key nil = nil
copy_key (to (key ns kind i n p)) = to (key ns kind i n (copy_key p))

abbrev pub incomplete : Pointer → Bool
incomplete nil = true
incomplete (to (key ns kind i n p)) = is_empty n && zero_int i

-- The comparison in `Equal` of what two keys hold apart from their parents.
abbrev pub same_fields : Key → Key → Bool
same_fields (key ns kind i n p) (key ns' kind' i' n' p') =
    same ns ns' && same n n' && same_int i i' && same kind kind'

-- `Equal`
unfoldable pub equal : Pointer → Pointer → Bool
equal nil nil = true
equal nil (to o) = false
equal (to k) nil = false
equal (to (key ns kind i n p)) (to (key ns' kind' i' n' p')) =
    let rest = equal p p' in
    if not (same_fields (key ns kind i n p) (key ns' kind' i' n' p')) then false else rest

-- The number or the name of a key as `marshal` writes it.
abbrev pub identity : Bool → ℤ → Bytes → Bytes
identity escape i [] = format_int i
identity escape i (c ∷ n) = b'\'' ∷ (if escape then path_escape (c ∷ n) else c ∷ n) ++ b'\'' ∷ []

unfoldable pub marshal : Bool → Key → Bytes
marshal escape (key ns kind i n nil) = kind ++ b',' ∷ identity escape i n
marshal escape (key ns kind i n (to k)) =
    marshal escape k ++ b'/' ∷ (kind ++ b',' ∷ identity escape i n)

abbrev is_quote : Option ℕ → Bool
is_quote none = false
is_quote (some c) = c == b'\''

abbrev is_quoted : Bytes → Bool
is_quoted v = ltb 2 (length v) && is_quote (get_elem? v 0) && is_quote (get_elem? v (length v - 1))

-- `value, _ = url.PathUnescape(value)`
abbrev unescaped : Option Bytes → Bytes
unescaped none = []
unescaped (some w) = w

-- A key and the error of the call, if there is one.
abbrev pub WithError : Type 0
WithError = Key × Option KeyError

-- The part of a path behind its comma.
unfoldable pub set_identity : Key → Bytes → WithError
set_identity k [] = (k, some invalid_key_string)
set_identity (key ns kind i n p) (c ∷ cs) =
    let v = c ∷ cs in
    let parsed = parse_int v in
    if is_quoted v
    then (key ns kind i (unescaped (path_unescape (drop 1 (take (length v - 1) v)))) p, none)
    else (key ns kind parsed.0 n p, if parsed.1 then none else some invalid_number)

abbrev pub set_parts : Key → List Bytes → WithError
unfolding set_identity
set_parts (key ns kind i n p) (a ∷ v ∷ []) = set_identity (key ns a i n p) v
set_parts k _ = (k, some invalid_key_path)

-- `if k.Parent == nil { k.Parent = new(Key) }`
abbrev pub new_key : Key
new_key = key [] [] (pos 0) [] nil

abbrev or_new : Pointer → Key
or_new nil = new_key
or_new (to k) = k

-- What stands in front of the last slash, and the next round on the parent.
abbrev pub ascend : (Key → Bytes → WithError) → WithError → Bytes → WithError
ascend next (k, some e) rest = (k, some e)
ascend next (k, none) [] = (k, none)
ascend next (key ns kind i n p, none) (c ∷ cs) =
    let above = next (or_new p) (c ∷ cs) in (key ns kind i n (to above.0), above.1)

-- A round, by the place of the last slash.
abbrev pub on_slash : (Key → Bytes → WithError) → Key → Bytes → Option ℕ → WithError
unfolding set_identity
on_slash next k str none = set_parts k (split b',' str)
on_slash next k str (some j) =
    ascend next (set_parts k (split b',' (drop (suc j) str))) (take j str)

-- The loop of `unmarshal`; each round drops a slash.
unfoldable pub unmarshal_loop : ℕ → Key → Bytes → WithError
unfolding set_identity
unmarshal_loop zero k str = (k, some endless)
unmarshal_loop (suc f) k str = on_slash (unmarshal_loop f) k str (last_index b'/' str)

abbrev pub is_null : Bytes → Bool
is_null str = same str (codes "null")

unfoldable pub unmarshal : Key → Bytes → WithError
unfolding unmarshal_loop
unmarshal k str = if is_null str then (k, none) else unmarshal_loop (suc (length str)) k str

abbrev pub parsed : WithError → Option Key
parsed (k, none) = some k
parsed (k, some e) = none

-- `ParseKey`, without the error's text.
unfoldable pub parse_key : Bytes → Option Key
unfolding unmarshal
parse_key str = parsed (unmarshal new_key str)

-- `Value`
unfoldable pub value : Key → Option Bytes
unfolding marshal
value k = if incomplete (to k) then none else some (marshal true k)

-- The sources of `Scan`: bytes and texts are treated alike.
pub data Source : Type 0 where
  bytes : Bytes → Source
  text : Bytes → Source
  other : Source

unfoldable pub scan : Key → Source → WithError
unfolding unmarshal
scan k (bytes str) = unmarshal k str
scan k (text str) = unmarshal k str
scan k other = (k, none)

-- `MarshalText` and `String`
unfoldable pub marshal_text : Key → Bytes
unfolding marshal
marshal_text k = marshal true k

-- `MarshalJSONB`
unfoldable pub marshal_jsonb : Key → Bytes
unfolding marshal
marshal_jsonb k = if incomplete (to k) then codes "null" else b'"' ∷ (marshal true k ++ b'"' ∷ [])

-- `UnmarshalJSONB`
unfoldable pub unmarshal_jsonb : Key → Bytes → WithError
unfolding unmarshal
unmarshal_jsonb k b =
    if ltb (length b) 2
    then (k, some invalid_json_value)
    else if is_null b
    then (k, none)
    else unmarshal k (drop 1 (take (length b - 1) b))

-- `NameKey` and `IDKey`, with the namespace of the environment.
pub name_key : Bytes → Bytes → Bytes → Pointer → Key
name_key namespace kind name parent = key namespace kind (pos 0) name parent

pub id_key : Bytes → Bytes → ℤ → Pointer → Key
id_key namespace kind i parent = key namespace kind i [] parent
