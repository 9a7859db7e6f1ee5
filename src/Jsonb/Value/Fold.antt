-- ===== src/Jsonb/Value/Fold.antt =====
-- The values that `ReadValue` of jsonb/reader.go collects from an array and from an object, and the length of
-- their texts.
use sqlike.Common.{
  ℕ, ◌≤◌, ◌<◌, ◌≡◌, refl, ap, ◌∙◌, List, [], ◌∷◌, Bytes, arith, length, length-append,
}
use sqlike.Jsonb.Skip.Object.{members, length_member}
use sqlike.Jsonb.Array.Elements.{elements}
use sqlike.Sql.Primitive.{ℤ}
use sqlike.Jsonb.Outcome.{Outcome}
use sqlike.Jsonb.Value.{Value, Items, no_items, item, Fields, no_fields, field, snoc, put}
use sqlike.Jsonb.Value.Encode.{Absent, Readable, ReadableFields}

-- `append` of each of the values, from the left.
unfoldable pub join : Items → Items → Items
join acc no_items = acc
join acc (item v xs) = join (snoc acc v) xs

unfoldable pub glue : Items → Items → Items
glue no_items ys = ys
glue (item x xs) ys = item x (glue xs ys)

glue_empty : (acc : Items) → acc ≡ glue acc no_items
unfolding glue
glue_empty no_items = refl
glue_empty (item x acc) = ap (item x) (glue_empty acc)

glue-snoc : (acc : Items) (v : Value) (xs : Items) → glue (snoc acc v) xs ≡ glue acc (item v xs)
unfolding glue snoc
glue-snoc no_items v xs = refl
glue-snoc (item x acc) v xs = ap (item x) (glue-snoc acc v xs)

pub join-glue : (xs acc : Items) → join acc xs ≡ glue acc xs
unfolding join
join-glue no_items acc = glue_empty acc
join-glue (item v xs) acc = join-glue xs (snoc acc v) ∙ glue-snoc acc v xs

-- `v[k] = x` for each of the fields, from the left.
unfoldable pub put_all : Fields → Fields → Fields
put_all acc no_fields = acc
put_all acc (field k v fs) = put_all (put acc k v) fs

unfoldable pub glue_fields : Fields → Fields → Fields
glue_fields no_fields gs = gs
glue_fields (field k v fs) gs = field k v (glue_fields fs gs)

glue_fields_empty : (acc : Fields) → acc ≡ glue_fields acc no_fields
unfolding glue_fields
glue_fields_empty no_fields = refl
glue_fields_empty (field k v acc) = ap (field k v) (glue_fields_empty acc)

-- No key of the second fields is one of the first.
abbrev Fresh : Fields → Fields → Type 0
Fresh no_fields fs = Unit {0}
Fresh (field j v acc) fs = Absent j fs × Fresh acc fs

put-Fresh :
    (acc : Fields) (k : Bytes) (v : Value) (fs : Fields)
    → Fresh acc (field k v fs)
    → put acc k v ≡ glue_fields acc (field k v no_fields)
unfolding put glue_fields
put-Fresh no_fields k v fs h = refl
put-Fresh (field j y acc) k v fs ((a, _), h) = rw a (ap (field j y) (put-Fresh acc k v fs h))

glue_fields-glue_fields :
    (acc : Fields) (k : Bytes) (v : Value) (fs : Fields)
    → glue_fields (glue_fields acc (field k v no_fields)) fs ≡ glue_fields acc (field k v fs)
unfolding glue_fields
glue_fields-glue_fields no_fields k v fs = refl
glue_fields-glue_fields (field j y acc) k v fs = ap (field j y) (glue_fields-glue_fields acc k v fs)

Fresh-next :
    (acc : Fields) (k : Bytes) (v : Value) (fs : Fields)
    → Fresh acc (field k v fs)
    → Absent k fs
    → Fresh (glue_fields acc (field k v no_fields)) fs
unfolding glue_fields
Fresh-next no_fields k v fs h a = (a, tt)
Fresh-next (field j y acc) k v fs ((_, b), h) a = (b, Fresh-next acc k v fs h a)

Fresh-nothing : (fs : Fields) → Fresh no_fields fs
Fresh-nothing fs = tt

pub put_all-glue :
    (int_of : ℕ → ℤ) (float64 : Bytes → Outcome ℕ) (fs acc : Fields)
    → Fresh acc fs
    → ReadableFields int_of float64 fs
    → put_all acc fs ≡ glue_fields acc fs
unfolding put_all Readable
put_all-glue int_of float64 no_fields acc h r = glue_fields_empty acc
put_all-glue int_of float64 (field k v fs) acc h (a, q, r, rs) =
    ap (λ x. put_all x fs) (put-Fresh acc k v fs h)
    ∙ put_all-glue int_of float64 fs (glue_fields acc (field k v no_fields))
        (Fresh-next acc k v fs h a) rs
    ∙ glue_fields-glue_fields acc k v fs

-- An element is shorter than the array, and so are the elements behind it.
pub length_element :
    (w : Bytes) (ws : List Bytes)
    → (length w < length (elements (w ∷ ws))) × (length (elements ws) ≤ length (elements (w ∷ ws)))
unfolding elements
length_element w [] = let e = length-append w (b']' ∷ []) in (omega (arith, e), omega (arith, e))
length_element w (v ∷ ws) =
    let e = length-append w (b',' ∷ elements (v ∷ ws)) in (omega (arith, e), omega (arith, e))

pub length_member_value :
    (k w : Bytes) (ws : List (Bytes × Bytes))
    → (length w < length (members ((k, w) ∷ ws)))
      × (length (members ws) ≤ length (members ((k, w) ∷ ws)))
unfolding members
length_member_value k w [] =
    let e = length_member k w (b'}' ∷ []) in (omega (arith, e), omega (arith, e))
length_member_value k w (kv ∷ ws) =
    let e = length_member k w (b',' ∷ members (kv ∷ ws)) in (omega (arith, e), omega (arith, e))
