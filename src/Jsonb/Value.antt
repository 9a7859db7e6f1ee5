-- ===== src/Jsonb/Value.antt =====
-- `ReadValue` of jsonb/reader.go.
pub mod Text
pub mod Numbers
pub mod Encode
pub mod Fold
pub mod RoundTrip
mod Tests
use sqlike.Common.{
  ℕ, zero, suc, Bool, true, false, List, [], ◌∷◌, Option, none, some, Bytes, same, if◌then◌else◌,
}
use sqlike.Jsonb.Types.{
  JsonType, json_invalid, json_null, json_object, json_array, json_whitespace, json_string,
  json_boolean, json_number,
}
use sqlike.Jsonb.Outcome.{Error, plain, Outcome, ok, err, panic, spin}
use sqlike.Jsonb.Reader.{Reader, M, ◌>>=◌, ◌>>◌, return, throw, peek_type, read_boolean, read_null}
use sqlike.Jsonb.Str.{read_string}
use sqlike.Jsonb.Number.{read_number}
use sqlike.Jsonb.Array.{read_array, read_object}

-- The values that `ReadValue` makes: a float64 by its bits, a nil slice or map as an empty one, and a map
-- by its entries in the order in which their keys came first.
mutual
  pub data Value : Type 0 where
    null_value : Value
    bool_value : Bool → Value
    number_value : ℕ → Value
    string_value : Bytes → Value
    array_value : Items → Value
    object_value : Fields → Value

  pub data Items : Type 0 where
    no_items : Items
    item : Value → Items → Items

  pub data Fields : Type 0 where
    no_fields : Fields
    field : Bytes → Value → Fields → Fields

-- `v = append(v, x)`
unfoldable pub snoc : Items → Value → Items
snoc no_items x = item x no_items
snoc (item y xs) x = item y (snoc xs x)

-- `v[k] = x`
unfoldable pub put : Fields → Bytes → Value → Fields
put no_fields k x = field k x no_fields
put (field j y fs) k x = let rest = put fs k x in if same j k then field j x fs else field j y rest

-- A caller of another reader: what it does with a result.
abbrev pub with_result : {A B : Type 0} → Outcome A → (A → B) → Outcome B
with_result (ok a) f = ok (f a)
with_result (err e) f = err e
with_result panic f = panic
with_result spin f = spin

abbrev map_result : {A B : Type 0} → (A → B) → M A → M B
map_result f m = m >>= λ a. return (f a)

module _ (float64 : Bytes → Outcome ℕ) where
  -- `Number.Float64` of the standard library
  abbrev to_float : Bytes → M Value
  to_float w r = (r, with_result (float64 w) number_value)

  -- `ReadValue` by the type of the value, over the call that reads what is nested.
  unfoldable pub of_type : M Value → JsonType → M Value
  unfolding snoc put
  of_type nested json_string = map_result string_value read_string
  of_type nested json_number = read_number >>= to_float
  of_type nested json_boolean = map_result bool_value read_boolean
  of_type nested json_null = read_null >> return null_value
  of_type nested json_array =
      map_result array_value
        (read_array (some (λ it v. with_result (nested it).1 (λ x. snoc v x))) no_items)
  of_type nested json_object =
      map_result object_value
        (read_object (λ it k v. with_result (nested it).1 (λ x. put v k x)) no_fields)
  of_type nested _ = throw (plain "invalid json format")

  -- `ReadValue`; the fuel counts the nesting.
  unfoldable pub read_value : ℕ → M Value
  unfolding of_type
  read_value zero r = (r, spin)
  read_value (suc f) r = (peek_type >>= λ t. of_type (read_value f) t) r
