-- ===== src/Jsonb/Codec/Types.antt =====
-- The Go types that jsonb/registry.go has a coder for, and their values.
use sqlike.Common.{
  ℕ, zero, suc, Bool, true, false, [], Option, none, some, Bytes, ltb, same, if◌then◌else◌,
}
use sqlike.Sql.Primitive.{ℤ, pos, negsuc}

pub data Width : Type 0 where
  w8 w16 w32 w64 : Width

-- The types of the kinds in `buildDefaultRegistry`, and `[]byte`, for which the registry has coders of its own. A
-- slice type is any other. A map has strings for its keys. A struct is its properties, those of embedded structs
-- included, under different names.
mutual
  pub data GoType : Type 0 where
    bool_type : GoType
    int_type : Width → GoType
    uint_type : Width → GoType
    float_type : GoType
    string_type : GoType
    bytes_type : GoType
    ptr_type : GoType → GoType
    slice_type : GoType → GoType
    array_type : ℕ → GoType → GoType
    map_type : GoType → GoType
    struct_type : FieldTypes → GoType

  pub data FieldTypes : Type 0 where
    no_types : FieldTypes
    field_type : Bytes → GoType → FieldTypes → FieldTypes

-- `nil_val` is the nil pointer, slice or map; a float64 is its bits. A map is its entries, in the order in which
-- their keys came first.
mutual
  pub data Val : Type 0 where
    nil_val : Val
    bool_val : Bool → Val
    int_val : ℤ → Val
    uint_val : ℕ → Val
    float_val : ℕ → Val
    string_val : Bytes → Val
    bytes_val : Bytes → Val
    ptr_val : Val → Val
    list_val : Vals → Val
    map_val : Entries → Val
    struct_val : Entries → Val

  pub data Vals : Type 0 where
    no_vals : Vals
    val : Val → Vals → Vals

  pub data Entries : Type 0 where
    no_entries : Entries
    entry : Bytes → Val → Entries → Entries

-- `reflext.IsNull`
unfoldable pub is_nil : Val → Bool
is_nil nil_val = true
is_nil _ = false

-- One more than the largest number of a width, without a sign and with one.
abbrev pub size : Width → ℕ
size w8 = 256
size w16 = 65536
size w32 = 4294967296
size w64 = 18446744073709551616

abbrev pub half : Width → ℕ
half w8 = 128
half w16 = 32768
half w32 = 2147483648
half w64 = 9223372036854775808

-- `!v.OverflowInt(x)`
unfoldable pub in_range : Width → ℤ → Bool
in_range w (pos n) = ltb n (half w)
in_range w (negsuc n) = ltb n (half w)

abbrev pub copies : ℕ → Val → Vals
copies zero v = no_vals
copies (suc n) v = val v (copies n v)

-- `reflect.Zero`
unfoldable mutual
  pub zero_of : GoType → Val
  zero_of bool_type = bool_val false
  zero_of (int_type w) = int_val (pos 0)
  zero_of (uint_type w) = uint_val 0
  zero_of float_type = float_val 0
  zero_of string_type = string_val []
  zero_of bytes_type = nil_val
  zero_of (ptr_type t) = nil_val
  zero_of (slice_type t) = nil_val
  zero_of (array_type n t) = list_val (copies n (zero_of t))
  zero_of (map_type t) = nil_val
  zero_of (struct_type fs) = struct_val (zero_entries fs)

  pub zero_entries : FieldTypes → Entries
  zero_entries no_types = no_entries
  zero_entries (field_type n t fs) = entry n (zero_of t) (zero_entries fs)

-- `reflext.Zero`, which makes what pointers point to.
unfoldable pub fresh : GoType → Val
unfolding zero_of
fresh (ptr_type t) = ptr_val (fresh t)
fresh t = zero_of t

abbrev pub entries_of : Val → Entries
entries_of (struct_val es) = es
entries_of _ = no_entries

abbrev pub vals_of : Val → Vals
vals_of (list_val vs) = vs
vals_of _ = no_vals

-- `v.Index(i)`, with no value from `v.Len()` on, and a write there.
unfoldable pub get : Vals → ℕ → Option Val
get no_vals i = none
get (val v vs) zero = some v
get (val v vs) (suc i) = get vs i

unfoldable pub set : Vals → ℕ → Val → Vals
set no_vals i x = no_vals
set (val v vs) zero x = val x vs
set (val v vs) (suc i) x = val v (set vs i x)

-- `reflect.Append`
unfoldable pub append : Vals → Val → Vals
append no_vals x = val x no_vals
append (val v vs) x = val v (append vs x)

-- `SetMapIndex`
unfoldable pub set_map_index : Entries → Bytes → Val → Entries
set_map_index no_entries k x = entry k x no_entries
set_map_index (entry j v es) k x =
    let rest = set_map_index es k x in if same j k then entry j x es else entry j v rest
