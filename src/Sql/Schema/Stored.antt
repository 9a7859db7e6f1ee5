-- ===== src/Sql/Schema/Stored.antt =====
-- What the columns of integers hold, by the ranges of MySQL's integer types, and their defaults.
use sqlike.Common.{
  ◌≡◌, refl, sym, ◌⊎◌, inl, inr, ◌++◌, ◌∙◌, Bool, true, false, ◌∷◌, none, some, Bytes, codes, same,
  ltb, arith, ◌&&◌, if◌then◌else◌,
}
use sqlike.Sql.Outcome.{ok, panic}
use sqlike.Sql.Primitive.{ℤ, pos, negsuc}
use sqlike.Sql.Migrate.{Column, Tag, look_up}
use sqlike.Go.Decimal.{parse_digits}
use sqlike.Sql.Schema.Types.{
  Plain, plain, kind, GoType, deref, StructField, int_kind, int8_kind, int16_kind, int32_kind,
  int64_kind, uint_kind, uint8_kind, uint16_kind, uint32_kind, uint64_kind, type_of_kind,
}
use sqlike.Sql.Schema.Base.{Library, is_uint}
use sqlike.Sql.Schema.Build.{
  get_column, numbered, with_default, by_type, builder, int_data_type, uint_data_type,
  get_int_data_type,
}
use sqlike.Jsonb.Codec.Types.{Width, w8, w16, w32, w64, size, in_range}

abbrev in_range_unsigned : Width → ℤ → Bool
in_range_unsigned w (pos n) = ltb n (size w)
in_range_unsigned w (negsuc n) = false

-- A value of the kind.
unfoldable pub holds : Plain → ℤ → Bool
holds int8_kind z = in_range w8 z
holds int16_kind z = in_range w16 z
holds int32_kind z = in_range w32 z
holds int64_kind z = in_range w64 z
holds int_kind z = in_range w64 z
holds uint8_kind z = in_range_unsigned w8 z
holds uint16_kind z = in_range_unsigned w16 z
holds uint32_kind z = in_range_unsigned w32 z
holds uint64_kind z = in_range_unsigned w64 z
holds uint_kind z = in_range_unsigned w64 z
holds _ z = false

-- A value of the column type, by MySQL's manual.
unfoldable pub column_holds : Bytes → ℤ → Bool
column_holds t z =
    if same t (codes "TINYINT")
    then in_range w8 z
    else if same t (codes "SMALLINT")
    then in_range w16 z
    else if same t (codes "INT")
    then in_range w32 z
    else if same t (codes "BIGINT")
    then in_range w64 z
    else if same t (codes "TINYINT UNSIGNED")
    then in_range_unsigned w8 z
    else if same t (codes "SMALLINT UNSIGNED")
    then in_range_unsigned w16 z
    else if same t (codes "INT UNSIGNED")
    then in_range_unsigned w32 z
    else same t (codes "BIGINT UNSIGNED") && in_range_unsigned w64 z

abbrev pub is_signed : Plain → Bool
is_signed int_kind = true
is_signed int8_kind = true
is_signed int16_kind = true
is_signed int32_kind = true
is_signed int64_kind = true
is_signed _ = false

abbrev pub is_unsigned : Plain → Bool
is_unsigned uint_kind = true
is_unsigned uint8_kind = true
is_unsigned uint16_kind = true
is_unsigned uint32_kind = true
is_unsigned uint64_kind = true
is_unsigned _ = false

-- The kind whose values the column has room for.
abbrev pub stored_as : Plain → Plain
stored_as int_kind = int32_kind
stored_as uint_kind = uint32_kind
stored_as k = k

numbered-type_name :
    (t : Tag) (c col : Column) → numbered t c ≡ ok col → col.type_name ≡ c.type_name
numbered-type_name t c col h = ground arith

signed-column_holds :
    (k : Plain) (z : ℤ)
    → is_signed k ≡ true
    → column_holds (get_int_data_type (kind k)) z ≡ holds (stored_as k) z
unfolding same column_holds holds get_int_data_type
signed-column_holds int_kind z i = refl
signed-column_holds int8_kind z i = refl
signed-column_holds int16_kind z i = refl
signed-column_holds int32_kind z i = refl
signed-column_holds int64_kind z i = refl
signed-column_holds _ z i = cc

unsigned-column_holds :
    (k : Plain) (z : ℤ)
    → is_unsigned k ≡ true
    → column_holds (get_int_data_type (kind k) ++ codes " UNSIGNED") z ≡ holds (stored_as k) z
unfolding same column_holds holds get_int_data_type
unsigned-column_holds uint_kind z i = refl
unsigned-column_holds uint8_kind z i = refl
unsigned-column_holds uint16_kind z i = refl
unsigned-column_holds uint32_kind z i = refl
unsigned-column_holds uint64_kind z i = refl
unsigned-column_holds _ z i = cc

by_type-signed :
    (lib : Library) (sf : StructField) (k : Plain)
    → is_signed k ≡ true
    → by_type lib (plain k) sf ≡ int_data_type sf
unfolding builder type_of_kind
by_type-signed lib sf int_kind i = refl
by_type-signed lib sf int8_kind i = refl
by_type-signed lib sf int16_kind i = refl
by_type-signed lib sf int32_kind i = refl
by_type-signed lib sf int64_kind i = refl
by_type-signed lib sf _ i = cc

by_type-unsigned :
    (lib : Library) (sf : StructField) (k : Plain)
    → is_unsigned k ≡ true
    → by_type lib (plain k) sf ≡ uint_data_type sf
unfolding builder type_of_kind
by_type-unsigned lib sf uint_kind i = refl
by_type-unsigned lib sf uint8_kind i = refl
by_type-unsigned lib sf uint16_kind i = refl
by_type-unsigned lib sf uint32_kind i = refl
by_type-unsigned lib sf uint64_kind i = refl
by_type-unsigned lib sf _ i = cc

-- Without a `DataType` method of its own, the column of a field is that of the type behind its pointers.
get_column-by_type :
    (lib : Library) (sf : StructField) (t : GoType)
    → sf.data_typer ≡ none
    → deref sf.go_type ≡ t
    → get_column lib sf ≡ by_type lib t sf
unfolding get_column
get_column-by_type lib sf t n e = rw (n, e) refl

-- A field of a signed or an unsigned integer type, or of pointers to one, without a `DataType` method: if
-- `GetColumn` returns a column, its type holds exactly the integers of the field's kind, and those of 32 bits for
-- `int` and `uint`.
pub get_column-column_holds :
    (lib : Library) (sf : StructField) (k : Plain) (col : Column) (z : ℤ)
    → sf.data_typer ≡ none
    → deref sf.go_type ≡ plain k
    → (is_signed k ≡ true) ⊎ (is_unsigned k ≡ true)
    → get_column lib sf ≡ ok col
    → column_holds col.type_name z ≡ holds (stored_as k) z
unfolding int_data_type uint_data_type
get_column-column_holds lib sf k col z n e (inl i) h =
    let c = sym (by_type-signed lib sf k i) ∙ sym (get_column-by_type lib sf (plain k) n e) ∙ h in
    rw (numbered-type_name _ _ col c, e) (signed-column_holds k z i)
get_column-column_holds lib sf k col z n e (inr i) h =
    let c = sym (by_type-unsigned lib sf k i) ∙ sym (get_column-by_type lib sf (plain k) n e) ∙ h in
    rw (numbered-type_name _ _ col c, e) (unsigned-column_holds k z i)

default-refused :
    (accepts : Bytes → Bool) (v : Bytes) (t : Tag) (c : Column)
    → look_up t (codes "default") ≡ some v
    → accepts v ≡ false
    → with_default accepts t c ≡ panic
default-refused accepts v t c d r = ground arith

-- A field of a signed integer type, or of pointers to one, without a `DataType` method and without
-- `auto_increment`: if its default is a number below zero, or any text with a minus sign in front, `GetColumn`
-- panics.
pub get_column-negative_default :
    (lib : Library) (sf : StructField) (k : Plain) (w : Bytes)
    → sf.data_typer ≡ none
    → deref sf.go_type ≡ plain k
    → is_signed k ≡ true
    → look_up sf.tag (codes "auto_increment") ≡ none
    → look_up sf.tag (codes "default") ≡ some (b'-' ∷ w)
    → get_column lib sf ≡ panic
unfolding int_data_type parse_digits
get_column-negative_default lib sf k w n e i a d =
    get_column-by_type lib sf (plain k) n e
    ∙ by_type-signed lib sf k i
    ∙ rw a (default-refused is_uint (b'-' ∷ w) sf.tag _ d refl)
