-- ===== src/Sql/Schema/Tests.antt =====
-- Runs of the column builders.
use sqlike.Common.{◌≡◌, refl, true, false, [], ◌∷◌, none, some, Bytes, codes, inl, same}
use sqlike.Go.Split.{split}
use sqlike.Go.Decimal.{parse_int}
use sqlike.Sql.Outcome.{Outcome, ok, panic, ◌>>=◌ as bind}
use sqlike.Sql.Primitive.{pos}
use sqlike.Sql.Migrate.{Column, Tag, build_schema_by_column}
use sqlike.Sql.Schema.Types.{
  GoType, plain, known, array, ptr, StructField, deref, type_of_kind, type_of_known, string_kind,
  int_kind, int8_kind, uint8_kind, currency_unit,
}
use sqlike.Sql.Schema.Base.{Library}
use sqlike.Sql.Schema.Texts.{string_data_type, charset_map, options, char_data_type}
use sqlike.Sql.Schema.Build.{get_column, builder, int_data_type, get_int_data_type, array_data_type}
use sqlike.Sql.Schema.Stored.{
  holds, column_holds, stored_as, get_column-column_holds, get_column-negative_default,
}

abbrev plain_library : Library
plain_library = record { to_lower = λ w. w; is_float = λ w. true }

abbrev field : GoType → Tag → StructField
field t g = record {
  name = codes "a";
  go_type = t;
  tag = g;
  is_nullable = false;
  data_typer = none;
}

abbrev definition : GoType → Tag → Outcome Bytes
definition t g = bind (get_column plain_library (field t g)) (λ c. ok (build_schema_by_column c))

-- A charset without a collation leaves `COLLATE` with nothing behind it.
unknown_charset :
    definition (plain string_kind) ((codes "charset", codes "greek") ∷ [])
    ≡ ok (codes "`a` VARCHAR(191) CHARACTER SET greek COLLATE  NOT NULL DEFAULT ''")
unfolding parse_int get_column deref type_of_kind builder string_data_type charset_map
    build_schema_by_column same
unknown_charset = refl

-- The first option is the default, whatever the tag says.
enum_default :
    definition (plain string_kind) ((codes "enum", codes "x|y") ∷ (codes "default", codes "y") ∷ [])
    ≡ ok (
        codes
          "`a` ENUM('x','y') CHARACTER SET utf8mb4 COLLATE utf8mb4_unicode_ci NOT NULL DEFAULT 'x'")
unfolding get_column deref type_of_kind builder string_data_type charset_map options split
    build_schema_by_column same
enum_default = refl

-- A currency behind a pointer gets another type than the currency.
pointer_currency :
    (definition (known currency_unit) []
      ≡ ok (
          codes "`a` CHAR(3) CHARACTER SET utf8mb4 COLLATE utf8mb4_unicode_ci NOT NULL DEFAULT ''"))
    × (definition (ptr (known currency_unit)) []
        ≡ ok (
            codes
              "`a` CHAR(191) CHARACTER SET utf8mb4 COLLATE utf8mb4_unicode_ci NOT NULL DEFAULT ''"))
unfolding get_column deref type_of_known builder char_data_type build_schema_by_column same
pointer_currency = (refl, refl)

-- And so does an array of bytes.
pointer_array :
    (definition (array (plain uint8_kind)) []
      ≡ ok (codes "`a` VARCHAR(36) CHARACTER SET ascii COLLATE ascii_general_ci NOT NULL"))
    × (definition (ptr (array (plain uint8_kind))) [] ≡ ok (codes "`a` JSON NOT NULL"))
unfolding get_column deref type_of_kind builder array_data_type build_schema_by_column same
pointer_array = (refl, refl)

abbrev int_field : StructField
int_field = field (ptr (plain int_kind)) []

abbrev int_column : Column
int_column = record {
  name = codes "a";
  type_name = codes "INT";
  nullable = false;
  default_value = some (codes "0");
  charset = none;
  collation = none;
  extra = [];
}

int_column_run : get_column plain_library int_field ≡ ok int_column
unfolding get_column deref type_of_kind builder int_data_type get_int_data_type same
int_column_run = refl

get_column-column_holds_example :
    column_holds (codes "INT") (pos 2147483648) ≡ holds (stored_as int_kind) (pos 2147483648)
unfolding deref
get_column-column_holds_example =
    get_column-column_holds plain_library int_field int_kind int_column (pos 2147483648) refl refl
      (inl refl) int_column_run

get_column-negative_default_example :
    get_column plain_library (field (plain int8_kind) ((codes "default", codes "-1") ∷ [])) ≡ panic
unfolding deref same
get_column-negative_default_example =
    get_column-negative_default plain_library
      (field (plain int8_kind) ((codes "default", codes "-1") ∷ [])) int8_kind (codes "1") refl refl
      refl refl refl
