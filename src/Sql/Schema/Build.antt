-- ===== src/Sql/Schema/Build.antt =====
-- The column builders of sql/dialect/mysql/schema.go, and `GetColumn` of sql/schema/schema.go, which chooses one.
use Prim.Native.String.{String}
use sqlike.Common.{Bool, true, false, [], ◌++◌, Option, none, some, Bytes, codes, if◌then◌else◌}
use sqlike.Sql.Outcome.{Outcome, ok, err, panic}
use sqlike.Sql.Names.{is_some}
use sqlike.Sql.Migrate.{Column, Tag, look_up}
use sqlike.Sql.Schema.Types.{
  Kind, kind, array_kind, ptr_kind, Known, known, GoType, array, ptr, deref, kind_of, SqlType,
  type_of_known, type_of_kind, StructField, int8_kind, int16_kind, int32_kind, int64_kind,
  uint8_kind, uint16_kind, uint32_kind, uint64_kind, point, line_string, polygon, multi_point,
  multi_line_string, multi_polygon, byte, uuid, string, char, date_time, date, time, json, geo,
  bool, int, uint, float, struct, array_type, slice, map_type,
}
use sqlike.Sql.Schema.Base.{Library, column, in_utf8mb4, is_int, is_uint}
use sqlike.Sql.Schema.Texts.{string_data_type, char_data_type}

-- The size of a time, six digits after the point if the tag has none that is a number.
abbrev time_size : Tag → Bytes
time_size t = elim (look_up t (codes "size")) [
  | none ↦ codes "6"
  | some v ↦ if is_int v then v else codes "6"
]

unfoldable pub byte_data_type : StructField → Column
byte_data_type sf = record (column sf "MEDIUMBLOB") {
  default_value = look_up sf.tag (codes "default");
}

unfoldable pub uuid_data_type : StructField → Column
uuid_data_type sf = in_utf8mb4 (column sf "VARCHAR(36)")

unfoldable pub date_data_type : StructField → Column
date_data_type sf = column sf "DATE"

unfoldable pub time_data_type : StructField → Column
time_data_type sf = record (column sf "TIME") {
  type_name = codes "TIME(" ++ time_size sf.tag ++ codes ")";
}

unfoldable pub date_time_data_type : StructField → Column
date_time_data_type sf =
    let default = codes "CURRENT_TIMESTAMP(" ++ time_size sf.tag ++ codes ")" in
    record (column sf "DATETIME") {
      type_name = codes "DATETIME(" ++ time_size sf.tag ++ codes ")";
      default_value = some default;
      extra =
          if is_some (look_up sf.tag (codes "on_update"))
          then codes "ON UPDATE " ++ default
          else [];
    }

unfoldable pub json_data_type : StructField → Column
json_data_type sf = column sf "JSON"

abbrev geo_name : Known → String
geo_name point = "POINT"
geo_name line_string = "LINESTRING"
geo_name polygon = "POLYGON"
geo_name multi_point = "MULTIPOINT"
geo_name multi_line_string = "MULTILINESTRING"
geo_name multi_polygon = "MULTIPOLYGON"
geo_name _ = ""

abbrev is_ptr : Kind → Bool
is_ptr ptr_kind = true
is_ptr array_kind = false
is_ptr (kind k) = false

abbrev srid : Option Bytes → Bytes
srid none = []
srid (some v) = if is_uint v then codes "SRID " ++ v else []

-- `SpatialDataType`
unfoldable pub spatial_data_type : String → StructField → Column
spatial_data_type t sf = record (column sf t) {
  nullable = is_ptr (kind_of sf.go_type);
  extra = srid (look_up sf.tag (codes "srid"));
}

unfoldable pub bool_data_type : StructField → Column
bool_data_type sf = record (column sf "TINYINT(1)") { default_value = some (codes "0") }

unfoldable pub get_int_data_type : Kind → Bytes
get_int_data_type (kind int8_kind) = codes "TINYINT"
get_int_data_type (kind uint8_kind) = codes "TINYINT"
get_int_data_type (kind int16_kind) = codes "SMALLINT"
get_int_data_type (kind uint16_kind) = codes "SMALLINT"
get_int_data_type (kind int32_kind) = codes "INT"
get_int_data_type (kind uint32_kind) = codes "INT"
get_int_data_type (kind int64_kind) = codes "BIGINT"
get_int_data_type (kind uint64_kind) = codes "BIGINT"
get_int_data_type _ = codes "INT"

-- The default of a number, for a test of the text.
abbrev pub with_default : (Bytes → Bool) → Tag → Column → Outcome Column
with_default accepts t col = elim (look_up t (codes "default")) [
  | none ↦ ok col
  | some v ↦ if accepts v then ok (record col { default_value = some v }) else panic
]

-- The common end of `IntDataType` and `UintDataType`.
abbrev pub numbered : Tag → Column → Outcome Column
numbered t col =
    if is_some (look_up t (codes "auto_increment"))
    then ok (record col { extra = codes "AUTO_INCREMENT"; default_value = none })
    else with_default is_uint t col

unfoldable pub int_data_type : StructField → Outcome Column
int_data_type sf = numbered sf.tag (record (column sf "") {
  type_name = get_int_data_type (kind_of (deref sf.go_type));
  default_value = some (codes "0");
})

unfoldable pub uint_data_type : StructField → Outcome Column
uint_data_type sf = numbered sf.tag (record (column sf "") {
  type_name = get_int_data_type (kind_of (deref sf.go_type)) ++ codes " UNSIGNED";
  default_value = some (codes "0");
})

unfoldable pub float_data_type : Library → StructField → Outcome Column
float_data_type lib sf = with_default lib.is_float sf.tag (record (column sf "") {
  type_name =
      codes "REAL"
      ++ (if is_some (look_up sf.tag (codes "unsigned")) then codes " UNSIGNED" else []);
  default_value = some (codes "0");
})

-- `t.Elem()` of an array or of a pointer; no other type has this builder.
abbrev elem_kind : GoType → Kind
elem_kind (array t) = kind_of t
elem_kind (ptr t) = kind_of t
elem_kind t = kind_of t

-- `ArrayDataType`: of a pointer to an array the element is the array.
unfoldable pub array_data_type : StructField → Column
array_data_type sf = elim (elem_kind sf.go_type) [
  | kind uint8_kind ↦ record (column sf "VARCHAR(36)") {
    charset = some (codes "ascii");
    collation = some (codes "ascii_general_ci");
  }
  | kind _ ↦ column sf "JSON"
  | array_kind ↦ column sf "JSON"
  | ptr_kind ↦ column sf "JSON"
]

-- `SetBuilders`
unfoldable pub builder : Library → SqlType → StructField → Outcome Column
builder lib byte sf = ok (byte_data_type sf)
builder lib date sf = ok (date_data_type sf)
builder lib time sf = ok (time_data_type sf)
builder lib date_time sf = ok (date_time_data_type sf)
builder lib uuid sf = ok (uuid_data_type sf)
builder lib json sf = ok (json_data_type sf)
builder lib (geo n) sf = ok (spatial_data_type (geo_name n) sf)
builder lib string sf = string_data_type lib sf
builder lib char sf = ok (char_data_type sf)
builder lib bool sf = ok (bool_data_type sf)
builder lib int sf = int_data_type sf
builder lib uint sf = uint_data_type sf
builder lib float sf = float_data_type lib sf
builder lib struct sf = ok (json_data_type sf)
builder lib array_type sf = ok (array_data_type sf)
builder lib slice sf = ok (json_data_type sf)
builder lib map_type sf = ok (json_data_type sf)

abbrev by_kind : Library → Option SqlType → StructField → Outcome Column
by_kind lib none sf = err "schema: invalid data type support"
by_kind lib (some x) sf = builder lib x sf

-- The `typeMap` has the type itself, or its kind.
abbrev pub by_type : Library → GoType → StructField → Outcome Column
by_type lib (known n) sf = builder lib (type_of_known n) sf
by_type lib t sf = by_kind lib (type_of_kind (kind_of t)) sf

unfoldable pub get_column : Library → StructField → Outcome Column
get_column lib sf = elim sf.data_typer [
  | some col ↦ ok col
  | none ↦ by_type lib (deref sf.go_type) sf
]
