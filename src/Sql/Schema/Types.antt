-- ===== src/Sql/Schema/Types.antt =====
-- The types that sql/schema/schema.go tells apart: those it knows by their identity, and the others by their kind.
use sqlike.Common.{Bool, Option, none, some, Bytes}
use sqlike.Sql.Migrate.{Column, Tag}

-- The kinds of the types without an element that matters here; `other_kind` is any that `SetDefaultTypes` leaves out.
pub data Plain : Type 0 where
  string_kind bool_kind : Plain
  int_kind int8_kind int16_kind int32_kind int64_kind : Plain
  uint_kind uint8_kind uint16_kind uint32_kind uint64_kind : Plain
  float32_kind float64_kind : Plain
  struct_kind slice_kind map_kind other_kind : Plain

pub data Kind : Type 0 where
  kind : Plain → Kind
  array_kind ptr_kind : Kind

-- The types that `SetDefaultTypes` knows by their identity. `known` has the kind of the type behind it.
pub data Known : Type 0 where
  byte_slice google_uuid satori_uuid language_tag currency_unit : Known
  time_time time_location civil_date civil_time raw_message : Known
  point line_string polygon multi_point multi_line_string multi_polygon : Known

pub data GoType : Type 0 where
  plain : Plain → GoType
  known : Known → GoType
  array : GoType → GoType
  ptr : GoType → GoType

-- `reflext.Deref`
unfoldable pub deref : GoType → GoType
deref (ptr t) = deref t
deref (plain k) = plain k
deref (known n) = known n
deref (array t) = array t

abbrev known_kind : Known → Kind
known_kind google_uuid = array_kind
known_kind satori_uuid = array_kind
known_kind point = array_kind
known_kind byte_slice = kind slice_kind
known_kind raw_message = kind slice_kind
known_kind line_string = kind slice_kind
known_kind polygon = kind slice_kind
known_kind multi_point = kind slice_kind
known_kind multi_line_string = kind slice_kind
known_kind multi_polygon = kind slice_kind
known_kind _ = kind struct_kind

abbrev pub kind_of : GoType → Kind
kind_of (plain k) = kind k
kind_of (known n) = known_kind n
kind_of (array t) = array_kind
kind_of (ptr t) = ptr_kind

-- `sqltype.Type`, as far as `SetDefaultTypes` names its members.
pub data SqlType : Type 0 where
  byte uuid string char date_time date time json : SqlType
  geo : Known → SqlType
  bool int uint float : SqlType
  struct array_type slice map_type : SqlType

-- The entries of `typeMap` for types. A signed width has the builder of the others, and so has an unsigned one.
unfoldable pub type_of_known : Known → SqlType
type_of_known byte_slice = byte
type_of_known google_uuid = uuid
type_of_known satori_uuid = uuid
type_of_known language_tag = string
type_of_known currency_unit = char
type_of_known time_time = date_time
type_of_known time_location = string
type_of_known civil_date = date
type_of_known civil_time = time
type_of_known raw_message = json
type_of_known n = geo n

-- The entries of `typeMap` for kinds.
unfoldable pub type_of_kind : Kind → Option SqlType
type_of_kind (kind string_kind) = some string
type_of_kind (kind bool_kind) = some bool
type_of_kind (kind int_kind) = some int
type_of_kind (kind int8_kind) = some int
type_of_kind (kind int16_kind) = some int
type_of_kind (kind int32_kind) = some int
type_of_kind (kind int64_kind) = some int
type_of_kind (kind uint_kind) = some uint
type_of_kind (kind uint8_kind) = some uint
type_of_kind (kind uint16_kind) = some uint
type_of_kind (kind uint32_kind) = some uint
type_of_kind (kind uint64_kind) = some uint
type_of_kind (kind float32_kind) = some float
type_of_kind (kind float64_kind) = some float
type_of_kind (kind struct_kind) = some struct
type_of_kind (kind slice_kind) = some slice
type_of_kind (kind map_kind) = some map_type
type_of_kind (kind other_kind) = none
type_of_kind array_kind = some array_type
type_of_kind ptr_kind = none

-- A `StructFielder`. `data_typer` is the column that its own `DataType` method returns, if it has one.
pub record StructField : Type 0 where
  pub name : Bytes
  pub go_type : GoType
  pub tag : Tag
  pub is_nullable : Bool
  pub data_typer : Option Column
