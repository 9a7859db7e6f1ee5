-- ===== src/Sql/Schema/Base.antt =====
-- What the column builders of sql/dialect/mysql/schema.go share. Of a column the fields that no statement reads,
-- `DataType` and `Size`, are left out.
use Prim.Native.String.{String}
use sqlike.Common.{Bool, true, false, [], none, some, Bytes, codes}
use sqlike.Go.Decimal.{parse_uint, parse_int, Digits, value, syntax, range}
use sqlike.Sql.Migrate.{Column}
use sqlike.Sql.Schema.Types.{StructField}

-- What the builders call of Go's library and the model does not read: `strings.ToLower`, and whether
-- `strconv.ParseFloat` takes a text.
pub record Library : Type 0 where
  pub to_lower : Bytes → Bytes
  pub is_float : Bytes → Bool

-- A column with a name and a type, and nothing else yet.
abbrev pub column : StructField → String → Column
column sf t = record {
  name = sf.name;
  type_name = codes t;
  nullable = sf.is_nullable;
  default_value = none;
  charset = none;
  collation = none;
  extra = [];
}

abbrev pub in_utf8mb4 : Column → Column
in_utf8mb4 col = record col {
  charset = some (codes "utf8mb4");
  collation = some (codes "utf8mb4_unicode_ci");
}

-- `strconv.Atoi` returns no error.
abbrev pub is_int : Bytes → Bool
is_int v = (parse_int v).1

abbrev accepted : Digits → Bool
accepted (value n) = true
accepted syntax = false
accepted range = false

-- `strconv.ParseUint` returns no error.
abbrev pub is_uint : Bytes → Bool
is_uint v = accepted (parse_uint v)
