-- ===== src/Sql/Schema/Texts.antt =====
-- `StringDataType` and `CharDataType` of sql/dialect/mysql/schema.go.
use Prim.Native.String.{String}
use sqlike.Common.{
  zero, suc, List, [], ◌∷◌, ◌++◌, Option, none, some, Bytes, codes, same, if◌then◌else◌,
}
use sqlike.Go.Decimal.{format_nat, parse_int}
use sqlike.Go.Split.{split}
use sqlike.Sql.Outcome.{Outcome, ok, panic}
use sqlike.Sql.Primitive.{ℤ, pos, negsuc}
use sqlike.Sql.Names.{is_some}
use sqlike.Sql.Stmt.{wrap}
use sqlike.Sql.Migrate.{Column, Tag, look_up}
use sqlike.Sql.Schema.Types.{known, plain, array, ptr, StructField, currency_unit}
use sqlike.Sql.Schema.Base.{Library, column, in_utf8mb4, is_int}

-- `charsetMap`; a name that it does not have gives the empty text.
unfoldable pub charset_map : Bytes → Bytes
charset_map c =
    if same c (codes "utf8mb4")
    then codes "utf8mb4_unicode_ci"
    else if same c (codes "latin1")
    then codes "latin1_bin"
    else []

abbrev or_else : Option Bytes → Bytes → Bytes
or_else none d = d
or_else (some v) d = v

-- The options of an enum, between commas.
unfoldable pub options : List Bytes → Bytes
options [] = []
options (p ∷ []) = wrap p
options (p ∷ q ∷ ps) = wrap p ++ b',' ∷ options (q ∷ ps)

-- The column of a text that holds only its charset, its collation and its default.
abbrev text_column : Library → StructField → Column
text_column lib sf =
    let charset : Bytes = elim (look_up sf.tag (codes "charset")) [
      | none ↦ codes "utf8mb4"
      | some c ↦ lib.to_lower c
    ] in
    record (column sf "") {
      default_value = some (or_else (look_up sf.tag (codes "default")) []);
      charset = some charset;
      collation = some (charset_map charset);
    }

-- An enum.
abbrev enum_column : Column → List Bytes → Outcome Column
enum_column col [] = panic
enum_column col (p ∷ ps) = ok (record col {
  type_name = codes "ENUM(" ++ options (p ∷ ps) ++ codes ")";
  default_value = some p;
})

abbrev char_column : Column → Bytes → Outcome Column
char_column col n =
    if is_int n then ok (record col { type_name = codes "CHAR(" ++ n ++ codes ")" }) else panic

abbrev long_text : Column → Column
long_text col = record col {
  type_name = codes "TEXT";
  default_value = none;
  charset = none;
  collation = none;
}

-- The length of a text: 191 unless the tag has a number from one on.
abbrev text_length : ℤ → Bytes
text_length (pos zero) = codes "191"
text_length (pos (suc n)) = format_nat (suc n)
text_length (negsuc n) = codes "191"

abbrev var_char : Tag → Column → Column
var_char t col = record col {
  type_name =
      codes "VARCHAR("
      ++ text_length (parse_int (or_else (look_up t (codes "size")) [])).0
      ++ codes ")";
}

unfoldable pub string_data_type : Library → StructField → Outcome Column
string_data_type lib sf =
    let col = text_column lib sf in
    elim (look_up sf.tag (codes "enum")) [
      | some e ↦ enum_column col (split b'|' e)
      | none ↦ elim (look_up sf.tag (codes "char")) [
        | some n ↦ char_column col n
        | none ↦
            if is_some (look_up sf.tag (codes "longtext"))
            then ok (long_text col)
            else ok (var_char sf.tag col)
      ]
    ]

-- `CharDataType`: the type itself is asked for, not what it points to.
unfoldable pub char_data_type : StructField → Column
char_data_type sf =
    let size : String = elim sf.go_type [
      | known currency_unit ↦ "CHAR(3)"
      | known _ ↦ "CHAR(191)"
      | plain k ↦ "CHAR(191)"
      | array t ↦ "CHAR(191)"
      | ptr t ↦ "CHAR(191)"
    ] in
    record (in_utf8mb4 (column sf size)) { default_value = some [] }
