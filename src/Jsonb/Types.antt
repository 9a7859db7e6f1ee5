-- ===== src/Jsonb/Types.antt =====
-- jsonb/types.go and jsonb/jsonb.go: the types of JSON values and the table from a first byte to
-- its type; the white space of jsonb/reader.go.
use sqlike.Common.{ℕ, Bool, ◌||◌, ◌&&◌, Bytes, codes, leb, ◌==◌, if◌then◌else◌}

pub data JsonType : Type 0 where
  json_invalid json_null json_object json_array json_whitespace : JsonType
  json_string json_boolean json_number : JsonType

abbrev type_name : JsonType → Bytes
type_name json_invalid = codes "invalid"
type_name json_null = codes "null"
type_name json_whitespace = codes "whitespace"
type_name json_string = codes "string"
type_name json_boolean = codes "boolean"
type_name json_object = codes "object"
type_name json_array = codes "array"
type_name json_number = codes "number"

unfoldable pub is_white_space : ℕ → Bool
is_white_space c = c == b' ' || c == b'\n' || c == b'\t' || c == b'\r'

-- `valueMap`, a slice of 256 types that `init` fills.
unfoldable pub value_map : ℕ → JsonType
value_map c =
    if c == b'"'
    then json_string
    else if c == b'-' || (leb b'0' c && leb c b'9')
    then json_number
    else if c == b't' || c == b'f'
    then json_boolean
    else if c == b'n'
    then json_null
    else if c == b'['
    then json_array
    else if c == b'{'
    then json_object
    else if c == b' ' || c == b'\r' || c == b'\t' || c == b'\n'
    then json_whitespace
    else json_invalid
