-- ===== src/Lib.antt =====
-- sqlike: an object mapper for MySQL in Go. Its JSON reader, its query side and its keys are modelled.
--
-- The JSON reader (package jsonb). `Jsonb` and its children:
-- - Jsonb/Types: jsonb/types.go, jsonb/jsonb.go: the types of values by their first byte.
-- - Jsonb/Outcome: how a call ends: a value, an error, a panic, or a loop that goes round for ever.
-- - Jsonb/Reader: jsonb/reader.go: the reader's buffer, position and length, and its tokens. A method is a
--   function of the reader that returns the changed reader and an outcome. Reader/View describes a reader by
--   its read and its unread bytes, Reader/Valid has the invariant.
-- - Jsonb/Str: jsonb/string.go. Str/RoundTrip, Str/Agree and Str/Loops are on its loops.
-- - Jsonb/Skip: jsonb/skip.go, `skipNumber` of jsonb/number.go, `skipArray` and `ReadBytes` of
--   jsonb/reader.go. Skip/Token and Skip/Object say which texts are skipped as a whole, Skip/End what happens at
--   the end of the input, Skip/Valid has the invariant.
-- - Jsonb/Number: `ReadNumber` of jsonb/number.go.
-- - Jsonb/Array: jsonb/array.go, jsonb/object.go: `ReadArray` and `ReadObject`, whose callbacks change the
--   variables of the caller.
-- - Jsonb/Value: `ReadValue` of jsonb/reader.go, on fuel for the nesting: more than the text has bytes is enough.
--   Value/Encode has the text that jsonb/encoder.go writes, with integers for numbers, Value/Text the texts that
--   are skipped as a whole, Value/RoundTrip the round trip.
-- - Jsonb/Codec: jsonb/encoder.go, decoder.go, marshal.go, unmarshal.go, with the types of registry.go as data:
--   Codec/Types has the types and their values, Codec/Encode and Codec/Decode the coders, over a record `Library` of
--   functions of the standard library. Codec/Fits says which values are read back, Codec/RoundTrip that they are,
--   Codec/Losses what happens to some others, Codec/Typed and Codec/Sound what type a result has, Codec/Range when
--   a number is in range.
-- Loops run on fuel: one round more than the buffer has bytes. `spin` is the outcome when it is used up; only
-- the string loops can stay where they are, and then go round for ever with any fuel.
--
-- The query side. `Sql` and its children:
-- - Sql/Primitive: sqlike/primitive: what a query is made of, as one data type.
-- - Sql/Zero: `IsZero` of reflext/helper.go on these values.
-- - Sql/Expr: sql/expr: conditions, groups, orders. Expr/Meaning reads the tokens of a group as SQL does, and
--   Expr/Join is on what `And` and `Or` mean. Tokens that SQL refuses have no truth.
-- - Sql/Stmt: sql/stmt/statement.go, sql/util/mysql.go: a statement's text and arguments. A builder is a step
--   on it that may fail or panic.
-- - Sql/Builder: sql/dialect/mysql/builder.go. Builder/Pieces has the texts of each primitive, Builder/Dispatch
--   the encoding of values and the choice of the builder, Builder/Balance the count of placeholders.
-- - Sql/Actions: sqlike/actions, and in Actions/Statements the queries of sql/dialect/mysql/select.go, update.go
--   and delete.go.
-- - Sql/Insert: sql/dialect/mysql/insert.go. Insert/Columns is on its column list, Insert/Filled on placeholders
--   and arguments, Insert/Encoders on the encoders that it keeps.
-- - Sql/Migrate: sql/dialect/mysql/table.go: Migrate/Table has `CreateTable` and `AlterTable`, whose statement is a
--   list of pieces, and Migrate/Refines runs the pieces on a table: its columns, its indexes and its key, as MySQL's
--   manual says, with a comma between any two pieces; `fold` in Refines/Folded is the server's way to compare names.
-- - Sql/Codec: sql/codec/encoder.go and decoder.go, for kinds and `[]byte`, over Jsonb/Codec; Go's conversions of
--   float64 are parameters (`Floats`). Errors keep no message of the library's.
-- - Sql/Schema: sql/schema/schema.go and sql/dialect/mysql/schema.go: the column of a struct field. Schema/Stored
--   compares the integer types with the ranges in MySQL's manual. The type map is the one that the dialect sets up;
--   `strings.ToLower` and `strconv.ParseFloat` are parameters.
-- - Sql/Names: sql/util/types.go.
-- - Sql/Table: sqlike/find.go, delete.go and context.go, up to the call of the database.
-- - Sql/Modify: sqlike/modify.go, update.go and helper.go, up to the call of the database; Modify/Set says
--   what modifyOne sets.
-- - Sql/Index: sql/dialect/mysql/index.go and sqlike/indexes/index.go; Index/Drop says what is dropped.
-- - Sql/Paginate: sqlike/paginate.go. Paginate/Meaning says what the cursor's condition means for a row,
--   Paginate/Rows compares it with the order of the rows, Paginate/Pages says which rows are on a page,
--   Paginate/Total that the condition can be built.
--
-- The column types. `Types/Key`: types/key.go. A key is a tree of its parents; Key/Shape and Key/RoundTrip
-- are on the paths that it is stored as, Key/Total on the loop that reads them, which runs on one round more
-- than the text has bytes, Key/Equal on its equality. Key/Opaque has the encoded form, over the functions of
-- package proto. `Go` has what is used of Go's standard library: strconv on integers, the escapes of
-- net/url, base64, and the search in texts.
--
-- `Reflext`: reflext/reflext.go: Reflext/Tag reads the tag of a field, Reflext/Walk collects the fields of a
-- struct type level by level, on fuel for the rounds of the queue, and Reflext/Properties chooses the
-- properties among them. Struct types are numbers, and a function gives their fields. Reflext/Ends is on
-- whether the queue runs empty, Reflext/Distinct on the names that are chosen. `strings.TrimSpace` and
-- `strings.ToLower` are parameters.
--
-- Bytes are numbers and texts are lists of them; only the escapes of keys ask for a byte to be less than
-- 256. The encoders that the builder takes from sql/codec, the printers of package strconv that it calls, the
-- hash of an index, the regular expression of its cast and `strings.TrimSpace` are parameters (`Env`, `md5`, `md5_hex`,
-- `is_path`, `trim`). A slice of arguments is a list: the sharing of backing arrays by `append` is not
-- modelled. Left out: the coders of jsonb for types that are known by name (times, languages, currencies,
-- raw JSON) and for marshalers, those of sql/codec, the accessors and the cache of reflext, which work by
-- reflection, the calls of database/sql, the statements on databases, instrumentation, plugins and examples.

pub mod Common
pub mod Go
pub mod Jsonb
pub mod Reflext
pub mod Sql
pub mod Types
