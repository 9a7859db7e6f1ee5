-- ===== src/Jsonb/Str.antt =====
-- jsonb/string.go.
pub mod Steps
pub mod RoundTrip
pub mod Agree
pub mod Loops
use sqlike.Common.{
  ℕ, zero, suc, ◌+◌, ◌-◌, Bool, true, false, List, [], ◌∷◌, ◌++◌, Option, none, some, Bytes, codes,
  ltb, ◌==◌, if◌then◌else◌, get_elem?, take, drop, not, ◌||◌,
}
use sqlike.Jsonb.Outcome.{Error, invalid_json, plain, Outcome, ok, err, panic, spin, next}
use sqlike.Jsonb.Reader.{Reader, M, ◌>>=◌, ◌>>◌, return, throw, next_token, unread_byte, read_null}

abbrev pub backslash : ℕ
backslash = b'\\'

-- The byte that the escape `\e` stands for in `ReadString`; `\u` yields a plain `u`.
unfoldable pub unescape : ℕ → Option ℕ
unescape e =
    if e == b'"'
    then some b'"'
    else if e == b'\\'
    then some b'\\'
    else if e == b'b'
    then some 8
    else if e == b'f'
    then some 12
    else if e == b'n'
    then some b'\n'
    else if e == b'r'
    then some b'\r'
    else if e == b't'
    then some b'\t'
    else if e == b'/'
    then some b'/'
    else if e == b'u'
    then some b'u'
    else none

-- The bytes that `skipString` takes for an escape.
pub is_escape : ℕ → Bool
is_escape e =
    e == b'"'
    || e == b'\\'
    || e == b'b'
    || e == b'f'
    || e == b'n'
    || e == b'r'
    || e == b't'
    || e == b'/'
    || e == b'u'

-- The loop of `ReadString`, over `i`, the last byte `c` and the builder `out`.
unfoldable pub read_string_loop : ℕ → ℕ → ℕ → Bytes → M (ℕ × Bytes)
read_string_loop zero i c out r = (r, spin)
read_string_loop (suc f) i c out r = elim (ltb i r.len) [
  | false ↦ (r, ok (c, out))
  | true ↦ elim (get_elem? r.b i) [
    | none ↦ (r, panic)
    | some d ↦ elim (d == b'"') [
      | true ↦ (record r { pos = i + 1 }, ok (d, out))
      | false ↦ elim (d == backslash) [
        | false ↦ read_string_loop f (i + 1) d (out ++ d ∷ []) r
        | true ↦ elim (get_elem? r.b (i + 1)) [
          | none ↦ (r, panic)
          | some e ↦ elim (unescape e) [
            | some x ↦ read_string_loop f (i + 2) d (out ++ x ∷ []) r
            | none ↦ read_string_loop f i d (out ++ d ∷ []) r
          ]
        ]
      ]
    ]
  ]
]

unfoldable pub read_string : M Bytes
unfolding read_string_loop unescape
read_string = do
  c ← next_token
  if c == b'n'
      then (λ r. read_null (unread_byte r)) >> return []
      else if not (c == b'"')
      then throw (invalid_json "ReadString" "expect start with \"")
      else do
        (d, out) ← (λ r. read_string_loop (suc r.len) r.pos c [] r)
        if d == b'"'
            then return out
            else throw (invalid_json "ReadEscapeString" "expect end with \"")

-- The loop of `ReadRawString`: up to the next quote, whatever stands before it.
unfoldable pub read_raw_string_loop : ℕ → ℕ → M Bytes
read_raw_string_loop zero i r = (r, spin)
read_raw_string_loop (suc f) i r = elim (ltb i r.len) [
  | false ↦ (r, err (invalid_json "ReadString" "expect end with \""))
  | true ↦ elim (get_elem? r.b i) [
    | none ↦ (r, panic)
    | some d ↦ elim (d == b'"') [
      | true ↦ (record r { pos = i + 1 }, ok (drop r.pos (take i r.b)))
      | false ↦ read_raw_string_loop f (i + 1) r
    ]
  ]
]

unfoldable pub read_raw_string : M Bytes
unfolding read_raw_string_loop
read_raw_string = do
  c ← next_token
  if c == b'n'
      then (λ r. read_null (unread_byte r)) >> return (codes "null")
      else if not (c == b'"')
      then throw (invalid_json "ReadString" "expect start with \"")
      else (λ r. read_raw_string_loop (suc r.len) r.pos r)

-- The loop of `skipString`, over `i` and the last byte `c`.
unfoldable pub skip_string_loop : ℕ → ℕ → ℕ → M ℕ
skip_string_loop zero i c r = (r, spin)
skip_string_loop (suc f) i c r = elim (ltb i r.len) [
  | false ↦ (r, ok c)
  | true ↦ elim (get_elem? r.b i) [
    | none ↦ (r, panic)
    | some d ↦ elim (d == b'"') [
      | true ↦ (record r { pos = i + 1 }, ok d)
      | false ↦ elim (d == backslash) [
        | false ↦ skip_string_loop f (i + 1) d r
        | true ↦ elim (get_elem? r.b (i + 1)) [
          | none ↦ (r, panic)
          | some e ↦ elim (is_escape e) [
            | true ↦ skip_string_loop f (i + 2) d r
            | false ↦ skip_string_loop f i d r
          ]
        ]
      ]
    ]
  ]
]

unfoldable pub skip_string : M (Unit {0})
unfolding skip_string_loop
skip_string = do
  c ← next_token
  if c == b'n'
      then (λ r. read_null (unread_byte r))
      else if not (c == b'"')
      then throw (invalid_json "skipString" "expect start with \"")
      else do
        d ← (λ r. skip_string_loop (suc r.len) r.pos c r)
        if d == b'"' then return tt else throw (invalid_json "skipString" "expect end with \"")

-- What `escapeCharMap` writes for one byte.
unfoldable pub escape_char : ℕ → Bytes
escape_char c =
    if c == b'\t'
    then codes "\\t"
    else if c == b'\n'
    then codes "\\n"
    else if c == b'\r'
    then codes "\\r"
    else if c == b'"'
    then codes "\\\""
    else if c == b'\\'
    then codes "\\\\"
    else if c == 8
    then codes "\\b"
    else c ∷ []

-- `escapeString`: the bytes that it appends to the writer.
unfoldable pub escape_string : Bytes → Bytes
unfolding escape_char
escape_string [] = []
escape_string (c ∷ str) = escape_char c ++ escape_string str

-- `DefaultEncoder.EncodeString`
unfoldable pub encode_string : Bytes → Bytes
encode_string s = b'"' ∷ (escape_string s ++ b'"' ∷ [])
