-- ===== src/Jsonb/Skip.antt =====
-- jsonb/skip.go, jsonb/reader.go (`skipArray`, `ReadBytes`) and `skipNumber` of jsonb/number.go.
-- The fuel of `skip` counts the keys and the nesting of objects: each takes a byte at least.
pub mod Token
pub mod Object
pub mod Brackets
pub mod End
pub mod Valid
use sqlike.Common.{
  ℕ, zero, suc, ◌+◌, ◌-◌, Bool, true, false, List, [], ◌∷◌, ◌++◌, Option, none, some, Bytes, codes,
  ltb, ◌==◌, if◌then◌else◌, get_elem?, take, drop, not, ◌||◌,
}
use sqlike.Jsonb.Types.{
  JsonType, json_invalid, json_null, json_object, json_array, json_whitespace, json_string,
  json_boolean, json_number,
}
use sqlike.Jsonb.Outcome.{Error, invalid_json, plain, Outcome, ok, err, panic, spin, next}
use sqlike.Jsonb.Reader.{
  Reader, M, ◌>>=◌, ◌>>◌, return, throw, ignore, next_token, unread_byte, peek, peek_type,
  read_null, skip_bytes,
}
use sqlike.Jsonb.Str.{skip_string}

-- The loop of `skipArray`, over `i` and `level`; a quote is a byte like any other.
pub skip_array_loop : ℕ → ℕ → ℕ → M (Unit {0})
skip_array_loop zero i level r = (r, spin)
skip_array_loop (suc f) i level r = elim (ltb i r.len) [
  | false ↦ (r, ok tt)
  | true ↦ elim (get_elem? r.b i) [
    | none ↦ (r, panic)
    | some c ↦ elim (c == b'[') [
      | true ↦ skip_array_loop f (i + 1) (level + 1) r
      | false ↦ elim (c == b']') [
        | false ↦ skip_array_loop f (i + 1) level r
        | true ↦ elim (ltb 0 (level - 1)) [
          | true ↦ skip_array_loop f (i + 1) (level - 1) r
          | false ↦ (record r { pos = i + 1 }, ok tt)
        ]
      ]
    ]
  ]
]

unfoldable pub skip_array : M (Unit {0})
unfolding skip_array_loop
skip_array = do
  c ← next_token
  if c == b'[' then (λ r. skip_array_loop (suc r.len) r.pos 1 r) else return tt

-- The bytes at which `skipNumber` stops.
unfoldable pub ends_number : ℕ → Bool
ends_number c =
    c == b' ' || c == b'\n' || c == b'\r' || c == b'\t' || c == b',' || c == b'}' || c == b']'

pub skip_number_loop : ℕ → ℕ → M (Unit {0})
skip_number_loop zero i r = (r, spin)
skip_number_loop (suc f) i r = elim (ltb i r.len) [
  | false ↦ (r, ok tt)
  | true ↦ elim (get_elem? r.b i) [
    | none ↦ (r, panic)
    | some c ↦ elim (ends_number c) [
      | true ↦ (record r { pos = i }, ok tt)
      | false ↦ skip_number_loop f (i + 1) r
    ]
  ]
]

unfoldable pub skip_number : M (Unit {0})
unfolding skip_number_loop
skip_number = do
  c ← next_token
  if c == b'n'
      then ignore (λ r. read_null (unread_byte r))
      else (λ r. skip_number_loop (suc r.len) r.pos r)

unfoldable pub skip_null : M (Unit {0})
skip_null = do c ← peek; if c == b'n' then skip_bytes (codes "null") else throw (invalid_json "" "")

unfoldable pub skip_boolean : M (Unit {0})
skip_boolean = do
  c ← peek
  if c == b'n'
      then ignore (skip_bytes (codes "null"))
      else if c == b't'
      then ignore (skip_bytes (codes "true"))
      else if c == b'f'
      then ignore (skip_bytes (codes "false"))
      else return tt

-- `skipObject` around its loop: behind the closing brace it looks at one more byte.
unfoldable pub skip_object : M (Unit {0}) → M (Unit {0})
skip_object loop = do
  c ← next_token
  if not (c == b'{') then throw (plain "object should start with {") else do
    loop
    λ r. elim (get_elem? r.b r.pos) [
      | none ↦ (r, panic)
      | some e ↦ if e == b'}' then (r, ok tt) else (r, err (plain "invalid char on end of object"))
    ]

-- A call whose error is replaced by another.
pub or_else : Error → M (Unit {0}) → M (Unit {0})
or_else e m r =
    let (r', o) = m r in
    elim o [ ok u ↦ (r', ok u) | err _ ↦ (r', err e) | panic ↦ (r', panic) | spin ↦ (r', spin) ]

-- One key of the loop of `skipObject`, from its quote to the colon.
pub skip_key : M (Unit {0})
unfolding or_else
skip_key = do
  or_else (plain "object key must be string") (λ r. skip_string (unread_byte r))
  c ← next_token
  if c == b':' then return tt else throw (plain "character : must place within key and value")

-- The switch of `skip`; an error of `skipObject` is dropped.
pub by_type : JsonType → M (Unit {0}) → M (Unit {0})
by_type json_string loop = skip_string
by_type json_number loop = skip_number
by_type json_boolean loop = skip_boolean
by_type json_null loop = skip_bytes (codes "null")
by_type json_array loop = skip_array
by_type json_object loop = ignore (skip_object loop)
by_type json_whitespace loop = return tt
by_type json_invalid loop = return tt

unfoldable mutual
  unfolding by_type skip_key

  pub skip : ℕ → M (Unit {0})
  skip zero r = (r, spin)
  skip (suc f) r = (do typ ← peek_type; by_type typ (skip_object_loop f)) r

  -- The loop of `skipObject`, from a key or the closing brace.
  pub skip_object_loop : ℕ → M (Unit {0})
  skip_object_loop zero r = (r, spin)
  skip_object_loop (suc f) r =
      (do
        c ← next_token
        if c == b'}'
            then return tt
            else if not (c == b'"')
            then throw (plain "invalid character in object")
            else do
              skip_key
              skip f
              d ← next_token
              elim (d == b'}') [
                | true ↦ return tt
                | false ↦ elim (d == b',') [
                  | true ↦ skip_object_loop f
                  | false ↦ throw (plain "expected , or } after object value")
                ]
              ])
        r

-- `ReadBytes`: `r.b[i:r.pos]` panics where the position went back.
unfoldable pub read_bytes : M Bytes
unfolding skip
read_bytes r =
    next (skip (suc r.len) r)
      λ u r'. if ltb r'.pos r.pos then (r', panic) else (r', ok (drop r.pos (take r'.pos r'.b)))
