-- ===== src/Jsonb/Array.antt =====
-- jsonb/array.go and `ReadObject` of jsonb/object.go. The callback is a function of the new reader
-- (and of the key) over the variables that the caller shares with it.
pub mod Elements
pub mod Members
pub mod Valid
pub mod Inv
use sqlike.Common.{
  ℕ, zero, suc, Bool, true, false, Option, none, some, Bytes, ◌==◌, if◌then◌else◌, not,
}
use sqlike.Jsonb.Outcome.{invalid_json, Outcome, ok, spin}
use sqlike.Jsonb.Reader.{Reader, M, ◌>>=◌, ◌>>◌, return, throw, new_reader, next_token, unread_byte}
use sqlike.Jsonb.Skip.{skip_null, read_bytes}
use sqlike.Jsonb.Str.{read_string}

module _ {S : Type 0} where
  abbrev pub call : Option (Reader → S → Outcome S) → Bytes → S → M S
  call none b s r = (r, ok s)
  call (some cb) b s r = (r, cb (new_reader b) s)

  -- The loop of `ReadArray`; a round reads an element and the byte behind it.
  unfoldable pub read_array_loop : ℕ → Option (Reader → S → Outcome S) → S → M S
  read_array_loop zero cb s r = (r, spin)
  read_array_loop (suc f) cb s r =
      (do
        b ← read_bytes
        s' ← call cb b s
        c ← next_token
        elim (c == b',') [
          | true ↦ read_array_loop f cb s'
          | false ↦
              if c == b']'
              then return s'
              else throw (invalid_json "ReadArray" "expect end with ] for array")
        ])
        r

  unfoldable pub read_array : Option (Reader → S → Outcome S) → S → M S
  unfolding read_array_loop
  read_array cb s = do
    c ← next_token
    if c == b'n'
        then (λ r. skip_null (unread_byte r)) >> return s
        else if not (c == b'[')
        then throw (invalid_json "ReadArray" "expect start with [ for array")
        else do
          d ← next_token
          if d == b']' then return s else λ r.
              let u = unread_byte r in read_array_loop (suc u.len) cb s u

  -- The loop of `ReadObject`.
  unfoldable pub read_object_loop : ℕ → (Reader → Bytes → S → Outcome S) → S → M S
  read_object_loop zero cb s r = (r, spin)
  read_object_loop (suc f) cb s r =
      (do
        c ← next_token
        if c == b'}'
            then return s
            else if not (c == b'"')
            then throw (invalid_json "ReadObject" "expect \" for object key")
            else do
              k ← (λ r. read_string (unread_byte r))
              d ← next_token
              if not (d == b':')
                  then throw (invalid_json "ReadObject" "expect : after object key")
                  else do
                    v ← read_bytes
                    s' ← (λ r. (r, cb (new_reader v) k s))
                    e ← next_token
                    elim (e == b',') [
                      | true ↦ read_object_loop f cb s'
                      | false ↦
                          if e == b'}'
                          then return s'
                          else throw (invalid_json "ReadObject" "expect end with } for object")
                    ])
        r

  unfoldable pub read_object : (Reader → Bytes → S → Outcome S) → S → M S
  unfolding read_object_loop
  read_object cb s = do
    c ← next_token
    if not (c == b'{')
        then throw (invalid_json "ReadObject" "expect start with { for object")
        else λ r. read_object_loop (suc r.len) cb s r
