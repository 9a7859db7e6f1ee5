-- ===== src/Jsonb/Number.antt =====
-- `ReadNumber` of jsonb/number.go.
use sqlike.Common.{
  ℕ, zero, suc, ◌+◌, Bool, true, false, ◌||◌, not, Bytes, codes, ltb, ◌==◌, if◌then◌else◌, take,
  drop,
}
use sqlike.Jsonb.Types.{json_number, value_map}
use sqlike.Jsonb.Outcome.{invalid_json, ok, spin}
use sqlike.Jsonb.Reader.{M, ◌>>=◌, ◌>>◌, return, throw, next_token, unread_byte, read_null}

unfoldable pub is_number : ℕ → Bool
unfolding value_map
is_number c = elim (value_map c) [ json_number ↦ true | _ ↦ false ]

-- The loop of `ReadNumber`, over `i`; `str` is the text that it was begun with. White space that
-- `nextToken` meets inside the digits is deleted.
unfoldable pub read_number_loop : ℕ → ℕ → ℕ → Bytes → M Bytes
read_number_loop zero i pos str r = (r, spin)
read_number_loop (suc f) i pos str r = elim (ltb i r.len) [
  | false ↦ (r, ok str)
  | true ↦
      (do
        c ← next_token
        elim (c == b'.' || c == b'e' || is_number c) [
          | true ↦ read_number_loop f (i + 1) pos str
          | false ↦ λ r'. (record r' { pos = i }, ok (drop pos (take i r'.b)))
        ])
        r
]

unfoldable pub read_number : M Bytes
unfolding read_number_loop is_number
read_number = do
  c ← next_token
  if c == b'n'
      then (λ r. read_null (unread_byte r)) >> return (codes "0")
      else if not (is_number c)
      then throw (invalid_json "ReadNumber" "invalid character, expected number")
      else λ r. let u = unread_byte r in read_number_loop (suc u.len) u.pos u.pos (drop u.pos u.b) u
