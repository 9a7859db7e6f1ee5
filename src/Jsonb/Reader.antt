-- ===== src/Jsonb/Reader.antt =====
-- jsonb/reader.go: the state and the byte operations. `nextToken` deletes the white space that it
-- meets from the buffer. The fields `typ`, `start` and `end` of the struct are never used.
pub mod View
pub mod Valid
use sqlike.Common.{
  ℕ, zero, suc, ◌+◌, ◌-◌, Bool, true, false, List, [], ◌∷◌, ◌++◌, Option, none, some, Bytes, codes,
  ltb, ◌==◌, if◌then◌else◌, same, length, get_elem?, take, drop,
}
use sqlike.Jsonb.Types.{JsonType, is_white_space, value_map}
use sqlike.Jsonb.Outcome.{Error, invalid_json, plain, Outcome, ok, err, panic, spin, next}

pub record Reader : Type 0 where
  pub b : Bytes
  pub pos : ℕ
  pub len : ℕ

abbrev pub M : Type 0 → Type 0
M A = Reader → Reader × Outcome A

infixl 5 ◌>>=◌ ◌>>◌
abbrev pub ◌>>=◌ : {A B : Type 0} → M A → (A → M B) → M B
◌>>=◌ m f r = next (m r) f

abbrev pub ◌>>◌ : {A B : Type 0} → M A → M B → M B
m >> k = m >>= λ _. k

abbrev pub return : {A : Type 0} → A → M A
return a r = (r, ok a)

abbrev pub throw : {A : Type 0} → Error → M A
throw e r = (r, err e)

-- A call whose error the caller drops; a panic and an endless loop are not dropped.
abbrev pub ignore : M (Unit {0}) → M (Unit {0})
ignore m r =
    let (r', o) = m r in
    elim o [ ok u ↦ (r', ok u) | err e ↦ (r', ok tt) | panic ↦ (r', panic) | spin ↦ (r', spin) ]

-- `NewReader` copies its bytes.
abbrev pub new_reader : Bytes → Reader
new_reader b = record { b = b; pos = 0; len = length b }

-- `r.b = append(r.b[:i], r.b[i+1:]...); r.len = len(r.b)`
abbrev pub delete : ℕ → Reader → Reader
delete i r = let b' = take i r.b ++ drop (suc i) r.b in record r { b = b'; len = length b' }

pub next_token_loop : ℕ → ℕ → M ℕ
next_token_loop zero i r = (r, spin)
next_token_loop (suc f) i r = elim (ltb i r.len) [
  | true ↦ elim (get_elem? r.b i) [
    | none ↦ (r, panic)
    | some c ↦ elim (is_white_space c) [
      | true ↦ next_token_loop f i (delete i r)
      | false ↦ (record r { pos = i + 1 }, ok c)
    ]
  ]
  | false ↦ (r, ok 0)
]

-- `nextToken`; each round deletes a byte or returns.
unfoldable pub next_token : M ℕ
unfolding next_token_loop is_white_space
next_token r = next_token_loop (suc r.len) r.pos r

abbrev pub unread_byte : Reader → Reader
unread_byte r = if ltb 0 r.pos then record r { pos = r.pos - 1 } else r

-- `prevToken`
abbrev prev_token : Reader → Outcome ℕ
prev_token r =
    if ltb 0 r.pos then elim (get_elem? r.b (r.pos - 1)) [ none ↦ panic | some c ↦ ok c ] else ok 0

-- `nextToken` followed by `unreadByte`, as in `peekType` and `ReadBoolean`
abbrev pub peek : M ℕ
peek = do c ← next_token; λ r. (unread_byte r, ok c)

-- `peekType`; the byte at the end of the input is 0, which `valueMap` calls invalid.
abbrev pub peek_type : M JsonType
peek_type = do c ← peek; return (value_map c)

abbrev pub is_null : Reader → Bool
is_null r =
    let offset = r.pos + 4 in
    if ltb r.len offset then false else same (drop r.pos (take offset r.b)) (codes "null")

-- `skipBytes`
unfoldable pub skip_bytes : Bytes → M (Unit {0})
skip_bytes w r =
    let offset = r.pos + length w in
    if ltb r.len offset
    then (r, err (plain "unexpected json length"))
    else if same w (drop r.pos (take offset r.b))
    then (record r { pos = offset }, ok tt)
    else (r, err (invalid_json "skipBytes" "expected bytes"))

unfoldable pub read_boolean : M Bool
read_boolean = do
  c ← peek
  if c == b'n'
      then skip_bytes (codes "null") >> return false
      else if c == b't'
      then skip_bytes (codes "true") >> return true
      else if c == b'f'
      then skip_bytes (codes "false") >> return false
      else throw (plain "invalid boolean value")

unfoldable pub read_null : M (Unit {0})
read_null = do c ← next_token; if c == b'n' then skip_bytes (codes "ull") else return tt
