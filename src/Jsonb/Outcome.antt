-- ===== src/Jsonb/Outcome.antt =====
-- How a call of the reader ends, jsonb/errors.go, and the monad of calls: a call returns the
-- reader that it leaves behind, also when it fails, since callers go on with it.
use Prim.Native.String.{String}
use sqlike.Common.{Bytes, codes, ◌++◌}

pub data Error : Type 0 where
  -- `ErrInvalidJSON{callback, message}`
  invalid_json : String → String → Error
  -- `errors.New(message)`, `fmt.Errorf(message)`
  plain : String → Error

-- `ErrInvalidJSON.Error`
abbrev error_text : Error → Bytes
error_text (invalid_json callback message) =
    codes "jsonb." ++ (codes callback ++ (codes ": " ++ codes message))
error_text (plain message) = codes message

pub data Outcome {ℓ} (A : Type ℓ) : Type ℓ where
  ok : A → Outcome A
  err : Error → Outcome A
  -- an index out of range
  panic : Outcome A
  -- the loop makes more rounds than its fuel
  spin : Outcome A

module _ {ℓ} {S A B : Type ℓ} where
  -- The rest of a call after one that ended in `o` and left the state `s`.
  abbrev pub next : S × Outcome A → (A → S → S × Outcome B) → S × Outcome B
  next (s, ok a) f = f a s
  next (s, err e) f = (s, err e)
  next (s, panic) f = (s, panic)
  next (s, spin) f = (s, spin)
