-- ===== src/Jsonb/Value/Text.antt =====
-- The text of a value, as jsonb/encoder.go frames it, over a printer of numbers; and which of these texts
-- `skip` takes as a whole.
use sqlike.Common.{
  ℕ, ◌≡◌, refl, sym, ap, subst, ◌∙◌, Bool, true, false, List, [], ◌∷◌, ◌++◌, Bytes, arith, ◌||◌,
  ◌==◌, append_assoc,
}
use sqlike.Jsonb.Types.{json_number, value_map}
use sqlike.Jsonb.Str.{escape_char, escape_string, encode_string}
use sqlike.Jsonb.Skip.{ends_number}
use sqlike.Jsonb.Skip.Token.{IsToken, Digits, number-IsToken}
use sqlike.Jsonb.Skip.Object.{members, encode_object}
use sqlike.Jsonb.Skip.Brackets.{
  Neutral, nothing-Neutral, append-Neutral, byte-Neutral, NoBrackets, text-Neutral,
  enclosed-Neutral, bracketed-IsToken,
}
use sqlike.Jsonb.Number.{is_number}
use sqlike.Jsonb.Array.Elements.{elements, encode_array}

-- A byte that `ReadNumber` goes over.
abbrev pub in_number : ℕ → Bool
in_number c = c == b'.' || c == b'e' || is_number c

abbrev pub AllIn : Bytes → Type 0
AllIn [] = Unit {0}
AllIn (c ∷ w) = (in_number c ≡ true) × AllIn w

-- A text that begins as a number and that `ReadNumber` goes over.
pub record NumberText (w : Bytes) : Type 0 where
  pub first : ℕ
  pub others : Bytes
  pub splits : w ≡ first ∷ others
  pub begins : value_map first ≡ json_number
  pub inside : AllIn others

pub in_number-Digits : (w : Bytes) → AllIn w → Digits w
unfolding ends_number is_number value_map
in_number-Digits [] h = tt
in_number-Digits (c ∷ w) (h, k) = (ground arith, in_number-Digits w k)

in_number-NoBrackets : (w : Bytes) → AllIn w → NoBrackets w
unfolding is_number value_map
in_number-NoBrackets [] h = tt
in_number-NoBrackets (c ∷ w) (h, k) = (ground arith, ground arith, in_number-NoBrackets w k)

pub NumberText-IsToken : (w : Bytes) → NumberText w → IsToken w
NumberText-IsToken w n =
    subst IsToken (sym n.splits)
      (number-IsToken n.first n.others n.begins (in_number-Digits n.others n.inside))

pub NumberText-Neutral : (w : Bytes) → NumberText w → Neutral w
unfolding value_map
NumberText-Neutral w n = subst Neutral (sym n.splits) (
    text-Neutral (n.first ∷ n.others)
      (ground (arith, n.begins), ground (arith, n.begins), in_number-NoBrackets n.others n.inside))

append-NoBrackets : (v w : Bytes) → NoBrackets v → NoBrackets w → NoBrackets (v ++ w)
append-NoBrackets [] w h k = k
append-NoBrackets (x ∷ v) w (h, i, j) k = (h, i, append-NoBrackets v w j k)

escape_char-NoBrackets :
    (c : ℕ) → (c == b'[') ≡ false → (c == b']') ≡ false → NoBrackets (escape_char c)
unfolding escape_char
escape_char-NoBrackets c h k = ground arith

escape_string-NoBrackets : (s : Bytes) → NoBrackets s → NoBrackets (escape_string s)
unfolding escape_string
escape_string-NoBrackets [] h = tt
escape_string-NoBrackets (c ∷ s) (h, k, q) =
    append-NoBrackets (escape_char c) (escape_string s) (escape_char-NoBrackets c h k)
      (escape_string-NoBrackets s q)

pub string-Neutral : (s : Bytes) → NoBrackets s → Neutral (encode_string s)
unfolding encode_string
string-Neutral s h = text-Neutral (b'"' ∷ (escape_string s ++ b'"' ∷ [])) (
  refl,
  refl,
  append-NoBrackets (escape_string s) (b'"' ∷ []) (escape_string-NoBrackets s h) (refl, refl, tt),
)

-- The elements of an array without its brackets.
inner : List Bytes → Bytes
inner [] = []
inner (w ∷ []) = w
inner (w ∷ v ∷ ws) = w ++ (b',' ∷ inner (v ∷ ws))

elements-inner : (ws : List Bytes) → elements ws ≡ inner ws ++ b']' ∷ []
unfolding elements inner
elements-inner [] = refl
elements-inner (w ∷ []) = refl
elements-inner (w ∷ v ∷ ws) =
    ap (λ x. w ++ (b',' ∷ x)) (elements-inner (v ∷ ws))
    ∙ sym (append_assoc w (b',' ∷ inner (v ∷ ws)) (b']' ∷ []))

abbrev pub AllNeutral : List Bytes → Type 0
AllNeutral [] = Unit {0}
AllNeutral (w ∷ ws) = Neutral w × AllNeutral ws

inner-Neutral : (ws : List Bytes) → AllNeutral ws → Neutral (inner ws)
unfolding inner
inner-Neutral [] h = nothing-Neutral
inner-Neutral (w ∷ []) (h, _) = h
inner-Neutral (w ∷ v ∷ ws) (h, k) = append-Neutral w (b',' ∷ inner (v ∷ ws)) h (
    append-Neutral (b',' ∷ []) (inner (v ∷ ws)) (byte-Neutral b',' refl refl)
      (inner-Neutral (v ∷ ws) k))

pub array-Neutral : (ws : List Bytes) → AllNeutral ws → Neutral (encode_array ws)
array-Neutral ws h =
    subst (λ x. Neutral (b'[' ∷ x)) (sym (elements-inner ws))
      (enclosed-Neutral (inner ws) (inner-Neutral ws h))

pub array-IsToken : (ws : List Bytes) → AllNeutral ws → IsToken (encode_array ws)
array-IsToken ws h =
    subst (λ x. IsToken (b'[' ∷ x)) (sym (elements-inner ws))
      (bracketed-IsToken (inner ws) (inner-Neutral ws h))

abbrev pub AllFieldsNeutral : List (Bytes × Bytes) → Type 0
AllFieldsNeutral [] = Unit {0}
AllFieldsNeutral ((k, v) ∷ kvs) = NoBrackets k × Neutral v × AllFieldsNeutral kvs

member-Neutral :
    (k v t : Bytes)
    → NoBrackets k
    → Neutral v
    → Neutral t
    → Neutral (encode_string k ++ (b':' ∷ (v ++ t)))
member-Neutral k v t h i j =
    append-Neutral (encode_string k) (b':' ∷ (v ++ t)) (string-Neutral k h)
      (append-Neutral (b':' ∷ []) (v ++ t) (byte-Neutral b':' refl refl) (append-Neutral v t i j))

members-Neutral : (kvs : List (Bytes × Bytes)) → AllFieldsNeutral kvs → Neutral (members kvs)
unfolding members
members-Neutral [] h = byte-Neutral b'}' refl refl
members-Neutral ((k, v) ∷ []) (h, i, j) =
    member-Neutral k v (b'}' ∷ []) h i (byte-Neutral b'}' refl refl)
members-Neutral ((k, v) ∷ kv ∷ kvs) (h, i, j) = member-Neutral k v (b',' ∷ members (kv ∷ kvs)) h i (
    append-Neutral (b',' ∷ []) (members (kv ∷ kvs)) (byte-Neutral b',' refl refl)
      (members-Neutral (kv ∷ kvs) j))

pub object-Neutral :
    (kvs : List (Bytes × Bytes)) → AllFieldsNeutral kvs → Neutral (encode_object kvs)
object-Neutral kvs h =
    append-Neutral (b'{' ∷ []) (members kvs) (byte-Neutral b'{' refl refl) (members-Neutral kvs h)
