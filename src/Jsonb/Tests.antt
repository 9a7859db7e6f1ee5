-- ===== src/Jsonb/Tests.antt =====
-- Runs of the reader on concrete inputs, and its theorems at concrete inputs.
use sqlike.Common.{◌≤◌, List, [], ◌∷◌, ◌++◌, ◌≡◌, refl, some, Bytes, codes, same, length}
use sqlike.Jsonb.Outcome.{Outcome, ok, panic, spin}
use sqlike.Jsonb.Reader.{Reader, M, new_reader, next_token, skip_bytes, read_null}
use sqlike.Jsonb.Reader.View.{at, over}
use sqlike.Jsonb.Reader.Valid.{IsValid, new_reader-IsValid}
use sqlike.Jsonb.Str.{
  read_string, read_string_loop, skip_string, escape_string, encode_string, backslash, unescape,
}
use sqlike.Jsonb.Str.RoundTrip.{read_string-encode_string}
use sqlike.Jsonb.Str.Agree.{skip_string-read_string, ending}
use sqlike.Jsonb.Str.Loops.{read_string_loop_unknown}
use sqlike.Jsonb.Skip.{read_bytes, skip_number, ends_number, skip_array, skip_boolean, skip_object}
use sqlike.Jsonb.Skip.Token.{string-IsToken, number-IsToken}
use sqlike.Jsonb.Skip.Object.{encode_object, AllTokens, true-IsToken, null-IsToken, false-IsToken}
use sqlike.Jsonb.Skip.End.{read_bytes_object_end}
use sqlike.Jsonb.Skip.Valid.{read_bytes-Keeps}
use sqlike.Jsonb.Types.{value_map}
use sqlike.Jsonb.Number.{read_number}
use sqlike.Jsonb.Array.{read_array, read_object}
use sqlike.Jsonb.Array.Elements.{
  encode_array, AllElements, callback, visit, read_array-encode_array,
}
use sqlike.Jsonb.Array.Members.{read_object-encode_object}
use sqlike.Jsonb.Array.Members
use sqlike.Jsonb.Array.Valid.{read_object-Keeps}

abbrev run : {A : Type 0} → M A → Bytes → Outcome A
run m s = (m (new_reader s)).1

collect : Reader → List Bytes → Outcome (List Bytes)
collect it vs = ok (vs ++ it.b ∷ [])

elements :
    run (read_array (some collect) []) (codes " [ \"a\" , 12,[1, 2], true, {\"k\" : 1} ]")
    ≡ ok (codes "\"a\"" ∷ codes "12" ∷ codes "[1, 2]" ∷ codes "true" ∷ codes "{\"k\":1}" ∷ [])
unfolding read_array read_bytes next_token skip_bytes read_null skip_string collect value_map
    skip_number ends_number skip_array skip_boolean skip_object same
elements = refl

escapes : run read_string (codes "\"a\\nb\\u0041\"") ≡ ok (codes "a\nbu0041")
unfolding read_string next_token read_null skip_bytes
escapes = refl

loops : run read_string (codes "\"\\x\"") ≡ spin
unfolding read_string next_token read_null skip_bytes
loops = refl

number_end : run read_bytes (codes "123") ≡ ok (codes "1")
unfolding read_bytes next_token skip_bytes read_null skip_string value_map skip_number ends_number
    skip_object
number_end = refl

object_end : run read_bytes (codes "{}") ≡ panic
unfolding read_bytes next_token skip_bytes read_null skip_string value_map skip_number ends_number
    skip_object
object_end = refl

array_end : run (read_array (some collect) []) (codes "[1,") ≡ panic
unfolding read_array read_bytes next_token skip_bytes read_null skip_string collect value_map
    skip_number ends_number skip_array skip_boolean skip_object same
array_end = refl

numbers : run read_number (codes " -12.5e3,") ≡ ok (codes "-12.5e3")
unfolding read_number next_token skip_bytes read_null
numbers = refl

-- A text with a quote, a backslash and a line break.
abbrev hard_text : Bytes
hard_text = codes "a\"b\\c\n"

read_string-encode_string_example :
    read_string (at (codes "[") (encode_string hard_text ++ codes ",1]"))
    ≡ (at (codes "[" ++ encode_string hard_text) (codes ",1]"), ok hard_text)
read_string-encode_string_example = read_string-encode_string hard_text (codes "[") (codes ",1]")

abbrev cut_reader : Reader
cut_reader = new_reader (codes "\"a\\")

skip_string-read_string_example :
    ((skip_string cut_reader).0 ≡ (read_string cut_reader).0)
    × (ending (skip_string cut_reader).1 ≡ ending (read_string cut_reader).1)
skip_string-read_string_example = skip_string-read_string cut_reader

abbrev gather_bytes : Reader → List Bytes → List Bytes
gather_bytes it vs = vs ++ it.b ∷ []

abbrev some_values : List Bytes
some_values = encode_string hard_text ∷ codes "12" ∷ codes "true" ∷ codes "null" ∷ []

some_values-AllElements : AllElements some_values
unfolding value_map ends_number
some_values-AllElements = (
  string-IsToken hard_text,
  (number-IsToken b'1' (b'2' ∷ []) refl (refl, tt), (true-IsToken, (null-IsToken, tt))),
)

read_array-encode_array_example :
    read_array (some (callback gather_bytes)) [] (at [] (encode_array some_values ++ codes "}"))
    ≡ (at ([] ++ encode_array some_values) (codes "}"), ok (visit gather_bytes some_values []))
read_array-encode_array_example =
    read_array-encode_array gather_bytes some_values [] (codes "}") [] some_values-AllElements

abbrev gather_members : Reader → Bytes → List Bytes → List Bytes
gather_members it k vs = vs ++ k ∷ it.b ∷ []

abbrev two_members : List (Bytes × Bytes)
two_members = (hard_text, codes "false") ∷ (codes "b", encode_string (codes "x")) ∷ []

two_members-AllTokens : AllTokens two_members
unfolding value_map
two_members-AllTokens = (false-IsToken, (string-IsToken (codes "x"), tt))

read_object-encode_object_example :
    read_object
      (Members.callback gather_members)
      []
      (at [] (encode_object two_members ++ codes ","))
    ≡ (
      at ([] ++ encode_object two_members) (codes ","),
      ok (Members.visit gather_members two_members []),
    )
read_object-encode_object_example =
    read_object-encode_object gather_members two_members [] (codes ",") [] two_members-AllTokens

read_bytes_object_end_example : (read_bytes (at [] (encode_object two_members))).1 ≡ panic
read_bytes_object_end_example = read_bytes_object_end two_members [] two_members-AllTokens

abbrev nested : Reader
nested = new_reader (codes "[ 1 , {\"a\" : [2]}, nul")

read_bytes-Keeps_example : IsValid (read_bytes nested).0 × ((read_bytes nested).0.len ≤ nested.len)
read_bytes-Keeps_example =
    read_bytes-Keeps nested (new_reader-IsValid (codes "[ 1 , {\"a\" : [2]}, nul"))

collect_member : Reader → Bytes → List Bytes → Outcome (List Bytes)
collect_member it k vs = ok (vs ++ k ∷ it.b ∷ [])

read_object-Keeps_example :
    IsValid (read_object collect_member [] nested).0
    × ((read_object collect_member [] nested).0.len ≤ nested.len)
read_object-Keeps_example =
    read_object-Keeps collect_member [] nested
      (new_reader-IsValid (codes "[ 1 , {\"a\" : [2]}, nul"))

read_string_loop_unknown_example :
    (read_string_loop 50
      (length (codes "\""))
      b'"'
      []
      (over (codes "\"") (escape_string hard_text ++ backslash ∷ b'x' ∷ codes "\"") 1)).1
    ≡ spin
unfolding unescape
read_string_loop_unknown_example =
    read_string_loop_unknown hard_text (codes "\"") (codes "\"") [] 50 b'"' b'x' 1 refl

spins_once : (read_string_loop 9 1 0 [] (new_reader (codes "\"\\x\""))).1 ≡ spin
unfolding read_string_loop unescape
spins_once = refl
