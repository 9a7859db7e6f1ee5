-- ===== src/Types/Key/Tests.antt =====
-- Runs of the keys, the one of types/key_test.go among them.
use sqlike.Common.{◌≡◌, ◌↔◌, refl, true, false, [], Option, none, some, Bytes, codes, arith}
use sqlike.Sql.Primitive.{pos, negsuc}
use sqlike.Go.Escape.{path_escape, should_escape}
use sqlike.Types.Key.{Key, key, nil, to, equal, unmarshal, marshal, new_key, parse_key}
use sqlike.Go.Base64 as Base64
use sqlike.Go.Base64.{trim_padding}
use sqlike.Types.Key.Opaque.{
  ProtoKey, key_to_proto, encode, marshal_json, unmarshal_json, unmarshal_json-marshal_json,
}
use sqlike.Types.Key.Equal.{equal_iff}
use sqlike.Types.Key.Total.{is_endless, unmarshal-ends}
use sqlike.Types.Key.RoundTrip.{without_namespace, Canonical, parse_key-marshal}

abbrev tested : Key
tested =
    key [] (codes "Child") (pos 0) (codes "!@#$%^&*()'dajhdkhas")
      (to (key [] (codes "Parent") (pos 0) (codes "{}|askjdhkashy8q,L:\"><<") nil))

string :
    marshal true tested
    ≡ codes
        "Parent,'%7B%7D%7Caskjdhkashy8q%2CL:%22%3E%3C%3C'/Child,'%21@%23$%25%5E&%2A%28%29%27dajhdkhas'"
unfolding marshal path_escape should_escape
string = refl

go_string :
    marshal false tested ≡ codes "Parent,'{}|askjdhkashy8q,L:\"><<'/Child,'!@#$%^&*()'dajhdkhas'"
unfolding marshal
go_string = refl

-- A number under a name.
abbrev sample : Key
sample =
    key (codes "x") (codes "Pet") (negsuc 41) []
      (to (key [] (codes "User") (pos 0) (codes "a/b") nil))

sample-Canonical : Canonical sample
sample-Canonical = (
  (refl, (refl, (refl, tt))),
  (refl, (refl, (refl, tt))),
  omega arith,
  (
    (refl, (refl, (refl, (refl, tt)))),
    (refl, (refl, (refl, (refl, tt)))),
    ((omega arith, (omega arith, (omega arith, tt))), refl),
  ),
)

parse_key-marshal_example : parse_key (marshal true sample) ≡ some (without_namespace sample)
parse_key-marshal_example = parse_key-marshal sample sample-Canonical

equal_iff_example : (equal (to sample) nil ≡ true) ↔ (to sample ≡ nil)
equal_iff_example = equal_iff (to sample) nil

unmarshal-ends_example : is_endless (unmarshal sample (codes "a,1/b,'x'/")).1 ≡ false
unmarshal-ends_example = unmarshal-ends sample (codes "a,1/b,'x'/")

-- A package proto that knows one key.
abbrev one_text : ProtoKey → Bytes
one_text k = codes "key 1"

abbrev one_key : Bytes → Option ProtoKey
one_key b = some (key_to_proto sample)

unmarshal_json-marshal_json_example :
    unmarshal_json one_key new_key (marshal_json one_text sample) ≡ (sample, none)
unmarshal_json-marshal_json_example =
    unmarshal_json-marshal_json one_text one_key sample new_key
      (omega arith, (omega arith, (omega arith, (omega arith, (omega arith, tt))))) refl

opaque : encode one_text sample ≡ codes "a2V5IDE"
unfolding encode Base64.encode trim_padding
opaque = refl
