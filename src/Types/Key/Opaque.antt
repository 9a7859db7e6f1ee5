-- ===== src/Types/Key/Opaque.antt =====
-- The opaque form of a key in types/key.go: `Encode`, `DecodeKey`, and the JSON, text and binary forms, over the
-- encoding of package proto. The record of `gob` has the same fields.
use sqlike.Common.{
  ◌-◌, ◌≡◌, refl, ap, ◌∙◌, [], ◌∷◌, ◌++◌, Option, none, some, Bytes, codes, arith, ltb, same,
  if◌then◌else◌, length, take, drop, inl, inr, Bool-cases,
}
use sqlike.Sql.Primitive.{ℤ}
use sqlike.Go.Escape.{AllBytes}
use sqlike.Go.Base64 as Base64
use sqlike.Go.Base64.{decode, trim_padding, add_padding, decode-padded, decode-no_letter}
use sqlike.Types.Key.{
  Key, key, nil, to, invalid_json_value, invalid_encoding, WithError, incomplete, is_null,
}
use sqlike.Types.Key.RoundTrip.{quotes-length, quotes-inside}

-- `pb.Key`, in the order of the fields that `keyToProto` sets.
mutual
  pub data ProtoKey : Type 0 where
    proto_key : Bytes → Bytes → Bytes → ℤ → ProtoPointer → ProtoKey

  pub data ProtoPointer : Type 0 where
    proto_nil : ProtoPointer
    proto_to : ProtoKey → ProtoPointer

-- `keyToProto`, `protoToKey`
unfoldable pub key_to_proto : Key → ProtoKey
key_to_proto (key ns kind i n nil) = proto_key ns kind n i proto_nil
key_to_proto (key ns kind i n (to k)) = proto_key ns kind n i (proto_to (key_to_proto k))

pub proto_to_key : ProtoKey → Key
proto_to_key (proto_key ns kind n i proto_nil) = key ns kind i n nil
proto_to_key (proto_key ns kind n i (proto_to k)) = key ns kind i n (to (proto_to_key k))

abbrev from_proto : Option ProtoKey → Option Key
from_proto none = none
from_proto (some k) = some (proto_to_key k)

abbrev replaced : Key → Option Key → WithError
replaced k none = (k, some invalid_encoding)
replaced k (some o) = (o, none)

module _ (proto_marshal : ProtoKey → Bytes) where
  -- `Encode`
  unfoldable pub encode : Key → Bytes
  encode k = trim_padding (Base64.encode (proto_marshal (key_to_proto k)))

  -- `MarshalJSON` and `MarshalBinary`, and what `MarshalGQL` writes
  unfoldable pub marshal_json : Key → Bytes
  unfolding encode
  marshal_json k = if incomplete (to k) then codes "null" else b'"' ∷ (encode k ++ b'"' ∷ [])

module _ (proto_unmarshal : Bytes → Option ProtoKey) where
  abbrev unmarshalled : Option Bytes → Option Key
  unmarshalled none = none
  unmarshalled (some b) = from_proto (proto_unmarshal b)

  -- `DecodeKey`, without the error's text.
  unfoldable pub decode_key : Bytes → Option Key
  decode_key encoded = unmarshalled (decode (add_padding encoded))

  -- `UnmarshalJSON`
  unfoldable pub unmarshal_json : Key → Bytes → WithError
  unfolding decode_key
  unmarshal_json k b =
      if ltb (length b) 2
      then (k, some invalid_json_value)
      else if is_null b
      then (k, none)
      else replaced k (decode_key (drop 1 (take (length b - 1) b)))

  -- `UnmarshalBinary` and `UnmarshalText`
  unfoldable pub unmarshal_binary : Key → Bytes → WithError
  unfolding decode_key
  unmarshal_binary k b = if is_null b then (k, none) else replaced k (decode_key b)

  quoted :
      (k : Key) (w : Bytes) → unmarshal_json k (b'"' ∷ (w ++ b'"' ∷ [])) ≡ replaced k (decode_key w)
  unfolding unmarshal_json same
  quoted k w = ground (arith, quotes-length w, quotes-inside w)

  -- A text in quotes is no encoded key.
  quoted_binary : (k : Key) (w : Bytes) → unmarshal_binary k (b'"' ∷ w) ≡ (k, some invalid_encoding)
  unfolding unmarshal_binary decode_key same
  quoted_binary k w = rw (decode-no_letter b'"' w refl refl) refl

proto_to_key-key_to_proto : (k : Key) → proto_to_key (key_to_proto k) ≡ k
unfolding key_to_proto proto_to_key
proto_to_key-key_to_proto (key ns kind i n nil) = refl
proto_to_key-key_to_proto (key ns kind i n (to k)) =
    ap (λ o. key ns kind i n (to o)) (proto_to_key-key_to_proto k)

decode_key-encode :
    (proto_marshal : ProtoKey → Bytes) (proto_unmarshal : Bytes → Option ProtoKey) (k : Key)
    → AllBytes (proto_marshal (key_to_proto k))
    → proto_unmarshal (proto_marshal (key_to_proto k)) ≡ some (key_to_proto k)
    → decode_key proto_unmarshal (encode proto_marshal k) ≡ some k
unfolding decode_key encode
decode_key-encode proto_marshal proto_unmarshal k h u =
    ap (unmarshalled proto_unmarshal) (decode-padded (proto_marshal (key_to_proto k)) h)
    ∙ ap from_proto u
    ∙ ap some (proto_to_key-key_to_proto k)

-- `UnmarshalJSON` of what `MarshalJSON` wrote leaves the receiver as it is for an incomplete key, and makes it any
-- other key, with its namespaces, if package proto marshals the key into bytes and unmarshals these to it.
pub unmarshal_json-marshal_json :
    (proto_marshal : ProtoKey → Bytes) (proto_unmarshal : Bytes → Option ProtoKey) (k r : Key)
    → AllBytes (proto_marshal (key_to_proto k))
    → proto_unmarshal (proto_marshal (key_to_proto k)) ≡ some (key_to_proto k)
    → unmarshal_json proto_unmarshal r (marshal_json proto_marshal k)
      ≡ (if incomplete (to k) then r else k, none)
unfolding marshal_json
unmarshal_json-marshal_json proto_marshal proto_unmarshal k r h u =
    elim (Bool-cases (incomplete (to k))) [
      | inl e ↦ rw e (unfold unmarshal_json same in refl)
      | inr e ↦ rw e (
          quoted proto_unmarshal r (encode proto_marshal k)
          ∙ ap (replaced r) (decode_key-encode proto_marshal proto_unmarshal k h u))
    ]

-- `UnmarshalBinary` of what `MarshalBinary` wrote succeeds only for an incomplete key, which it does not read: any
-- other key is refused for the quotes around it.
unmarshal_binary-marshal_json :
    (proto_marshal : ProtoKey → Bytes) (proto_unmarshal : Bytes → Option ProtoKey) (k r : Key)
    → unmarshal_binary proto_unmarshal r (marshal_json proto_marshal k)
      ≡ (r, if incomplete (to k) then none else some invalid_encoding)
unfolding marshal_json
unmarshal_binary-marshal_json proto_marshal proto_unmarshal k r =
    elim (Bool-cases (incomplete (to k))) [
      | inl e ↦ rw e (unfold unmarshal_binary same in refl)
      | inr e ↦ rw e (quoted_binary proto_unmarshal r (encode proto_marshal k ++ b'"' ∷ []))
    ]
