-- ===== src/Types/Key/RoundTrip.antt =====
-- Keys of types/key.go that are written and read back.
use sqlike.Common.{
  ℕ, zero, suc, ◌<◌, ◌≡◌, refl, sym, ap, ◌∙◌, Bool, true, false, [], ◌∷◌, ◌++◌, none, some, Bytes,
  codes, arith, same, if◌then◌else◌, length, length-append, take, drop, append_assoc,
  take-append_length, inl, inr, Bool-cases,
}
use sqlike.Sql.Primitive.{ℤ}
use sqlike.Go.Decimal.{Int64, format_int}
use sqlike.Go.Split.{Lacks, last_index-Lacks, last_index-append, split}
use sqlike.Types.Key.{
  Key, key, nil, to, id, incomplete, WithError, identity, set_parts, marshal, new_key, ascend,
  set_identity, on_slash, parsed, unmarshal_loop, unmarshal, parse_key, value, bytes, scan,
  marshal_jsonb, unmarshal_jsonb,
}
use sqlike.Types.Key.Shape.{Identity, set_parts-number, level, set_parts-level, level-no_slash}

-- At each level the kind holds no slash and no comma, and there is a number of 64 bits or a name, not both.
abbrev pub Canonical : Key → Type 0
Canonical (key ns kind i n nil) = Lacks b'/' kind × Lacks b',' kind × Identity i n
Canonical (key ns kind i n (to k)) = Lacks b'/' kind × Lacks b',' kind × Identity i n × Canonical k

-- The path holds no namespace.
pub without_namespace : Key → Key
without_namespace (key ns kind i n nil) = key [] kind i n nil
without_namespace (key ns kind i n (to k)) = key [] kind i n (to (without_namespace k))

drop-suc-length : (v : Bytes) (c : ℕ) (w : Bytes) → drop (suc (length v)) (v ++ c ∷ w) ≡ w
drop-suc-length [] c w = refl
drop-suc-length (x ∷ v) c w = drop-suc-length v c w

-- A path without a slash, and one with an ancestor.
loop_last :
    (f : ℕ) (k : Key) (w : Bytes)
    → Lacks b'/' w
    → unmarshal_loop (suc f) k w ≡ set_parts k (split b',' w)
unfolding unmarshal_loop on_slash set_identity
loop_last f k w h = ap (on_slash (unmarshal_loop f) k w) (last_index-Lacks b'/' w h)

loop_next :
    (f : ℕ) (k : Key) (v w : Bytes)
    → Lacks b'/' w
    → unmarshal_loop (suc f) k (v ++ b'/' ∷ w)
      ≡ ascend (unmarshal_loop f) (set_parts k (split b',' w)) v
unfolding unmarshal_loop on_slash set_identity
loop_next f k v w h =
    ap (on_slash (unmarshal_loop f) k (v ++ b'/' ∷ w)) (last_index-append b'/' v w h)
    ∙ rw (drop-suc-length v b'/' w, take-append_length v (b'/' ∷ w)) refl

-- A path has a comma in it.
marshal-comma :
    (escape : Bool) (k : Key) → (v : Bytes) × (w : Bytes) × (marshal escape k ≡ v ++ b',' ∷ w)
unfolding marshal
marshal-comma escape (key ns kind i n nil) = (kind, identity escape i n, refl)
marshal-comma escape (key ns kind i n (to k)) = (
  marshal escape k ++ b'/' ∷ kind,
  identity escape i n,
  sym (append_assoc (marshal escape k) (b'/' ∷ kind) (b',' ∷ identity escape i n)),
)

ascend-comma :
    (next : Key → Bytes → WithError) (kind n : Bytes) (i : ℤ) (v w x : Bytes) (k : Key)
    → x ≡ v ++ b',' ∷ w
    → next new_key x ≡ (k, none)
    → ascend next (key [] kind i n nil, none) x ≡ (key [] kind i n (to k), none)
ascend-comma next kind n i v w [] k e h =
    absurd (omega (arith, ap length e, length-append v (b',' ∷ w)))
ascend-comma next kind n i v w (c ∷ x) k e h = rw h refl

loop-marshal :
    (k : Key) (f : ℕ)
    → Canonical k
    → length (marshal true k) < f
    → unmarshal_loop f new_key (marshal true k) ≡ (without_namespace k, none)
unfolding marshal without_namespace
loop-marshal k zero h l = absurd (omega arith)
loop-marshal (key ns kind i n nil) (suc f) (h, q, r) l =
    loop_last f new_key (level kind i n) (level-no_slash i n kind h r)
    ∙ set_parts-level i n [] kind nil q r
loop-marshal (key ns kind i n (to k)) (suc f) (h, q, r, c) l =
    let (v, w, e) = marshal-comma true k in
    loop_next f new_key (marshal true k) (level kind i n) (level-no_slash i n kind h r)
    ∙ ap (λ x. ascend (unmarshal_loop f) x (marshal true k)) (set_parts-level i n [] kind nil q r)
    ∙ ascend-comma (unmarshal_loop f) kind n i v w (marshal true k) (without_namespace k) e
        (loop-marshal k f c (omega (arith, length-append (marshal true k) (b'/' ∷ level kind i n))))

comma_null : (v w : Bytes) → same (v ++ b',' ∷ w) (codes "null") ≡ false
unfolding same
comma_null [] w = refl
comma_null (a ∷ []) w = ground arith
comma_null (a ∷ b ∷ []) w = ground arith
comma_null (a ∷ b ∷ c ∷ []) w = ground arith
comma_null (a ∷ b ∷ c ∷ d ∷ []) w = ground arith
comma_null (a ∷ b ∷ c ∷ d ∷ e ∷ v) w = ground arith

marshal-not_null : (escape : Bool) (k : Key) → same (marshal escape k) (codes "null") ≡ false
marshal-not_null escape k =
    let (v, w, e) = marshal-comma escape k in ap (λ x. same x (codes "null")) e ∙ comma_null v w

-- `unmarshal` of what `marshal` wrote, into a new key, makes the key without its namespaces.
unmarshal-marshal :
    (k : Key) → Canonical k → unmarshal new_key (marshal true k) ≡ (without_namespace k, none)
unfolding unmarshal
unmarshal-marshal k h =
    rw (marshal-not_null true k) (loop-marshal k (suc (length (marshal true k))) h (omega arith))

-- `ParseKey` gives back the key that `String` wrote, without its namespaces, if at each level the kind holds
-- no slash and no comma and there is either a number of 64 bits or a name of bytes.
pub parse_key-marshal :
    (k : Key) → Canonical k → parse_key (marshal true k) ≡ some (without_namespace k)
unfolding parse_key
parse_key-marshal k h = ap parsed (unmarshal-marshal k h)

-- A key that is complete is stored as a text, and `Scan` of the text into a new key gives it back without its
-- namespaces, if it is canonical.
scan-value :
    (k : Key)
    → Canonical k
    → incomplete (to k) ≡ false
    → (w : Bytes) × (value k ≡ some w) × (scan new_key (bytes w) ≡ (without_namespace k, none))
unfolding value scan
scan-value k h q = (marshal true k, rw q refl, unmarshal-marshal k h)

pub quotes-length : (w : Bytes) → length (b'"' ∷ (w ++ b'"' ∷ [])) ≡ suc (suc (length w))
quotes-length w = omega (arith, length-append w (b'"' ∷ []))

pub quotes-inside : (w : Bytes) → drop 1 (take (suc (length w)) (b'"' ∷ (w ++ b'"' ∷ []))) ≡ w
quotes-inside w = take-append_length w (b'"' ∷ [])

unmarshal_jsonb-quotes :
    (k : Key) (w : Bytes) → unmarshal_jsonb k (b'"' ∷ (w ++ b'"' ∷ [])) ≡ unmarshal k w
unfolding unmarshal_jsonb same
unmarshal_jsonb-quotes k w = ground (arith, quotes-length w, quotes-inside w)

-- `UnmarshalJSONB` of what `MarshalJSONB` wrote, into a new key, leaves it new for an incomplete key, and
-- makes any other key without its namespaces, if it is canonical.
unmarshal_jsonb-marshal_jsonb :
    (k : Key)
    → Canonical k
    → unmarshal_jsonb new_key (marshal_jsonb k)
      ≡ (if incomplete (to k) then new_key else without_namespace k, none)
unfolding marshal_jsonb
unmarshal_jsonb-marshal_jsonb k h = elim (Bool-cases (incomplete (to k))) [
  | inl e ↦ rw e (unfold unmarshal_jsonb same in refl)
  | inr e ↦ rw e (unmarshal_jsonb-quotes new_key (marshal true k) ∙ unmarshal-marshal k h)
]

-- `Scan` of the path of a key with a number into a key that has a name and no parent: the name stays, so `ID`
-- still returns the name.
scan-keeps_name :
    (kind : Bytes) (i : ℤ) (ns a : Bytes) (j : ℤ) (c : ℕ) (m : Bytes)
    → Lacks b'/' kind
    → Lacks b',' kind
    → Int64 i
    → (scan (key ns a j (c ∷ m) nil) (bytes (level kind i [])) ≡ (key ns kind i (c ∷ m) nil, none))
      × (id (to (scan (key ns a j (c ∷ m) nil) (bytes (level kind i []))).0) ≡ c ∷ m)
unfolding scan unmarshal id
scan-keeps_name kind i ns a j c m h q r =
    let e : scan (key ns a j (c ∷ m) nil) (bytes (level kind i []))
        ≡ (key ns kind i (c ∷ m) nil, none) =
      rw (comma_null kind (format_int i)) (
        loop_last (length (level kind i [])) (key ns a j (c ∷ m) nil) (level kind i [])
          (level-no_slash i [] kind h r)
        ∙ set_parts-number i j (c ∷ m) ns a kind q r) in
    (e, ap (λ x. id (to x.0)) e)
