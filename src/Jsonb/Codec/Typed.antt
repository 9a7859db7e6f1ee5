-- ===== src/Jsonb/Codec/Typed.antt =====
-- The type of what jsonb/decoder.go makes, on any input.
use sqlike.Common.{
  ℕ, zero, suc, ◌≡◌, refl, ap, subst, ◌∙◌, Bool, true, false, some, Bytes, arith, ltb, same, inl,
  inr, Bool-cases, Option-cases,
}
use sqlike.Sql.Primitive.{ℤ, pos}
use sqlike.Jsonb.Outcome.{Outcome, ok, err, panic, spin}
use sqlike.Jsonb.Reader.{Reader, M, new_reader, is_null}
use sqlike.Jsonb.Str.{read_string}
use sqlike.Jsonb.Skip.{skip_null}
use sqlike.Jsonb.Array.Inv.{Yields, Yields-next, Yields-return}
use sqlike.Jsonb.Value.{with_result}
use sqlike.Jsonb.Codec.Types.{
  Width, w8, w16, w32, w64, GoType, bool_type, int_type, uint_type, float_type, string_type,
  bytes_type, ptr_type, slice_type, array_type, map_type, struct_type, FieldTypes, no_types,
  field_type, Val, nil_val, bool_val, int_val, uint_val, float_val, string_val, bytes_val, ptr_val,
  list_val, map_val, struct_val, Vals, no_vals, val, Entries, no_entries, entry, size, in_range,
  zero_of, zero_entries, entries_of, vals_of, get, set, append, set_map_index, copies,
}
use sqlike.Jsonb.Codec.Encode.{Library}
use sqlike.Jsonb.Codec.Decode.{
  map_result, and_then, or_null, decode_index, decode_append, decode_pair, decode_member,
}
use sqlike.Jsonb.Codec.Fits.{count}

-- The values of a type: numbers in the range of their width, arrays of their length, and structs with their fields.
mutual
  pub data HasType : GoType → Val → Type 0 where
    has_bool : (b : Bool) → HasType bool_type (bool_val b)
    has_int : (w : Width) (i : ℤ) → in_range w i ≡ true → HasType (int_type w) (int_val i)
    has_uint : (w : Width) (n : ℕ) → ltb n (size w) ≡ true → HasType (uint_type w) (uint_val n)
    has_float : (x : ℕ) → HasType float_type (float_val x)
    has_string : (s : Bytes) → HasType string_type (string_val s)
    has_bytes : (b : Bytes) → HasType bytes_type (bytes_val b)
    nil_bytes : HasType bytes_type nil_val
    has_ptr : (t : GoType) (v : Val) → HasType t v → HasType (ptr_type t) (ptr_val v)
    nil_ptr : (t : GoType) → HasType (ptr_type t) nil_val
    has_slice : (t : GoType) (vs : Vals) → AllHave t vs → HasType (slice_type t) (list_val vs)
    nil_slice : (t : GoType) → HasType (slice_type t) nil_val
    has_array :
        (n : ℕ) (t : GoType) (vs : Vals)
        → AllHave t vs
        → count vs ≡ n
        → HasType (array_type n t) (list_val vs)
    has_map : (t : GoType) (es : Entries) → EntriesHave t es → HasType (map_type t) (map_val es)
    nil_map : (t : GoType) → HasType (map_type t) nil_val
    has_struct :
        (fs : FieldTypes) (es : Entries)
        → FieldsHave fs es
        → HasType (struct_type fs) (struct_val es)

  pub data AllHave : GoType → Vals → Type 0 where
    have_nothing : (t : GoType) → AllHave t no_vals
    have_val :
        (t : GoType) (v : Val) (vs : Vals) → HasType t v → AllHave t vs → AllHave t (val v vs)

  pub data EntriesHave : GoType → Entries → Type 0 where
    no_entries_have : (t : GoType) → EntriesHave t no_entries
    entries_have :
        (t : GoType) (k : Bytes) (v : Val) (es : Entries)
        → HasType t v
        → EntriesHave t es
        → EntriesHave t (entry k v es)

  pub data FieldsHave : FieldTypes → Entries → Type 0 where
    no_fields_have : FieldsHave no_types no_entries
    fields_have :
        (k : Bytes) (t : GoType) (fs : FieldTypes) (v : Val) (es : Entries)
        → HasType t v
        → FieldsHave fs es
        → FieldsHave (field_type k t fs) (entry k v es)

pub copies-AllHave : (n : ℕ) (t : GoType) (v : Val) → HasType t v → AllHave t (copies n v)
copies-AllHave zero t v h = have_nothing t
copies-AllHave (suc n) t v h = have_val t v (copies n v) h (copies-AllHave n t v h)

pub count-copies : (n : ℕ) (v : Val) → count (copies n v) ≡ n
count-copies zero v = refl
count-copies (suc n) v = ap suc (count-copies n v)

int_zero : (w : Width) → HasType (int_type w) (int_val (pos 0))
unfolding in_range
int_zero w8 = has_int w8 (pos 0) refl
int_zero w16 = has_int w16 (pos 0) refl
int_zero w32 = has_int w32 (pos 0) refl
int_zero w64 = has_int w64 (pos 0) refl

uint_zero : (w : Width) → HasType (uint_type w) (uint_val 0)
uint_zero w8 = has_uint w8 0 refl
uint_zero w16 = has_uint w16 0 refl
uint_zero w32 = has_uint w32 0 refl
uint_zero w64 = has_uint w64 0 refl

mutual
  unfolding zero_of

  pub zero_of-HasType : (t : GoType) → HasType t (zero_of t)
  zero_of-HasType bool_type = has_bool false
  zero_of-HasType (int_type w) = int_zero w
  zero_of-HasType (uint_type w) = uint_zero w
  zero_of-HasType float_type = has_float 0
  zero_of-HasType string_type = has_string _
  zero_of-HasType bytes_type = nil_bytes
  zero_of-HasType (ptr_type t) = nil_ptr t
  zero_of-HasType (slice_type t) = nil_slice t
  zero_of-HasType (array_type n t) =
      has_array n t (copies n (zero_of t)) (copies-AllHave n t (zero_of t) (zero_of-HasType t))
        (count-copies n (zero_of t))
  zero_of-HasType (map_type t) = nil_map t
  zero_of-HasType (struct_type fs) = has_struct fs (zero_entries fs) (zero_entries-FieldsHave fs)

  zero_entries-FieldsHave : (fs : FieldTypes) → FieldsHave fs (zero_entries fs)
  zero_entries-FieldsHave no_types = no_fields_have
  zero_entries-FieldsHave (field_type k t fs) =
      fields_have k t fs (zero_of t) (zero_entries fs) (zero_of-HasType t)
        (zero_entries-FieldsHave fs)

pub get-HasType :
    (t : GoType) (vs : Vals) (i : ℕ) (v : Val) → AllHave t vs → get vs i ≡ some v → HasType t v
unfolding get
get-HasType t vs i v (have_nothing u) e = cc
get-HasType t vs zero v (have_val u x xs h r) e = let q : x ≡ v = cc e in subst (HasType t) q h
get-HasType t vs (suc i) v (have_val u x xs h r) e = get-HasType t xs i v r e

pub set-AllHave :
    (t : GoType) (vs : Vals) (i : ℕ) (v : Val)
    → AllHave t vs
    → HasType t v
    → AllHave t (set vs i v) × (count (set vs i v) ≡ count vs)
unfolding set
set-AllHave t vs i v (have_nothing u) h = (have_nothing t, refl)
set-AllHave t vs zero v (have_val u x xs k r) h = (have_val t v xs h r, refl)
set-AllHave t vs (suc i) v (have_val u x xs k r) h =
    let (a, c) = set-AllHave t xs i v r h in (have_val t x (set xs i v) k a, ap suc c)

pub append-AllHave :
    (t : GoType) (vs : Vals) (v : Val) → AllHave t vs → HasType t v → AllHave t (append vs v)
unfolding append
append-AllHave t vs v (have_nothing u) h = have_val t v no_vals h (have_nothing t)
append-AllHave t vs v (have_val u x xs k r) h =
    have_val t x (append xs v) k (append-AllHave t xs v r h)

pub set_map_index-EntriesHave :
    (t : GoType) (es : Entries) (k : Bytes) (v : Val)
    → EntriesHave t es
    → HasType t v
    → EntriesHave t (set_map_index es k v)
unfolding set_map_index
set_map_index-EntriesHave t es k v (no_entries_have u) h =
    entries_have t k v no_entries h (no_entries_have t)
set_map_index-EntriesHave t es k v (entries_have u j x xs i r) h = elim (Bool-cases (same j k)) [
  | inl e ↦ rw e (entries_have t j v xs h r)
  | inr e ↦
      rw e (entries_have t j x (set_map_index xs k v) i (set_map_index-EntriesHave t xs k v r h))
]

-- A result of `with_result`, and of `and_then`.
pub with_result-ok :
    {A B : Type 0} (P : B → Type 0) (o : Outcome A) (f : A → B) (b : B)
    → ((a : A) → o ≡ ok a → P (f a))
    → with_result o f ≡ ok b
    → P b
with_result-ok P (ok a) f b h e = let q : f a ≡ b = cc e in subst P q (h a refl)
with_result-ok P (err x) f b h e = cc
with_result-ok P panic f b h e = cc
with_result-ok P spin f b h e = cc

pub and_then-ok :
    {A B : Type 0} (P : B → Type 0) (o : Outcome A) (f : A → Outcome B) (b : B)
    → ((a : A) → f a ≡ ok b → P b)
    → and_then o f ≡ ok b
    → P b
and_then-ok P (ok a) f b h e = h a e
and_then-ok P (err x) f b h e = cc
and_then-ok P panic f b h e = cc
and_then-ok P spin f b h e = cc

pub map_result-Yields :
    {A B : Type 0} (P : B → Type 0) (f : A → B) (m : M A)
    → Yields (λ a. P (f a)) m
    → Yields P (map_result f m)
map_result-Yields P f m h = Yields-next P m _ (λ a r e. Yields-return P (f a) (h r a e))

pub or_null-Yields :
    (P : Val → Type 0) (v : Val) (m : M Val) → P v → Yields P m → Yields P (or_null v m)
or_null-Yields P v m p h r a = elim (Bool-cases (is_null r)) [
  | inl e ↦ rw (e, or_null) (Yields-next P skip_null _ (λ b r' i. Yields-return P v p) r a)
  | inr e ↦ rw (e, or_null) (h r a)
]

-- An array that is filled, with the count of its elements.
abbrev pub Filled : ℕ → GoType → ℕ × Vals → Type 0
Filled n t p = AllHave t p.1 × (count p.1 ≡ n)

pub index-Filled :
    (n : ℕ) (t : GoType) (m : Val → M Val) (it : Reader) (s u : ℕ × Vals)
    → ((v : Val) → HasType t v → Yields (HasType t) (m v))
    → Filled n t s
    → decode_index m it s ≡ ok u
    → Filled n t u
unfolding decode_index
index-Filled n t m it (i, vs) u k (h, c) e = elim (Option-cases (get vs i)) [
  | inl q ↦ ground arith
  | inr (v, q) ↦
      with_result-ok (Filled n t) (m v it).1 (λ (x : Val). (suc i, set vs i x)) u
        (λ x j.
          let (a, d) = set-AllHave t vs i x h (k v (get-HasType t vs i v h q) it x j) in (a, d ∙ c))
        (ground arith)
]

pub vals-Filled :
    (n : ℕ) (t : GoType) (v : Val) → HasType (array_type n t) v → Filled n t (0, vals_of v)
vals-Filled n t v (has_array _ _ vs h c) = (h, c)

pub entries-FieldsHave :
    (fs : FieldTypes) (v : Val) → HasType (struct_type fs) v → FieldsHave fs (entries_of v)
entries-FieldsHave fs v (has_struct _ es h) = h

-- What the callbacks keep.
pub append-Keeps :
    (t : GoType) (m : M Val)
    → Yields (HasType t) m
    → (it : Reader) (s u : Vals) → AllHave t s
    → decode_append m it s ≡ ok u
    → AllHave t u
unfolding decode_append
append-Keeps t m y it s u p e =
    with_result-ok (AllHave t) (m it).1 (λ x. append s x) u
      (λ x i. append-AllHave t s x p (y it x i)) e

pub pair-Keeps :
    (lib : Library) (t : GoType) (m : M Val)
    → Yields (HasType t) m
    → (it : Reader) (k : Bytes) (s u : Entries) → EntriesHave t s
    → decode_pair lib m it k s ≡ ok u
    → EntriesHave t u
unfolding decode_pair
pair-Keeps lib t m y it k s u p e =
    and_then-ok (EntriesHave t) (read_string (new_reader (lib.quote k))).1 _ u
      (λ j i.
        with_result-ok (EntriesHave t) (m it).1 (λ x. set_map_index s j x) u
          (λ x h. set_map_index-EntriesHave t s j x p (y it x h)) i)
      e

pub member-Keeps :
    (fs : FieldTypes) (g : Reader → Bytes → Entries → Outcome Entries) (it : Reader) (k : Bytes)
    (s u : Entries)
    → ((es u' : Entries) → FieldsHave fs es → g it k es ≡ ok u' → FieldsHave fs u')
    → FieldsHave fs s
    → decode_member g it k s ≡ ok u
    → FieldsHave fs u
unfolding decode_member
member-Keeps fs g it k s u h p e = elim (Bool-cases (is_null it)) [
  | inl q ↦ let r : s ≡ u = ground arith in subst (FieldsHave fs) r p
  | inr q ↦ h s u p (ground arith)
]
