-- ===== src/Jsonb/Codec/Fits.antt =====
-- The values of a type that jsonb/decoder.go reads back from what jsonb/encoder.go wrote, and what is documented of
-- the standard library.
use sqlike.Common.{
  ℕ, suc, ◌<◌, ◌≡◌, Bool, true, false, List, [], ◌∷◌, ◌++◌, some, Bytes, codes, ltb, leb, ◌==◌,
  same, ◌&&◌, not, if◌then◌else◌,
}
use sqlike.Sql.Primitive.{ℤ}
use sqlike.Go.Escape.{AllBytes}
use sqlike.Jsonb.Str.{backslash}
use sqlike.Jsonb.Skip.Brackets.{NoBrackets}
use sqlike.Jsonb.Codec.Types.{
  Width, GoType, bool_type, int_type, uint_type, string_type, bytes_type, ptr_type, slice_type,
  array_type, map_type, struct_type, FieldTypes, no_types, field_type, Val, nil_val, bool_val,
  int_val, uint_val, string_val, bytes_val, ptr_val, list_val, map_val, struct_val, Vals, no_vals,
  val, Entries, no_entries, entry, size, in_range, is_nil,
}
use sqlike.Jsonb.Codec.Encode.{Library}

-- Printable bytes of ASCII other than the quote and the backslash.
abbrev pub is_plain : ℕ → Bool
is_plain c = leb 32 c && ltb c 127 && not (c == b'"') && not (c == backslash)

abbrev pub Plain : Bytes → Type 0
Plain [] = Unit {0}
Plain (c ∷ w) = (is_plain c ≡ true) × Plain w

-- The order of `k < j` on strings.
unfoldable pub below : Bytes → Bytes → Bool
below k [] = false
below [] (d ∷ j) = true
below (c ∷ k) (d ∷ j) = let rest = below k j in if c == d then rest else ltb c d

abbrev pub Sorted : List Bytes → Type 0
Sorted [] = Unit {0}
Sorted (k ∷ []) = Unit {0}
Sorted (k ∷ j ∷ ks) = (below k j ≡ true) × Sorted (j ∷ ks)

abbrev pub keys_of : List (Bytes × Bytes) → List Bytes
keys_of [] = []
keys_of ((k, w) ∷ kvs) = k ∷ keys_of kvs

-- `Quote` of plain text puts it in quotes, base64 is written without quotes and brackets and is read back, and a
-- list that is sorted is left as it is.
pub record Documented (lib : Library) : Type 0 where
  pub quotes : (k : Bytes) → Plain k → lib.quote k ≡ b'"' ∷ (k ++ b'"' ∷ [])
  pub letters : (b : Bytes) → AllBytes b → Plain (lib.base64 b) × NoBrackets (lib.base64 b)
  pub decodes : (b : Bytes) → AllBytes b → lib.from_base64 (lib.base64 b) ≡ some b
  pub decodes_nothing : lib.from_base64 [] ≡ some []
  pub sorts : (kvs : List (Bytes × Bytes)) → Sorted (keys_of kvs) → lib.sort kvs ≡ kvs

abbrev pub names : Entries → List Bytes
names no_entries = []
names (entry k v es) = k ∷ names es

-- The key is none of the entries'.
abbrev pub Absent : Bytes → Entries → Type 0
Absent k no_entries = Unit {0}
Absent k (entry j v es) = (same k j ≡ false) × Absent k es

abbrev pub count : Vals → ℕ
count no_vals = 0
count (val v vs) = suc (count vs)

-- No text in the value holds a bracket.
unfoldable mutual
  pub Quiet : Val → Type 0
  Quiet (string_val s) = NoBrackets s
  Quiet (ptr_val v) = Quiet v
  Quiet (list_val vs) = QuietVals vs
  Quiet (map_val es) = QuietEntries es
  Quiet (struct_val es) = QuietEntries es
  Quiet _ = Unit {0}

  pub QuietVals : Vals → Type 0
  QuietVals no_vals = Unit {0}
  QuietVals (val v vs) = Quiet v × QuietVals vs

  pub QuietEntries : Entries → Type 0
  QuietEntries no_entries = Unit {0}
  QuietEntries (entry k v es) = NoBrackets k × Quiet v × QuietEntries es

-- A value inside another: if it is a list, no text in it holds a bracket.
unfoldable pub Nested : Val → Type 0
unfolding Quiet
Nested (ptr_val v) = Nested v
Nested (list_val vs) = QuietVals vs
Nested _ = Unit {0}

module _ (lib : Library) where
  -- Values of each type but float64, under these conditions: numbers are in the range of their width; bytes are
  -- below 256 and are not the three that base64 writes as `null`; no pointer points to nil; the keys of maps and
  -- structs are plain and different, those of maps in their order; a list inside another value holds no bracket.
  mutual
    pub data Fits : GoType → Val → Type 0 where
      fits_bool : (b : Bool) → Fits bool_type (bool_val b)
      fits_int : (w : Width) (i : ℤ) → in_range w i ≡ true → Fits (int_type w) (int_val i)
      fits_uint : (w : Width) (n : ℕ) → n < size w → Fits (uint_type w) (uint_val n)
      fits_string : (s : Bytes) → Fits string_type (string_val s)
      fits_nil_bytes : Fits bytes_type nil_val
      fits_bytes :
          (b : Bytes)
          → AllBytes b
          → same (lib.base64 b) (codes "null") ≡ false
          → Fits bytes_type (bytes_val b)
      fits_nil_ptr : (t : GoType) → Fits (ptr_type t) nil_val
      fits_ptr :
          (t : GoType) (v : Val) → is_nil v ≡ false → Fits t v → Fits (ptr_type t) (ptr_val v)
      fits_nil_slice : (t : GoType) → Fits (slice_type t) nil_val
      fits_slice : (t : GoType) (vs : Vals) → FitsAll t vs → Fits (slice_type t) (list_val vs)
      fits_array :
          (t : GoType) (vs : Vals) → FitsAll t vs → Fits (array_type (count vs) t) (list_val vs)
      fits_nil_map : (t : GoType) → Fits (map_type t) nil_val
      fits_map :
          (t : GoType) (es : Entries)
          → FitsEntries t es
          → Sorted (names es)
          → Fits (map_type t) (map_val es)
      fits_struct :
          (fs : FieldTypes) (es : Entries)
          → FitsFields fs es
          → Fits (struct_type fs) (struct_val es)

    pub data FitsAll : GoType → Vals → Type 0 where
      all_nothing : (t : GoType) → FitsAll t no_vals
      all_val :
          (t : GoType) (v : Val) (vs : Vals)
          → Nested v
          → Fits t v
          → FitsAll t vs
          → FitsAll t (val v vs)

    pub data FitsEntries : GoType → Entries → Type 0 where
      entries_nothing : (t : GoType) → FitsEntries t no_entries
      entries_entry :
          (t : GoType) (k : Bytes) (v : Val) (es : Entries)
          → Plain k
          → Absent k es
          → Nested v
          → Fits t v
          → FitsEntries t es
          → FitsEntries t (entry k v es)

    pub data FitsFields : FieldTypes → Entries → Type 0 where
      fields_nothing : FitsFields no_types no_entries
      fields_entry :
          (k : Bytes) (t : GoType) (fs : FieldTypes) (v : Val) (es : Entries)
          → Plain k
          → Absent k es
          → Nested v
          → Fits t v
          → FitsFields fs es
          → FitsFields (field_type k t fs) (entry k v es)
