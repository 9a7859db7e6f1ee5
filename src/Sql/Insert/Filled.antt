-- ===== src/Sql/Insert/Filled.antt =====
-- Placeholders and arguments of `InsertInto` in sql/dialect/mysql/insert.go.
use sqlike.Common.{
  ℕ, suc, ◌+◌, ◌*◌, ◌≡◌, refl, ap, Bool, true, false, List, [], ◌∷◌, ◌++◌, Bytes, codes, arith, ltb,
  if◌then◌else◌, length, length-append, inl, inr, Bool-cases,
}
use sqlike.Sql.Outcome.{Outcome, ok, ◌>>=◌ as bind}
use sqlike.Sql.Primitive.{Any, text}
use sqlike.Sql.Stmt.{Arg, null, plain, geometry, Stmt, ◌>>◌, write, quote, table_name, new_stmt}
use sqlike.Sql.Builder.{Env, bind_arg, geometry_function}
use sqlike.Sql.Builder.Balance.{holes, Plain, Plain-append, Plain-quote, Prints}
use sqlike.Sql.Builder.Balance.Build.{spatial-Balanced}
use sqlike.Sql.Builder.Dispatch.{convert_spatial}
use sqlike.Sql.Actions.Balanced.{table-Plain}
use sqlike.Sql.Insert.{
  Field, InsertOptions, is_ignore, is_dropped, kept, columns, omit_field, is_skipped, updates,
  assign, ValueEncoder, Record, find_encoder, encode_field, comma, first_record, later_record,
  later_records, records, duplicates, insert_into,
}
use sqlike.Sql.Insert.Fills.{
  Grown, Fills, wrote, did_nothing, either, bind_inv, ok_inj, same_Grown, ◌▸◌, retally, comma-Fills,
}

module _ (env : Env) (prints : Prints env) where
  spatial_args :
      (a : Arg) (s t : Stmt) → convert_spatial env a s ≡ ok t → length t.args ≡ length s.args + 1
  unfolding convert_spatial bind_arg geometry_function
  spatial_args null s t e = ground (arith, length-append s.args (null ∷ []))
  spatial_args (plain c) s t e = ground (arith, length-append s.args (plain c ∷ []))
  spatial_args (geometry k srid wkt) s t e =
      ground (arith, length-append s.args (plain (text wkt) ∷ []))

  spatial-Fills : (a : Arg) → Fills 1 (convert_spatial env a)
  spatial-Fills a = record {
    fills = λ s t e.
        let h = spatial_args a s t e in
        (omega (arith, (spatial-Balanced env prints a).matches s t e), h);
  }

  encode-Fills :
      (encoder : ValueEncoder) (f : Field) (x : Any) → Fills 1 (encode_field env encoder f x)
  unfolding encode_field
  encode-Fills encoder f x = record {
    fills = λ s t e.
        let (a, _, h) = bind_inv (encoder f x) (λ a. convert_spatial env a s) t e in
        (spatial-Fills a).fills s t h;
  }

  later_record-Fills :
      (j : Bool) (fs : List Field) (es : List ValueEncoder) (v : Record)
      → Fills (length fs) (later_record env j fs es v)
  unfolding later_record encode_field
  later_record-Fills j [] es v = did_nothing
  later_record-Fills j (f ∷ fs) [] v = record { fills = λ s t e. cc }
  later_record-Fills j (f ∷ fs) (encoder ∷ es) v =
      retally (omega arith)
        ((comma-Fills j ▸ encode-Fills encoder f (v f)) ▸ later_record-Fills true fs es v)

  later_records-Fills :
      (fs : List Field) (es : List ValueEncoder) (vs : List Record)
      → Fills (length vs * length fs) (later_records env fs es vs)
  unfolding later_records holes
  later_records-Fills fs es [] = retally (ground arith) did_nothing
  later_records-Fills fs es (v ∷ vs) = retally (omega arith) (
      ((wrote (codes ",(") refl ▸ later_record-Fills false fs es v) ▸ wrote (codes ")") refl)
      ▸ later_records-Fills fs es vs)

  module _ (look_up_encoder : Any → Outcome ValueEncoder) (is_zero : Any → Bool) where
    first_record-Grown :
        (j : Bool) (fs : List Field) (v : Record) (s : Stmt) (r : Stmt × List ValueEncoder)
        → first_record env look_up_encoder is_zero j fs v s ≡ ok r
        → Grown (length fs) s r.0
    unfolding first_record find_encoder encode_field
    first_record-Grown j [] v s r e = same_Grown s r.0 (ap (λ p. p.0) (ok_inj (s, []) r e))
    first_record-Grown j (f ∷ fs) v s r e =
        let (s1, c1, e1) = bind_inv (comma j s) _ r e in
        let (encoder, c2, e2) = bind_inv (find_encoder look_up_encoder is_zero f (v f)) _ r e1 in
        let (s2, c3, e3) = bind_inv (encode_field env encoder f (v f) s1) _ r e2 in
        let (q, c4, e4) = bind_inv (first_record env look_up_encoder is_zero true fs v s2) _ r e3 in
        let (h1, a1) = (comma-Fills j).fills s s1 c1 in
        let (h2, a2) = (encode-Fills encoder f (v f)).fills s1 s2 c3 in
        let (h3, a3) = first_record-Grown true fs v s2 q c4 in
        let e5 = ap (λ p. p.0) (ok_inj (q.0, encoder ∷ q.1) r e4) in
        let h4 = ap (λ u. holes u.text) e5 in
        let a4 = ap (λ u. length u.args) e5 in (omega arith, omega arith)

    first_then-Fills :
        (fs : List Field) (v : Record) (vs : List Record)
        → Fills (length fs + length vs * length fs) (λ s.
          bind
            (first_record env look_up_encoder is_zero false fs v s)
            (λ r. (write (codes ")") >> later_records env fs r.1 vs) r.0))
    unfolding first_record later_records holes
    first_then-Fills fs v vs = record {
      fills = λ s t e.
          let (r, c, h) =
            bind_inv (first_record env look_up_encoder is_zero false fs v s)
              (λ r. (write (codes ")") >> later_records env fs r.1 vs) r.0) t e in
          let (h2, a2) = first_record-Grown false fs v s r c in
          let (h3, a3) = (wrote (codes ")") refl ▸ later_records-Fills fs r.1 vs).fills r.0 t h in
          (omega arith, omega arith);
    }

    records-Fills :
        (fs : List Field) (vs : List Record)
        → Fills (length vs * length fs) (records env look_up_encoder is_zero fs vs)
    unfolding records first_record later_records holes
    records-Fills fs [] = retally (omega arith) did_nothing
    records-Fills fs (v ∷ vs) =
        retally (omega arith) (wrote (codes "(") refl ▸ first_then-Fills fs v vs)

-- The names of the fields hold no question mark.
abbrev pub AllNamed : List Field → Type 0
AllNamed [] = Unit {0}
AllNamed (f ∷ fs) = Plain f.name × AllNamed fs

kept-AllNamed : (opt : InsertOptions) (fs : List Field) → AllNamed fs → AllNamed (kept opt fs)
unfolding kept
kept-AllNamed opt [] h = tt
kept-AllNamed opt (f ∷ fs) (h, k) = elim (Bool-cases (is_dropped opt f)) [
  | inl e ↦ rw e (kept-AllNamed opt fs k)
  | inr e ↦ rw e (h, kept-AllNamed opt fs k)
]

if-Plain : (b : Bool) (v w : Bytes) → Plain v → Plain w → Plain (if b then v else w)
if-Plain true v w h k = h
if-Plain false v w h k = k

columns-Plain :
    (opt : InsertOptions) (i : ℕ) (fs : List Field) → AllNamed fs → Plain (columns opt i fs)
unfolding columns holes
columns-Plain opt i [] h = refl
columns-Plain opt i (f ∷ fs) (h, k) = if-Plain (is_dropped opt f) _ _ (columns-Plain opt i fs k) (
    Plain-append (quote f.name) _ (Plain-quote f.name h) (
      Plain-append (if ltb i (i + length fs) then codes "," else []) _
        (if-Plain (ltb i (i + length fs)) (codes ",") [] refl refl)
        (columns-Plain opt (suc i) fs k)))

assign-Plain : (name : Bytes) → Plain name → Plain (assign name)
unfolding holes
assign-Plain name h = Plain-append (quote name) _ (Plain-quote name h) (
    Plain-append (codes "=VALUES(") (quote name ++ codes ")") refl
      (Plain-append (quote name) (codes ")") (Plain-quote name h) refl))

updates-Plain :
    (pk : Bytes) (omitted : List Bytes) (next : Bool) (fs : List Field)
    → AllNamed fs
    → Plain (updates pk omitted next fs)
unfolding updates holes
updates-Plain pk omitted next [] h = refl
updates-Plain pk omitted next (f ∷ fs) (h, k) =
    if-Plain (is_skipped pk omitted f) _ _ (updates-Plain pk omitted next fs k) (
      Plain-append (if next then codes "," else []) _ (if-Plain next (codes ",") [] refl refl) (
        Plain-append (assign f.name) _ (assign-Plain f.name h)
          (updates-Plain pk omitted true fs k)))

duplicates-Fills :
    (opt : InsertOptions) (pk : Bytes) (omitted : List Bytes) (fs : List Field)
    → AllNamed fs
    → Fills 0 (duplicates opt pk omitted fs)
unfolding updates holes
duplicates-Fills opt pk omitted fs h =
    either _
      (wrote (codes " ON DUPLICATE KEY UPDATE " ++ updates pk omitted false fs) (
        Plain-append (codes " ON DUPLICATE KEY UPDATE ") (updates pk omitted false fs) refl
          (updates-Plain pk omitted false fs h)))
      did_nothing

module _ (env : Env) (prints : Prints env) (look_up_encoder : Any → Outcome ValueEncoder)
    (is_zero : Any → Bool) where
  insert_into-Fills :
      (db table pk : Bytes) (fields : List Field) (vs : List Record) (opt : InsertOptions)
      → Plain db
      → Plain table
      → AllNamed fields
      → Fills
          (length vs * length (kept opt fields))
          (insert_into env look_up_encoder is_zero db table pk fields vs opt)
  unfolding insert_into kept columns records omit_field holes
  insert_into-Fills db table pk fields vs opt hd ht hf =
      let into =
        Plain-append (codes " INTO ") (table_name db table ++ codes " (") refl
          (Plain-append (table_name db table) (codes " (") (table-Plain db table hd ht) refl) in
      retally (omega arith) (
        wrote (codes "INSERT") refl
        ▸ either (is_ignore opt.mode) (wrote (codes " IGNORE") refl) did_nothing
        ▸ wrote (codes " INTO " ++ (table_name db table ++ codes " (")) into
        ▸ wrote (columns opt 0 fields) (columns-Plain opt 0 fields hf)
        ▸ wrote (codes ") VALUES ") refl
        ▸ records-Fills env prints look_up_encoder is_zero (kept opt fields) vs
        ▸ duplicates-Fills opt pk (omit_field opt fields) (kept opt fields)
            (kept-AllNamed opt fields hf)
        ▸ wrote (codes ";") refl)

-- The statement of `InsertInto` has one placeholder and one argument for each record and each field that is
-- kept, if names and printed numbers hold no question mark.
pub insert_into-filled :
    (env : Env) (look_up_encoder : Any → Outcome ValueEncoder) (is_zero : Any → Bool)
    (db table pk : Bytes) (fields : List Field) (vs : List Record) (opt : InsertOptions) (t : Stmt)
    → Prints env
    → Plain db
    → Plain table
    → AllNamed fields
    → insert_into env look_up_encoder is_zero db table pk fields vs opt new_stmt ≡ ok t
    → (holes t.text ≡ length vs * length (kept opt fields))
      × (length t.args ≡ length vs * length (kept opt fields))
unfolding holes
insert_into-filled env look_up_encoder is_zero db table pk fields vs opt t prints hd ht hf e =
    let (h, a) =
      (insert_into-Fills env prints look_up_encoder is_zero db table pk fields vs opt hd ht
          hf).fills
        new_stmt t e in
    (omega arith, omega arith)
