-- ===== src/Sql/Insert.antt =====
-- `InsertInto` and `findEncoder` of sql/dialect/mysql/insert.go.
pub mod Columns
pub mod Fills
pub mod Filled
pub mod Encoders
mod Tests
use sqlike.Common.{
  ℕ, zero, suc, ◌+◌, Bool, true, false, List, [], ◌∷◌, ◌++◌, Option, none, some, Bytes, codes, ◌&&◌,
  ◌||◌, not, ltb, same, if◌then◌else◌, length,
}
use sqlike.Sql.Outcome.{Outcome, ok, err, panic, ◌>>=◌ as bind}
use sqlike.Sql.Primitive.{Any}
use sqlike.Sql.Stmt.{Arg, null, Stmt, Step, ◌>>◌, done, write, quote, table_name}
use sqlike.Sql.Names.{index_of, is_some}
use sqlike.Sql.Builder.{Env}
use sqlike.Sql.Builder.Dispatch.{convert_spatial}

-- What `InsertInto` asks of a `StructFielder`: its name and the keys of its tag.
pub record Field : Type 0 where
  pub name : Bytes
  pub tags : List Bytes

-- `insertMode`; the zero value is no mode.
pub data InsertMode : Type 0 where
  plain_insert insert_ignore insert_on_duplicate : InsertMode

pub record InsertOptions : Type 0 where
  pub mode : InsertMode
  pub omits : List Bytes

-- `_, ok := sf.Tag().LookUp(k)`
abbrev pub look_up : Field → Bytes → Bool
look_up f k = is_some (index_of f.tags k)

abbrev pub is_on_duplicate : InsertMode → Bool
is_on_duplicate insert_on_duplicate = true
is_on_duplicate _ = false

abbrev pub is_ignore : InsertMode → Bool
is_ignore insert_ignore = true
is_ignore _ = false

abbrev pub is_empty {ℓ} : {A : Type ℓ} → List A → Bool
is_empty [] = true
is_empty (x ∷ xs) = false

module _ (opt : InsertOptions) where
  abbrev pub is_omitted : Field → Bool
  is_omitted f = ltb 0 (length opt.omits) && is_some (index_of opt.omits f.name)

  -- The field is taken out of `fields`.
  unfoldable pub is_dropped : Field → Bool
  unfolding index_of
  is_dropped f =
      (is_omitted f && not (is_on_duplicate opt.mode)) || look_up f (codes "generated_column")

  -- What is left of `fields` behind the loop over the columns.
  unfoldable pub kept : List Field → List Field
  unfolding is_dropped
  kept [] = []
  kept (f ∷ fs) = let rest = kept fs in if is_dropped f then rest else f ∷ rest

  -- The keys of `omitField`.
  unfoldable pub omit_field : List Field → List Bytes
  unfolding index_of
  omit_field [] = []
  omit_field (f ∷ fs) =
      let rest = omit_field fs in
      if is_omitted f && is_on_duplicate opt.mode then f.name ∷ rest else rest

  -- What the loop over the columns writes, with `i` fields that are kept in front of the rest.
  unfoldable pub columns : ℕ → List Field → Bytes
  unfolding is_dropped
  columns i [] = []
  columns i (f ∷ fs) =
      let dropped = columns i fs in
      let next = columns (suc i) fs in
      if is_dropped f
      then dropped
      else quote f.name ++ ((if ltb i (i + length fs) then codes "," else []) ++ next)

-- The fields of `ON DUPLICATE KEY UPDATE` that are skipped.
unfoldable pub is_skipped : Bytes → List Bytes → Field → Bool
unfolding index_of
is_skipped pk omitted f =
    same f.name pk
    || look_up f (codes "primary_key")
    || look_up f (codes "auto_increment")
    || is_some (index_of omitted f.name)

abbrev pub assign : Bytes → Bytes
assign name = quote name ++ (codes "=VALUES(" ++ (quote name ++ codes ")"))

-- The loop over the fields of `ON DUPLICATE KEY UPDATE`.
unfoldable pub updates : Bytes → List Bytes → Bool → List Field → Bytes
unfolding is_skipped
updates pk omitted next [] = []
updates pk omitted next (f ∷ fs) =
    let skipped = updates pk omitted next fs in
    let rest = updates pk omitted true fs in
    if is_skipped pk omitted f
    then skipped
    else (if next then codes "," else []) ++ (assign f.name ++ rest)

-- `ValueEncoder` of sql/codec
abbrev pub ValueEncoder : Type 0
ValueEncoder = Field → Any → Outcome Arg

-- The value of each field of a record (`FieldByIndexesReadOnly`).
abbrev pub Record : Type 0
Record = Field → Any

-- `NilEncoder`
abbrev pub nil_encoder : ValueEncoder
nil_encoder f x = ok null

abbrev pub comma : Bool → Step
comma b = if b then write (codes ",") else done

abbrev pub duplicates : InsertOptions → Bytes → List Bytes → List Field → Step
unfolding updates
duplicates opt pk omitted fs =
    if is_on_duplicate opt.mode
    then write (codes " ON DUPLICATE KEY UPDATE " ++ updates pk omitted false fs)
    else done

module _ (look_up_encoder : Any → Outcome ValueEncoder) (is_zero : Any → Bool) where
  -- `findEncoder`
  unfoldable pub find_encoder : Field → Any → Outcome ValueEncoder
  unfolding index_of
  find_encoder f v =
      if look_up f (codes "auto_increment") && is_zero v then ok nil_encoder else look_up_encoder v

module _ (env : Env) where
  abbrev pub encode_field : ValueEncoder → Field → Any → Step
  unfolding convert_spatial
  encode_field encoder f v s = bind (encoder f v) (λ a. convert_spatial env a s)

  -- The fields of a later record.
  unfoldable pub later_record : Bool → List Field → List ValueEncoder → Record → Step
  unfolding encode_field
  later_record j [] encoders v = done
  later_record j (f ∷ fs) [] v = λ s. panic
  later_record j (f ∷ fs) (encoder ∷ encoders) v =
      comma j >> encode_field encoder f (v f) >> later_record true fs encoders v

  unfoldable pub later_records : List Field → List ValueEncoder → List Record → Step
  unfolding later_record
  later_records fs encoders [] = done
  later_records fs encoders (v ∷ vs) =
      write (codes ",(")
      >> later_record false fs encoders v
      >> write (codes ")")
      >> later_records fs encoders vs

module _ (env : Env) (look_up_encoder : Any → Outcome ValueEncoder) (is_zero : Any → Bool) where
  -- The fields of the first record, whose encoders it finds.
  unfoldable pub first_record :
      Bool → List Field → Record → Stmt → Outcome (Stmt × List ValueEncoder)
  unfolding find_encoder encode_field
  first_record j [] v s = ok (s, [])
  first_record j (f ∷ fs) v s = bind (comma j s) (λ s1.
      bind (find_encoder look_up_encoder is_zero f (v f)) (λ encoder.
        bind (encode_field env encoder f (v f) s1)
          (λ s2. bind (first_record true fs v s2) (λ r. ok (r.0, encoder ∷ r.1)))))

  -- The loop over the records.
  unfoldable pub records : List Field → List Record → Step
  unfolding first_record later_records
  records fs [] = done
  records fs (v ∷ vs) = write (codes "(") >> (λ s.
      bind (first_record false fs v s)
        (λ r. (write (codes ")") >> later_records env fs r.1 vs) r.0))

  unfoldable pub insert_into :
      Bytes → Bytes → Bytes → List Field → List Record → InsertOptions → Step
  unfolding kept columns records omit_field duplicates
  insert_into db table pk fields vs opt = do
    write (codes "INSERT")
    if is_ignore opt.mode then write (codes " IGNORE") else done
    write (codes " INTO " ++ (table_name db table ++ codes " ("))
    write (columns opt 0 fields)
    write (codes ") VALUES ")
    records (kept opt fields) vs
    duplicates opt pk (omit_field opt fields) (kept opt fields)
    write (codes ";")
