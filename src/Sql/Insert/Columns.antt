-- ===== src/Sql/Insert/Columns.antt =====
-- The column list of `InsertInto` in sql/dialect/mysql/insert.go.
use sqlike.Common.{
  ℕ, suc, ◌+◌, ◌≡◌, refl, sym, ap, ◌∙◌, true, false, List, [], ◌∷◌, ◌++◌, Bytes, arith, ltb,
  if◌then◌else◌, length, length-append, append_assoc, append-nil, inl, inr, Bool-cases,
}
use sqlike.Sql.Stmt.{quote}
use sqlike.Sql.Insert.{Field, InsertOptions, is_dropped, kept, columns}

-- The columns with a comma behind each.
pub followed : List Field → Bytes
followed [] = []
followed (f ∷ fs) = quote f.name ++ (b',' ∷ followed fs)

module _ (opt : InsertOptions) where
  columns_one :
      (i : ℕ) (f : Field) → columns opt i (f ∷ []) ≡ (if is_dropped opt f then [] else quote f.name)
  unfolding columns
  columns_one i f =
      let e : ltb i (i + 0) ≡ false = ground arith in
      rw e (ap (λ w. if is_dropped opt f then [] else w) (append-nil (quote f.name)))

  columns_dropped :
      (i : ℕ) (f : Field) (fs : List Field)
      → is_dropped opt f ≡ true
      → columns opt i (f ∷ fs) ≡ columns opt i fs
  unfolding columns
  columns_dropped i f fs e = rw e refl

  columns_kept :
      (i : ℕ) (f g : Field) (fs : List Field)
      → is_dropped opt f ≡ false
      → columns opt i (f ∷ (fs ++ g ∷ []))
        ≡ quote f.name ++ (b',' ∷ columns opt (suc i) (fs ++ g ∷ []))
  unfolding columns
  columns_kept i f g fs e =
      let h : ltb i (i + length (fs ++ g ∷ [])) ≡ true =
        ground (arith, length-append fs (g ∷ [])) in
      rw (e, h) refl

  -- The column list is the fields that are kept, in order, with a comma behind each but the last field of
  -- all: so if that field is omitted or generated and another is kept, the list ends with a comma.
  columns-followed :
      (fs : List Field) (i : ℕ) (f : Field)
      → columns opt i (fs ++ f ∷ [])
        ≡ followed (kept opt fs) ++ (if is_dropped opt f then [] else quote f.name)
  unfolding followed kept
  columns-followed [] i f = columns_one i f
  columns-followed (g ∷ fs) i f = elim (Bool-cases (is_dropped opt g)) [
    | inl e ↦ rw e (columns_dropped i g (fs ++ f ∷ []) e ∙ columns-followed fs i f)
    | inr e ↦
        let last = if is_dropped opt f then [] else quote f.name in
        rw e (
          columns_kept i g f fs e
          ∙ ap (λ w. quote g.name ++ (b',' ∷ w)) (columns-followed fs (suc i) f)
          ∙ sym (append_assoc (quote g.name) (b',' ∷ followed (kept opt fs)) last))
  ]
