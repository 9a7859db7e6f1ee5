-- ===== src/Sql/Insert/Encoders.antt =====
-- The encoders that `InsertInto` of sql/dialect/mysql/insert.go finds at the first record.
use sqlike.Common.{
  ◌≡◌, refl, sym, ap, ◌∙◌, Bool, true, false, List, [], ◌∷◌, ◌++◌, some, codes, arith, length,
  get_elem?, get_elem?-append, suc, ◌+◌, length-append, append_assoc, append-nil,
}
use sqlike.Sql.Outcome.{Outcome, ok}
use sqlike.Sql.Primitive.{Any, text}
use sqlike.Sql.Stmt.{Arg, null, plain, geometry, Stmt, ◌>>◌}
use sqlike.Sql.Builder.{Env, bind_arg, geometry_function}
use sqlike.Sql.Builder.Dispatch.{convert_spatial}
use sqlike.Sql.Insert.{
  Field, look_up, ValueEncoder, Record, nil_encoder, find_encoder, encode_field, comma,
  first_record, later_record,
}
use sqlike.Sql.Insert.Fills.{bind_inv, ok_inj}

-- Arguments are appended only.
abbrev Extends : Stmt → Stmt → Type 0
Extends s t = (xs : List Arg) × (t.args ≡ s.args ++ xs)

Extends-trans : (s t u : Stmt) → Extends s t → Extends t u → Extends s u
Extends-trans s t u (xs, e) (ys, h) =
    (xs ++ ys, h ∙ ap (λ v. v ++ ys) e ∙ append_assoc s.args xs ys)

comma-args : (j : Bool) (s t : Stmt) → comma j s ≡ ok t → t.args ≡ s.args
comma-args j s t e = ground arith

module _ (env : Env) where
  spatial-Extends : (a : Arg) (s t : Stmt) → convert_spatial env a s ≡ ok t → Extends s t
  unfolding convert_spatial bind_arg geometry_function
  spatial-Extends null s t e = (null ∷ [], ground arith)
  spatial-Extends (plain c) s t e = (plain c ∷ [], ground arith)
  spatial-Extends (geometry k srid wkt) s t e = (plain (text wkt) ∷ [], ground arith)

  later_record-Extends :
      (j : Bool) (fs : List Field) (es : List ValueEncoder) (v : Record) (s t : Stmt)
      → later_record env j fs es v s ≡ ok t
      → Extends s t
  unfolding later_record encode_field
  later_record-Extends j [] es v s t e =
      ([], ap (λ u. u.args) (sym (ok_inj s t e)) ∙ sym (append-nil s.args))
  later_record-Extends j (f ∷ fs) [] v s t e = cc
  later_record-Extends j (f ∷ fs) (encoder ∷ es) v s t e =
      let (s2, c, e2) =
        bind_inv ((comma j >> encode_field env encoder f (v f)) s) (later_record env true fs es v) t
          e in
      let (s1, c1, c2) = bind_inv (comma j s) (encode_field env encoder f (v f)) s2 c in
      let (a, _, c3) = bind_inv (encoder f (v f)) (λ a. convert_spatial env a s1) s2 c2 in
      let (xs, h) = spatial-Extends a s1 s2 c3 in
      let (ys, k) = later_record-Extends true fs es v s2 t e2 in
      Extends-trans s s2 t (xs, h ∙ ap (λ v. v ++ xs) (comma-args j s s1 c1)) (ys, k)

  -- A field whose encoder is the one for nil.
  nil_first :
      (j : Bool) (f : Field) (fs : List Field) (es : List ValueEncoder) (v : Record) (s t : Stmt)
      → later_record env j (f ∷ fs) (nil_encoder ∷ es) v s ≡ ok t
      → get_elem? t.args (length s.args) ≡ some null
  unfolding later_record encode_field convert_spatial bind_arg
  nil_first j f fs es v s t e =
      let (s2, c, e2) =
        bind_inv ((comma j >> encode_field env nil_encoder f (v f)) s)
          (later_record env true fs es v) t e in
      let (s1, c1, c2) = bind_inv (comma j s) (encode_field env nil_encoder f (v f)) s2 c in
      let (xs, h) = later_record-Extends true fs es v s2 t e2 in
      let n : s2.args ≡ s.args ++ null ∷ [] =
        sym (ap (λ u. u.args) (ok_inj _ s2 c2)) ∙ ap (λ w. w ++ null ∷ []) (comma-args j s s1 c1) in
      ap (λ x. get_elem? x (length s.args))
        (h ∙ ap (λ w. w ++ xs) n ∙ append_assoc s.args (null ∷ []) xs)
      ∙ ap (get_elem? (s.args ++ null ∷ xs)) (omega arith)
      ∙ get_elem?-append s.args (null ∷ xs) 0

  -- A field appends one argument.
  one_more :
      (a : Arg) (s t : Stmt) → convert_spatial env a s ≡ ok t → length t.args ≡ suc (length s.args)
  unfolding convert_spatial bind_arg geometry_function
  one_more null s t e = ground (arith, length-append s.args (null ∷ []))
  one_more (plain c) s t e = ground (arith, length-append s.args (plain c ∷ []))
  one_more (geometry k srid wkt) s t e =
      ground (arith, length-append s.args (plain (text wkt) ∷ []))

  -- A field behind others whose encoder is the one for nil.
  nil_at :
      (j : Bool) (pre : List Field) (f : Field) (fs : List Field) (before es : List ValueEncoder)
      (v : Record) (s t : Stmt)
      → length before ≡ length pre
      → later_record env j (pre ++ f ∷ fs) (before ++ nil_encoder ∷ es) v s ≡ ok t
      → get_elem? t.args (length s.args + length pre) ≡ some null
  unfolding later_record encode_field
  nil_at j [] f fs [] es v s t n e =
      ap (get_elem? t.args) (omega arith) ∙ nil_first j f fs es v s t e
  nil_at j [] f fs (b ∷ before) es v s t n e = absurd (omega arith)
  nil_at j (g ∷ pre) f fs [] es v s t n e = absurd (omega arith)
  nil_at j (g ∷ pre) f fs (b ∷ before) es v s t n e =
      let rest = later_record env true (pre ++ f ∷ fs) (before ++ nil_encoder ∷ es) v in
      let (s2, c, e2) = bind_inv ((comma j >> encode_field env b g (v g)) s) rest t e in
      let (s1, c1, c2) = bind_inv (comma j s) (encode_field env b g (v g)) s2 c in
      let (a, _, c3) = bind_inv (b g (v g)) (λ a. convert_spatial env a s1) s2 c2 in
      let m = ap length (comma-args j s s1 c1) in
      let l = one_more a s1 s2 c3 in
      ap (get_elem? t.args) (omega arith) ∙ nil_at true pre f fs before es v s2 t (omega arith) e2

module _ (env : Env) (look_up_encoder : Any → Outcome ValueEncoder) (is_zero : Any → Bool) where
  -- The encoder that is kept for a field behind others.
  encoder_at :
      (j : Bool) (pre : List Field) (f : Field) (fs : List Field) (v : Record) (s : Stmt)
      (r : Stmt × List ValueEncoder)
      → first_record env look_up_encoder is_zero j (pre ++ f ∷ fs) v s ≡ ok r
      → look_up f (codes "auto_increment") ≡ true
      → is_zero (v f) ≡ true
      → (before : List ValueEncoder) × (es : List ValueEncoder) × (r.1 ≡ before ++ nil_encoder ∷ es)
        × (length before ≡ length pre)
  unfolding first_record find_encoder encode_field
  encoder_at j [] f fs v s r e h z =
      let find = find_encoder look_up_encoder is_zero f (v f) in
      let (s1, c1, e1) = bind_inv (comma j s) _ r e in
      let (encoder, c2, e2) = bind_inv find _ r e1 in
      let (s2, c3, e3) = bind_inv (encode_field env encoder f (v f) s1) _ r e2 in
      let (q, c4, e4) = bind_inv (first_record env look_up_encoder is_zero true fs v s2) _ r e3 in
      let found : find ≡ ok nil_encoder = rw (h, z) refl in
      let same : nil_encoder ≡ encoder = ok_inj nil_encoder encoder (sym found ∙ c2) in
      (
        [],
        q.1,
        ap (λ p. p.1) (sym (ok_inj (q.0, encoder ∷ q.1) r e4)) ∙ ap (λ x. x ∷ q.1) (sym same),
        refl,
      )
  encoder_at j (g ∷ pre) f fs v s r e h z =
      let (s1, c1, e1) = bind_inv (comma j s) _ r e in
      let (encoder, c2, e2) = bind_inv (find_encoder look_up_encoder is_zero g (v g)) _ r e1 in
      let (s2, c3, e3) = bind_inv (encode_field env encoder g (v g) s1) _ r e2 in
      let (q, c4, e4) =
        bind_inv (first_record env look_up_encoder is_zero true (pre ++ f ∷ fs) v s2) _ r e3 in
      let (before, es, p, n) = encoder_at true pre f fs v s2 q c4 h z in
      (
        encoder ∷ before,
        es,
        ap (λ p. p.1) (sym (ok_inj (q.0, encoder ∷ q.1) r e4)) ∙ ap (λ x. encoder ∷ x) p,
        ap suc n,
      )

-- If the first record has zero in a field, at any place among the fields, and the field is incremented by the
-- database, then the argument for this field is null in each later record too, whatever its value there.
pub later_record-loses :
    (env : Env) (look_up_encoder : Any → Outcome ValueEncoder) (is_zero : Any → Bool)
    (before : List Field) (f : Field) (behind : List Field) (v w : Record) (s : Stmt)
    (r : Stmt × List ValueEncoder) (t u : Stmt)
    → look_up f (codes "auto_increment") ≡ true
    → is_zero (v f) ≡ true
    → first_record env look_up_encoder is_zero false (before ++ f ∷ behind) v s ≡ ok r
    → later_record env false (before ++ f ∷ behind) r.1 w t ≡ ok u
    → get_elem? u.args (length t.args + length before) ≡ some null
later_record-loses env look_up_encoder is_zero before f behind v w s r t u h z e k =
    let (front, es, q, n) =
      encoder_at env look_up_encoder is_zero false before f behind v s r e h z in
    nil_at env false before f behind front es w t u n
      (ap (λ x. later_record env false (before ++ f ∷ behind) x w t) (sym q) ∙ k)
