-- ===== src/Sql/Modify/Set.antt =====
-- What `modifyOne` of sqlike/modify.go sets.
use mathlib.Core.List.{Perm, perm_append_singleton}
use mathlib.Core.List.Perm
use sqlike.Common.{
  ◌≡◌, refl, sym, subst, List, [], ◌∷◌, ◌++◌, map, Option, none, some, Bytes, codes, append_assoc,
  append-nil, same, inl, inr, Bool-cases, Bool, true, false, ap, ◌∙◌, if◌then◌else◌,
}
use sqlike.Sql.Outcome.{ok}
use sqlike.Sql.Stmt.{Stmt}
use sqlike.Sql.Primitive.{Any, clause, column, equal, cons, empty}
use sqlike.Sql.Expr.{build_group, gather, enclose, make_clause, wrap_column}
use sqlike.Sql.Zero.{is_zero}
use sqlike.Sql.Actions.{UpdateActions}
use sqlike.Sql.Builder.{Env}
use sqlike.Sql.Actions.Statements.{update_query}
use sqlike.Sql.Insert.{Field, look_up, Record}
use sqlike.Sql.Modify.{
  Pair, pair_of, skip_columns, modify_field, modify_loop, modify_action, modify_found, modify_one,
}

-- The key and the values that are set.
abbrev all_pairs : Option Pair × List Pair → List Pair
all_pairs (none, values) = values
all_pairs (some k, values) = k ∷ values

to_front : (a : Pair) (l : List Pair) → Perm (a ∷ l) (l ++ a ∷ [])
to_front a l = Perm.symm (perm_append_singleton a l)

field-Perm :
    (pk : Bytes) (v : Record) (st : Option Pair × List Pair) (f : Field)
    → Perm (all_pairs (modify_field pk v st f)) (all_pairs st ++ pair_of v f ∷ [])
unfolding modify_field
field-Perm pk v (none, values) f = elim (Bool-cases (look_up f (codes "primary_key"))) [
  | inl e ↦ rw e (to_front (pair_of v f) values)
  | inr e ↦ elim (Bool-cases (same f.name pk)) [
    | inl h ↦ rw (e, h) (to_front (pair_of v f) values)
    | inr h ↦ rw (e, h) (Perm.refl (values ++ pair_of v f ∷ []))
  ]
]
field-Perm pk v (some k, values) f = elim (Bool-cases (look_up f (codes "primary_key"))) [
  | inl e ↦ rw e (
      Perm.trans (Perm.cons (pair_of v f) (perm_append_singleton k values))
        (to_front (pair_of v f) (k ∷ values)))
  | inr e ↦ rw e (Perm.refl (k ∷ (values ++ pair_of v f ∷ [])))
]

loop-Perm :
    (pk : Bytes) (v : Record) (fs : List Field) (st : Option Pair × List Pair)
    → Perm (all_pairs (modify_loop pk v st fs)) (all_pairs st ++ map (pair_of v) fs)
unfolding modify_loop
loop-Perm pk v [] st =
    subst (Perm (all_pairs st)) (sym (append-nil (all_pairs st))) (Perm.refl (all_pairs st))
loop-Perm pk v (f ∷ fs) st = Perm.trans (loop-Perm pk v fs (modify_field pk v st f)) (
    subst (Perm (all_pairs (modify_field pk v st f) ++ map (pair_of v) fs))
      (append_assoc (all_pairs st) (pair_of v f ∷ []) (map (pair_of v) fs))
      (Perm.append (field-Perm pk v st f) (Perm.refl (map (pair_of v) fs))))

abbrev is_tagged : Field → Bool
is_tagged f = look_up f (codes "primary_key")

abbrev or_else : Option Field → Option Field → Option Field
or_else none g = g
or_else (some f) g = some f

abbrev when : Bool → Field → Option Field
when b f = if b then some f else none

-- The last field with the tag of a primary key.
abbrev pub last_tagged : List Field → Option Field
last_tagged [] = none
last_tagged (f ∷ fs) = or_else (last_tagged fs) (when (is_tagged f) f)

-- The first field of this name.
abbrev pub first_named : Bytes → List Field → Option Field
first_named pk [] = none
first_named pk (f ∷ fs) = or_else (when (same f.name pk) f) (first_named pk fs)

-- The primary key among the fields: the last that is tagged, or else the first that has its name.
abbrev pub key_field : Bytes → List Field → Option Field
key_field pk fs = or_else (last_tagged fs) (first_named pk fs)

abbrev pair_or : Record → Option Field → Option Pair → Option Pair
pair_or v none k = k
pair_or v (some f) k = some (pair_of v f)

pair_or-else :
    (v : Record) (o g : Option Field) (k : Option Pair)
    → pair_or v o (pair_or v g k) ≡ pair_or v (or_else o g) k
pair_or-else v none g k = refl
pair_or-else v (some f) g k = refl

-- A round with a key replaces it by a field with the tag only.
found_round :
    (pk : Bytes) (v : Record) (f : Field) (k : Pair) (values : List Pair)
    → (j : Pair) × (rest : List Pair) × (modify_field pk v (some k, values) f ≡ (some j, rest))
      × (some j ≡ pair_or v (when (is_tagged f) f) (some k))
unfolding modify_field
found_round pk v f k values = elim (Bool-cases (look_up f (codes "primary_key"))) [
  | inl e ↦ (pair_of v f, values ++ k ∷ [], rw e refl, rw e refl)
  | inr e ↦ (k, values ++ pair_of v f ∷ [], rw e refl, rw e refl)
]

loop_found :
    (pk : Bytes) (v : Record) (fs : List Field) (k : Pair) (values : List Pair)
    → (modify_loop pk v (some k, values) fs).0 ≡ pair_or v (last_tagged fs) (some k)
unfolding modify_loop
loop_found pk v [] k values = refl
loop_found pk v (f ∷ fs) k values =
    let (j, rest, e, h) = found_round pk v f k values in
    ap (λ st. (modify_loop pk v st fs).0) e
    ∙ loop_found pk v fs j rest
    ∙ ap (pair_or v (last_tagged fs)) h
    ∙ pair_or-else v (last_tagged fs) (when (is_tagged f) f) (some k)

loop-key_field :
    (pk : Bytes) (v : Record) (fs : List Field) (values : List Pair)
    → (modify_loop pk v (none, values) fs).0 ≡ pair_or v (key_field pk fs) none
unfolding modify_loop modify_field
loop-key_field pk v [] values = refl
loop-key_field pk v (f ∷ fs) values = elim (Bool-cases (look_up f (codes "primary_key"))) [
  | inl e ↦
      ap (λ st. (modify_loop pk v st fs).0) (first_round e)
      ∙ loop_found pk v fs (pair_of v f) values
      ∙ pair_or-else v (last_tagged fs) (some f) none
      ∙ ap (λ b. pair_or v b none) (some_first (last_tagged fs) (first_named pk (f ∷ fs)))
      ∙ ap
          (λ b.
            pair_or v (or_else (or_else (last_tagged fs) (when b f)) (first_named pk (f ∷ fs)))
              none)
          (sym e)
  | inr e ↦ elim (Bool-cases (same f.name pk)) [
    | inl h ↦
        ap (λ st. (modify_loop pk v st fs).0) (named_round e h)
        ∙ loop_found pk v fs (pair_of v f) values
        ∙ pair_or-else v (last_tagged fs) (some f) none
        ∙ ap (λ o. pair_or v (or_else o (some f)) none) (without_last (last_tagged fs))
        ∙ ap (λ b. pair_or v (or_else (or_else (last_tagged fs) (when b f)) (some f)) none) (sym e)
        ∙ ap
            (λ b.
              pair_or v
                (or_else (or_else (last_tagged fs) (when (is_tagged f) f))
                  (or_else (when b f) (first_named pk fs)))
                none)
            (sym h)
    | inr h ↦
        ap (λ st. (modify_loop pk v st fs).0) (other_round e h)
        ∙ loop-key_field pk v fs (values ++ pair_of v f ∷ [])
        ∙ ap (λ o. pair_or v (or_else o (first_named pk fs)) none) (without_last (last_tagged fs))
        ∙ ap
            (λ b.
              pair_or v (or_else (or_else (last_tagged fs) (when b f)) (first_named pk fs)) none)
            (sym e)
        ∙ ap
            (λ b.
              pair_or v
                (or_else (or_else (last_tagged fs) (when (is_tagged f) f))
                  (or_else (when b f) (first_named pk fs)))
                none)
            (sym h)
  ]
]
  where
    some_first : (o g : Option Field) → or_else o (some f) ≡ or_else (or_else o (some f)) g
    some_first none g = refl
    some_first (some h) g = refl

    without_last : (o : Option Field) → o ≡ or_else o none
    without_last none = refl
    without_last (some h) = refl

    first_round :
        look_up f (codes "primary_key") ≡ true
        → modify_field pk v (none, values) f ≡ (some (pair_of v f), values)
    first_round e = rw e refl

    named_round :
        look_up f (codes "primary_key") ≡ false
        → same f.name pk ≡ true
        → modify_field pk v (none, values) f ≡ (some (pair_of v f), values)
    named_round e h = rw (e, h) refl

    other_round :
        look_up f (codes "primary_key") ≡ false
        → same f.name pk ≡ false
        → modify_field pk v (none, values) f ≡ (none, values ++ pair_of v f ∷ [])
    other_round e h = rw (e, h) refl

-- The update of the one row whose column has the value of the record's field.
abbrev row_update : Bytes → Bytes → Field → Any → List Pair → UpdateActions
row_update db_name tb_name f key values = record {
  database = db_name;
  table = tb_name;
  conditions = cons (clause (column [] f.name) equal key) empty;
  values = values;
  sorts = empty;
  limit = 1;
}

modify_action-row :
    (db_name tb_name : Bytes) (f : Field) (v : Record) (values : List Pair)
    → modify_action db_name tb_name (pair_of v f) values ≡ row_update db_name tb_name f (v f) values
unfolding modify_action build_group gather enclose is_zero make_clause wrap_column
modify_action-row db_name tb_name f v values = refl

pair_inj : (a b : Pair) → some a ≡ some b → a ≡ b
pair_inj a b h = ap (elim_or b) h
  where
    elim_or : Pair → Option Pair → Pair
    elim_or d none = d
    elim_or d (some x) = x

found_inv :
    (env : Env) (db_name tb_name : Bytes) (v : Record) (key : Option Field)
    (st : Option Pair × List Pair) (s t : Stmt)
    → st.0 ≡ pair_or v key none
    → modify_found env db_name tb_name st s ≡ ok t
    → (f : Field) × (key ≡ some f)
      × (all_pairs st ≡ pair_of v f ∷ st.1)
      × (update_query env (row_update db_name tb_name f (v f) st.1) s ≡ ok t)
unfolding modify_found
found_inv env db_name tb_name v key (none, values) s t h e = cc
found_inv env db_name tb_name v none (some k, values) s t h e = cc
found_inv env db_name tb_name v (some f) (some k, values) s t h e =
    let p : k ≡ pair_of v f = pair_inj k (pair_of v f) h in
    (
      f,
      refl,
      ap (λ x. x ∷ values) p,
      ap (λ a. update_query env a s)
            (sym (modify_action-row db_name tb_name f v values)
              ∙ ap (λ x. modify_action db_name tb_name x values) (sym p))
          ∙ e,
    )

-- If `modifyOne` writes a query, then the columns that are not skipped have a primary key, which is the last field
-- with the tag, or else the first of that name; the query is the update of one row that has the record's value in the
-- column of the key, and the key and the columns that are set are together the columns that are not skipped, each
-- once, with the values of the record.
pub modify_one-Perm :
    (env : Env) (db_name tb_name pk : Bytes) (omits : List Bytes) (fields : List Field) (v : Record)
    (s t : Stmt)
    → modify_one env db_name tb_name pk omits fields v s ≡ ok t
    → (f : Field) × (values : List Pair) × (key_field pk (skip_columns omits fields) ≡ some f)
      × Perm (pair_of v f ∷ values) (map (pair_of v) (skip_columns omits fields))
      × (update_query env
            (record {
              database = db_name;
              table = tb_name;
              conditions = cons (clause (column [] f.name) equal (v f)) empty;
              values = values;
              sorts = empty;
              limit = 1;
            })
            s
          ≡ ok t)
unfolding modify_one
modify_one-Perm env db_name tb_name pk omits fields v s t e =
    let kept = skip_columns omits fields in
    let st = modify_loop pk v (none, []) kept in
    let (f, h, p, u) =
      found_inv env db_name tb_name v (key_field pk kept) st s t (loop-key_field pk v kept []) e in
    (f, st.1, h, subst (λ l. Perm l (map (pair_of v) kept)) p (loop-Perm pk v kept (none, [])), u)
