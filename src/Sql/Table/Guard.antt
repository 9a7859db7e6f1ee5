-- ===== src/Sql/Table/Guard.antt =====
-- The guard of `deleteMany` in sqlike/delete.go.
use sqlike.Common.{
  ◌≡◌, refl, sym, ap, ◌∙◌, Bool, true, false, Bytes, if◌then◌else◌, inl, inr, Bool-cases,
}
use sqlike.Sql.Outcome.{err}
use sqlike.Sql.Primitive.{and, Any, Anys, group, operator, empty, cons, append}
use sqlike.Sql.Stmt.{Stmt}
use sqlike.Sql.Builder.{Env}
use sqlike.Sql.Zero.{is_zero}
use sqlike.Sql.Expr.{gather, enclose, build_group}
use sqlike.Sql.Expr.Join.{group-cases, build_lone}
use sqlike.Sql.Actions.{DeleteActions}
use sqlike.Sql.Actions.Delete as Delete
use sqlike.Sql.Actions.Statements.{delete_query}
use sqlike.Sql.Table.{is_empty, or_default, delete_many, empty_condition}

-- All values are zero.
unfoldable pub all_zero : Anys → Bool
all_zero empty = true
all_zero (cons x xs) = let rest = all_zero xs in if is_zero x then rest else false

gather_full : (xs : Anys) (x : Any) (sg : Anys) → is_empty (gather and xs (cons x sg)) ≡ false
unfolding gather is_zero
gather_full empty x sg = refl
gather_full (cons y ys) x sg = elim (Bool-cases (is_zero y)) [
  | inl e ↦ rw e (gather_full ys x sg)
  | inr e ↦ rw e (gather_full ys x (append sg (cons (operator and) (cons y empty))))
]

gather-all_zero : (xs : Anys) → is_empty (gather and xs empty) ≡ all_zero xs
unfolding gather is_zero all_zero
gather-all_zero empty = refl
gather-all_zero (cons y ys) = elim (Bool-cases (is_zero y)) [
  | inl e ↦ rw e (gather-all_zero ys)
  | inr e ↦ rw e (gather_full ys y empty)
]

enclose-is_empty : (xs : Anys) → is_empty (enclose xs) ≡ is_empty xs
unfolding enclose
enclose-is_empty empty = refl
enclose-is_empty (cons x empty) = refl
enclose-is_empty (cons x (cons y xs)) = refl

lone_group : (ys : Anys) → is_empty ys ≡ all_zero (cons (group ys) empty)
unfolding all_zero is_zero
lone_group empty = refl
lone_group (cons y ys) = refl

-- The conditions that `And` makes are none exactly if all of its values are zero.
build_group-all_zero : (xs : Anys) → is_empty (build_group and xs) ≡ all_zero xs
build_group-all_zero xs = elim (group-cases and xs) [
  | inl (ys, e) ↦
      ap (λ zs. is_empty (build_group and zs)) e
      ∙ ap is_empty (build_lone and ys)
      ∙ lone_group ys
      ∙ ap all_zero (sym e)
  | inr e ↦ ap is_empty e ∙ enclose-is_empty (gather and xs empty) ∙ gather-all_zero xs
]

-- `Where` and then `Delete`: if all conditions are zero, the call ends with an error and nothing is written;
-- otherwise the query is that of `MySQL.Delete`, with the names of the table where the action has none.
delete_many-where_all :
    (env : Env) (db_name tb_name : Bytes) (fields : Anys) (act : DeleteActions) (s : Stmt)
    → delete_many env db_name tb_name (Delete.where_all fields act) s ≡ (
        if all_zero fields
        then err empty_condition
        else delete_query env
            (record act {
              database = or_default db_name act.database;
              table = or_default tb_name act.table;
              conditions = build_group and fields;
            })
            s)
unfolding delete_many
delete_many-where_all env db_name tb_name fields act s =
    rw (build_group-all_zero fields)
      (elim (Bool-cases (all_zero fields)) [ inl e ↦ rw e refl | inr e ↦ rw e refl ])
