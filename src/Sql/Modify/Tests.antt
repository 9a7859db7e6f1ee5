-- ===== src/Sql/Modify/Tests.antt =====
-- A run of `modifyOne`, and the theorem on it.
use mathlib.Core.List.{Perm}
use sqlike.Common.{◌≡◌, refl, List, [], ◌∷◌, map, some, codes, same, if◌then◌else◌}
use sqlike.Sql.Outcome.{Outcome, ok, err}
use sqlike.Sql.Primitive.{Any, scalar, pos, int, text, clause, column, equal, cons, empty}
use sqlike.Sql.Stmt.{Arg, plain, Stmt, new_stmt}
use sqlike.Sql.Zero.{is_zero}
use sqlike.Sql.Names.{index_of}
use sqlike.Sql.Builder.{Env, separated, in_turn}
use sqlike.Sql.Builder.Pieces.{build_operator, build_clause, build_column, build_key_value}
use sqlike.Sql.Builder.Dispatch.{
  build, build_scalar, build_encoded, append_where, append_by, append_limit_and_offset,
}
use sqlike.Sql.Expr.{build_group, gather, enclose, make_clause, wrap_column}
use sqlike.Sql.Actions.Statements.{build_update_actions, append_set, update_query}
use sqlike.Sql.Insert.{Field, Record}
use sqlike.Sql.Modify.{
  Pair, pair_of, skip_columns, modify_field, modify_loop, modify_action, modify_one,
}
use sqlike.Sql.Modify.Set.{key_field, modify_one-Perm}

abbrev encode_scalar : Any → Outcome Arg
encode_scalar (scalar c) = ok (plain c)
encode_scalar _ = err "no encoder"

abbrev env : Env
env = record {
  encode = encode_scalar;
  go_quote = λ w. w;
  format_int = λ i. [];
  format_uint = λ n. codes "1";
  format_float = λ n. [];
}

abbrev columns : List Field
columns =
    record { name = codes "n"; tags = [] }
    ∷ record { name = codes "id"; tags = codes "primary_key" ∷ [] }
    ∷ record { name = codes "full"; tags = codes "generated_column" ∷ [] }
    ∷ record { name = codes "at"; tags = [] }
    ∷ []

abbrev person : Record
person f = if same f.name (codes "id") then scalar (int (pos 7)) else scalar (text (codes "x"))

abbrev result_of : Outcome Stmt → Stmt
result_of (ok s) = s
result_of _ = new_stmt

abbrev modified : Stmt
modified =
    result_of
      (modify_one env (codes "d") (codes "t") (codes "n") (codes "at" ∷ []) columns person new_stmt)

modified_text : modified.text ≡ codes "UPDATE `d`.`t` SET `n` = ? WHERE `id` = ? LIMIT 1;"
unfolding modify_one modify_loop modify_field modify_action skip_columns index_of same build_group
    gather enclose is_zero make_clause wrap_column update_query build_update_actions append_set
    build build_clause build_column append_where append_by append_limit_and_offset separated
    build_key_value build_scalar build_encoded in_turn build_operator
modified_text = refl

modify_one-Perm_example :
    (f : Field) × (values : List Pair) × (key_field
        (codes "n")
        (skip_columns (codes "at" ∷ []) columns)
      ≡ some f)
    × Perm
        (pair_of person f ∷ values)
        (map (pair_of person) (skip_columns (codes "at" ∷ []) columns))
    × (update_query env
          (record {
            database = codes "d";
            table = codes "t";
            conditions = cons (clause (column [] f.name) equal (person f)) empty;
            values = values;
            sorts = empty;
            limit = 1;
          })
          new_stmt
        ≡ ok modified)
unfolding modify_one modify_loop modify_field modify_action skip_columns index_of same build_group
    gather enclose is_zero make_clause wrap_column update_query build_update_actions append_set
    build build_clause build_column append_where append_by append_limit_and_offset separated
    build_key_value build_scalar build_encoded in_turn build_operator
modify_one-Perm_example =
    modify_one-Perm env (codes "d") (codes "t") (codes "n") (codes "at" ∷ []) columns person
      new_stmt modified refl
