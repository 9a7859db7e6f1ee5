-- ===== src/Sql/Tests.antt =====
-- Queries built on concrete inputs, and the theorems on them at concrete inputs.
use sqlike.Common.{◌+◌, [], ◌∷◌, ◌++◌, ◌≡◌, refl, Bytes, codes, length}
use sqlike.Sql.Outcome.{Outcome, ok, err}
use sqlike.Sql.Primitive.{
  pos, int, text, equal, between, descending, Any, scalar, column, clause, range, sort, empty, cons,
}
use sqlike.Sql.Stmt.{Arg, plain, Stmt, new_stmt}
use sqlike.Sql.Builder.{Env, separated, in_turn}
use sqlike.Sql.Builder.Pieces.{
  build_operator, build_clause, build_column, build_sort, build_key_value,
}
use sqlike.Sql.Builder.Dispatch.{
  statement, build, build_range, build_scalar, build_encoded, append_select, append_where,
  append_by, append_limit_and_offset,
}
use sqlike.Sql.Builder.Balance.{holes, Prints, Plain-append, NoMarks}
use sqlike.Sql.Builder.Balance.Build.{build-Balanced}
use sqlike.Sql.Actions.Find
use sqlike.Sql.Zero.{is_zero}
use sqlike.Sql.Expr.{build_group, gather, enclose}
use sqlike.Sql.Actions.{FindActions, UpdateActions, new_find}
use sqlike.Sql.Actions.Statements.{
  lock_suffix, lock_for_read, build_find_actions, build_update_actions, append_set, select_query,
  update_query,
}
use sqlike.Sql.Actions.Balanced.{FindNoMarks, select_query-holes, update_query-holes}

-- Encoders and printers for the tests: scalars are their own arguments, and numbers are printed as `0`.
abbrev encode_scalar : Any → Outcome Arg
encode_scalar (scalar c) = ok (plain c)
encode_scalar _ = err "no encoder"

abbrev test_env : Env
test_env = record {
  encode = encode_scalar;
  go_quote = λ w. b'"' ∷ (w ++ b'"' ∷ []);
  format_int = λ n. codes "0";
  format_uint = λ n. codes "0";
  format_float = λ n. codes "0";
}

test_env-Prints : Prints test_env
unfolding holes
test_env-Prints = record {
  quotes =
      λ w h. Plain-append (codes "\"") (w ++ b'"' ∷ []) refl (Plain-append w (b'"' ∷ []) h refl);
  ints = λ n. refl;
  uints = λ n. refl;
  floats = λ n. refl;
}

abbrev result_of : Outcome Stmt → Stmt
result_of (ok s) = s
result_of _ = new_stmt

abbrev is_one : Any
is_one = clause (column [] (codes "a")) equal (scalar (int (pos 1)))

abbrev in_range : Any
in_range =
    clause (column [] (codes "b")) between
      (range (scalar (int (pos 1))) (scalar (text (codes "z"))))

abbrev range_stmt : Stmt
range_stmt = result_of (build test_env statement in_range new_stmt)

build-Balanced_example :
    holes range_stmt.text + length new_stmt.args ≡ holes new_stmt.text + length range_stmt.args
unfolding build NoMarks holes build_clause build_column build_range
build-Balanced_example =
    build-Balanced test_env test_env-Prints statement in_range new_stmt range_stmt
      ((refl, refl), tt) refl

abbrev same_text : Bytes → Bytes
same_text w = w

abbrev find_query : FindActions
find_query = record new_find {
  table = codes "t";
  conditions = cons is_one (cons in_range empty);
  sorts = cons (sort (column [] (codes "a")) descending) empty;
  count = 5;
}

abbrev find_stmt : Stmt
find_stmt = result_of (select_query test_env same_text lock_for_read find_query new_stmt)

find_query-FindNoMarks : FindNoMarks same_text find_query
unfolding holes NoMarks
find_query-FindNoMarks = record {
  names = (refl, refl);
  outputs = tt;
  conditions = (((refl, refl), tt), (((refl, refl), tt), tt));
  groups = tt;
  sorts = ((refl, refl), tt);
}

select_query-holes_example : holes find_stmt.text ≡ length find_stmt.args
unfolding select_query build_find_actions build build_clause build_column build_range append_select
    append_where append_by append_limit_and_offset in_turn build_scalar build_encoded separated
    build_sort
select_query-holes_example =
    select_query-holes test_env test_env-Prints same_text lock_for_read find_query find_stmt
      find_query-FindNoMarks refl

abbrev update_values : UpdateActions
update_values = record {
  database = codes "d";
  table = codes "t";
  conditions = cons in_range empty;
  values = (codes "x", scalar (int (pos 3))) ∷ (codes "y", scalar (text (codes "z"))) ∷ [];
  sorts = empty;
  limit = 1;
}

abbrev update_stmt : Stmt
update_stmt = result_of (update_query test_env update_values new_stmt)

update_query-holes_example : holes update_stmt.text ≡ length update_stmt.args
unfolding update_query build_update_actions append_set build build_clause build_column build_range
    append_where append_by append_limit_and_offset holes NoMarks separated build_key_value
    build_scalar build_encoded in_turn
update_query-holes_example =
    update_query-holes test_env test_env-Prints update_values update_stmt refl refl
      ((refl, tt), ((refl, refl), tt)) (((refl, refl), tt), tt) tt refl

-- The text of a query whose conditions are joined by `And`.
abbrev joined_find : FindActions
joined_find = Find.limit 5 (
    Find.where_all (cons is_one (cons in_range empty))
      (record new_find { database = codes "d"; table = codes "t" }))

joined_find_text :
    (result_of (select_query test_env same_text lock_for_read joined_find new_stmt)).text
    ≡ codes
        "SELECT * FROM `d`.`t` WHERE (`a` = ? AND `b` BETWEEN ? AND ?) LIMIT 0 LOCK IN SHARE MODE;"
unfolding select_query build_find_actions build build_clause build_column build_range append_select
    append_where append_by append_limit_and_offset in_turn build_scalar build_encoded separated
    build_group gather enclose is_zero build_operator lock_suffix
joined_find_text = refl
