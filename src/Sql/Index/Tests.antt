-- ===== src/Sql/Index/Tests.antt =====
-- Runs of the statements on indexes.
use sqlike.Common.{
  ◌≡◌, refl, true, false, List, [], ◌∷◌, ◌++◌, Bytes, codes, same, if◌then◌else◌, length,
}
use sqlike.Sql.Outcome.{Outcome, ok, err}
use sqlike.Sql.Stmt.{Stmt, new_stmt, table_name}
use sqlike.Sql.Builder.{Env}
use sqlike.Sql.Index.{
  full_text, multi_valued, Index, create_indexes, drop_loop, drop_indexes, has_index,
}
use sqlike.Sql.Index.Drop.{
  droppable, after_commas, between_commas, starts_primary, drop_indexes-commas,
}

abbrev env : Env
env = record {
  encode = λ x. err "no encoder";
  go_quote = λ w. b'"' ∷ (w ++ b'"' ∷ []);
  format_int = λ i. [];
  format_uint = λ n. [];
  format_float = λ n. [];
}

abbrev result_of : Outcome Stmt → Stmt
result_of (ok s) = s
result_of _ = new_stmt

abbrev names : List Bytes
names = codes "PRIMARY" ∷ codes "a" ∷ codes "b" ∷ []

drop_indexes-commas_example :
    drop_indexes (codes "d") (codes "t") names new_stmt
    ≡ ok (record new_stmt {
      text =
          (([] ++ (codes "ALTER TABLE " ++ (table_name (codes "d") (codes "t") ++ codes " ")))
            ++ (if starts_primary names
                then after_commas (droppable names)
                else between_commas (droppable names)))
          ++ codes ";";
    })
drop_indexes-commas_example = drop_indexes-commas (codes "d") (codes "t") names new_stmt

-- The first drop has a comma in front.
primary_first :
    (result_of (drop_indexes (codes "d") (codes "t") names new_stmt)).text
    ≡ codes "ALTER TABLE `d`.`t` ,DROP INDEX `a`,DROP INDEX `b`;"
unfolding drop_indexes drop_loop same
primary_first = refl

abbrev by_name : Index
by_name = record {
  name = [];
  cast = [];
  cast_type = [];
  kind = full_text;
  columns =
      record { name = codes "x"; is_descending = true }
      ∷ record { name = codes "y"; is_descending = false }
      ∷ [];
  comment = codes "c";
}

abbrev by_path : Index
by_path = record {
  name = codes "m";
  cast = codes "j";
  cast_type = codes "UNSIGNED ARRAY";
  kind = multi_valued;
  columns = [];
  comment = [];
}

-- The hash is left as the name that it is taken of.
created :
    (result_of (
      create_indexes env
        (λ w. w)
        (λ w. false)
        (codes "d")
        (codes "t")
        (by_name ∷ by_path ∷ [])
        true
        new_stmt)).text
    ≡ codes
        "ALTER TABLE `d`.`t` ADD FULLTEXT INDEX `FTX-x@DESC;y@ASC` (`x` DESC,`y`) COMMENT \"c\","
      ++ codes " ADD INDEX m( (CAST(`j` -> '$' AS UNSIGNED ARRAY)) );"
unfolding same
created = refl

asked : length (result_of (has_index (codes "d") (codes "t") by_name new_stmt)).args ≡ 7
asked = refl
