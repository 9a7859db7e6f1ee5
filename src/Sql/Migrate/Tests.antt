-- ===== src/Sql/Migrate/Tests.antt =====
-- Runs of the migration.
use sqlike.Common.{
  ◌≡◌, refl, true, false, [], ◌∷◌, none, some, Bytes, codes, same, ℕ, ◌+◌, if◌then◌else◌, leb, ◌&&◌,
  map,
}
use sqlike.Sql.Outcome.{ok}
use sqlike.Sql.Names.{index_of}
use sqlike.Sql.Migrate.{
  Column, Child, child, no_children, Field, Entry, build_schema_by_column, generated_entries,
  all_sizes, size,
}
use sqlike.Sql.Migrate.Table.{
  place_all, drops, alter_pieces, print, place, add, first, character_set, comma, print_piece,
  entries, alter_table, altered_key, create_table, created_columns, created_key,
}
use sqlike.Sql.Migrate.Refines.{run, has, table, execute, alter_columns, insert_at}
use sqlike.Sql.Migrate.Refines.Placed.{add_index, add_keyed}
use sqlike.Sql.Migrate.Refines.Folded.{fold_piece, alter_pieces-run_folded}

abbrev text_column : Bytes → Column
text_column n = record {
  name = n;
  type_name = codes "INT";
  nullable = false;
  default_value = some (codes "0");
  charset = none;
  collation = none;
  extra = [];
}

abbrev id_field : Field
id_field = record {
  name = codes "id";
  tag = (codes "primary_key", []) ∷ [];
  column = ok (text_column (codes "id"));
  is_struct = false;
  children = [];
}

abbrev stored : Child
stored =
    child (codes "doc.a") ((codes "stored_column", codes "a") ∷ [])
      (ok (text_column (codes "doc.a"))) no_children

abbrev doc_field : Field
doc_field = record {
  name = codes "doc";
  tag = [];
  column = ok (text_column (codes "doc"));
  is_struct = true;
  children = stored ∷ [];
}

abbrev plain_index : Bytes → Bytes
plain_index w = w

created :
    create_table plain_index plain_index
      (codes "d")
      (codes "t")
      []
      []
      []
      (id_field ∷ doc_field ∷ [])
    ≡ ok (
        codes
          "CREATE TABLE `d`.`t` (`id` INT NOT NULL DEFAULT '0',`doc` INT NOT NULL DEFAULT '0',`a` INT AS (`doc`->>'$.a') STORED NOT NULL,PRIMARY KEY (`id`)) ENGINE=INNODB CHARACTER SET utf8mb4 COLLATE utf8mb4_unicode_ci;")
unfolding create_table created_columns created_key entries generated_entries all_sizes size
    build_schema_by_column same
created = refl

altered :
    alter_table plain_index plain_index
      (codes "d")
      (codes "t")
      []
      true
      (id_field ∷ doc_field ∷ [])
      (codes "old" ∷ codes "id" ∷ [])
      []
      true
    ≡ ok (
        codes
          "ALTER TABLE `d`.`t` MODIFY `id` INT NOT NULL DEFAULT '0' FIRST,ADD `doc` INT NOT NULL DEFAULT '0' AFTER `id`,ADD `a` INT AS (`doc`->>'$.a') STORED NOT NULL AFTER `doc`,DROP COLUMN `old`,CHARACTER SET utf8mb4 COLLATE utf8mb4_unicode_ci;")
unfolding alter_table alter_pieces place_all drops print print_piece altered_key entries
    generated_entries all_sizes size build_schema_by_column same index_of
altered = refl

abbrev id_entry : Entry
id_entry = record { name = codes "id"; definition = codes "`id` INT"; index = none }

abbrev lower_byte : ℕ → ℕ
lower_byte b = if leb 65 b && leb b 90 then b + 32 else b

abbrev lower : Bytes → Bytes
lower n = map lower_byte n

abbrev doc_entry : Entry
doc_entry = record { name = codes "Doc"; definition = codes "`Doc` JSON"; index = some (codes "X") }

alter_pieces-run_folded_example :
    run true
      (map (fold_piece lower) (
        alter_pieces
          (id_entry ∷ doc_entry ∷ [])
          (some (codes "id"))
          (codes "Old" ∷ codes "id" ∷ [])
          []
          true))
      (table (codes "old" ∷ codes "id" ∷ []) [] false [])
    ≡ some (
        table (codes "id" ∷ codes "doc" ∷ []) (codes "x" ∷ []) true (codes "id" ∷ codes "doc" ∷ []))
unfolding has same add_index add_keyed
alter_pieces-run_folded_example =
    alter_pieces-run_folded lower id_entry (doc_entry ∷ []) (some (codes "id"))
      (codes "Old" ∷ codes "id" ∷ []) [] false true ((refl, (refl, tt)), ((refl, (refl, tt)), tt))
      (tt, (tt, tt)) (refl, (refl, tt)) (refl, (refl, tt)) (refl, tt) (refl, refl)

-- `AlterTable` compares names byte by byte: it adds a column that the server has in capitals.
other_case :
    run true
      (map (fold_piece lower) (alter_pieces (id_entry ∷ []) none (codes "ID" ∷ []) [] false))
      (table (codes "id" ∷ []) [] false [])
    ≡ none
unfolding run execute alter_columns insert_at has same alter_pieces place_all index_of
other_case = refl

-- Without its comma a statement is a syntax error, and so is one more comma.
no_comma :
    (run true (place add (codes "a") [] first ∷ character_set ∷ []) (table [] [] false []) ≡ none)
    × (run true (character_set ∷ comma ∷ []) (table [] [] false []) ≡ none)
unfolding run execute alter_columns insert_at has
no_comma = (refl, refl)
