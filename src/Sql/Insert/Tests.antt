-- ===== src/Sql/Insert/Tests.antt =====
-- Runs of `InsertInto`.
use sqlike.Common.{
  ℕ, ◌*◌, ◌≡◌, refl, List, [], ◌∷◌, some, Bytes, codes, length, get_elem?, same, if◌then◌else◌,
}
use sqlike.Sql.Outcome.{Outcome, ok, err}
use sqlike.Sql.Primitive.{Any, scalar, pos, int, text}
use sqlike.Sql.Stmt.{Arg, null, plain, Stmt, new_stmt}
use sqlike.Sql.Zero.{is_zero}
use sqlike.Sql.Builder.{Env, bind_arg}
use sqlike.Sql.Builder.Dispatch.{convert_spatial}
use sqlike.Sql.Builder.Balance.{holes, Prints}
use sqlike.Sql.Names.{index_of}
use sqlike.Sql.Insert.{
  Field, InsertOptions, insert_on_duplicate, is_dropped, kept, columns, omit_field, is_skipped,
  updates, ValueEncoder, nil_encoder, Record, find_encoder, first_record, later_record,
  later_records, records, insert_into,
}
use sqlike.Sql.Insert.Filled.{insert_into-filled}
use sqlike.Sql.Insert.Encoders.{later_record-loses}

abbrev env : Env
env = record {
  encode = λ x. err "no encoder";
  go_quote = λ w. w;
  format_int = λ i. [];
  format_uint = λ n. [];
  format_float = λ n. [];
}

env-Prints : Prints env
unfolding holes
env-Prints = record { quotes = λ w h. h; ints = λ n. refl; uints = λ n. refl; floats = λ n. refl }

abbrev from_any : Any → Outcome Arg
from_any (scalar c) = ok (plain c)
from_any x = err "no encoder"

abbrev look_up_encoder : Any → Outcome ValueEncoder
look_up_encoder x = ok (λ f v. from_any v)

abbrev id_field : Field
id_field = record { name = codes "id"; tags = codes "auto_increment" ∷ [] }

abbrev name_field : Field
name_field = record { name = codes "n"; tags = [] }

abbrev full_field : Field
full_field = record { name = codes "full"; tags = codes "generated_column" ∷ [] }

abbrev person : ℕ → Bytes → Record
person i n f = if same f.name (codes "id") then scalar (int (pos i)) else scalar (text n)

abbrev all_fields : List Field
all_fields = id_field ∷ name_field ∷ full_field ∷ []

abbrev options : InsertOptions
options = record { mode = insert_on_duplicate; omits = [] }

abbrev inserted : Stmt
inserted = record {
  text =
      codes
        "INSERT INTO `d`.`t` (`id`,`n`,) VALUES (?,?),(?,?) ON DUPLICATE KEY UPDATE `n`=VALUES(`n`);";
  args = null ∷ plain (text (codes "a")) ∷ null ∷ plain (text (codes "b")) ∷ [];
  c = 4;
}

run :
    insert_into env look_up_encoder is_zero
      (codes "d")
      (codes "t")
      (codes "id")
      all_fields
      (person 0 (codes "a") ∷ person 5 (codes "b") ∷ [])
      options
      new_stmt
    ≡ ok inserted
unfolding insert_into kept columns records omit_field is_dropped index_of first_record later_records
    later_record updates is_skipped find_encoder convert_spatial bind_arg same is_zero
run = refl

insert_into-filled_example :
    (holes inserted.text ≡ 2 * length (kept options all_fields))
    × (length inserted.args ≡ 2 * length (kept options all_fields))
unfolding holes
insert_into-filled_example =
    insert_into-filled env look_up_encoder is_zero (codes "d") (codes "t") (codes "id") all_fields
      (person 0 (codes "a") ∷ person 5 (codes "b") ∷ []) options inserted env-Prints refl refl
      (refl, (refl, (refl, tt))) run

-- The second of two fields.
abbrev first_of_two : Stmt
first_of_two = record { text = codes "?,?"; args = plain (text (codes "a")) ∷ null ∷ []; c = 2 }

abbrev later : Stmt
later = record { text = codes "?,?"; args = plain (text (codes "b")) ∷ null ∷ []; c = 2 }

abbrev plain_encoder : ValueEncoder
plain_encoder f v = from_any v

later_record-loses_example : get_elem? later.args 1 ≡ some null
unfolding index_of same is_zero first_record later_record find_encoder convert_spatial bind_arg
later_record-loses_example =
    later_record-loses env look_up_encoder is_zero (name_field ∷ []) id_field []
      (person 0 (codes "a")) (person 5 (codes "b")) new_stmt
      (first_of_two, plain_encoder ∷ nil_encoder ∷ []) new_stmt later refl refl refl refl
