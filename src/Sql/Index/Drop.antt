-- ===== src/Sql/Index/Drop.antt =====
-- What `DropIndexes` of sql/dialect/mysql/index.go writes.
use sqlike.Common.{
  ℕ, suc, ◌≡◌, refl, sym, ap, Bool, true, false, List, [], ◌∷◌, ◌++◌, Bytes, codes, same, ltb,
  if◌then◌else◌, append_assoc, inl, inr, Bool-cases, arith,
}
use sqlike.Sql.Outcome.{ok}
use sqlike.Sql.Stmt.{Stmt, quote, table_name}
use sqlike.Sql.Index.{drop_loop, drop_indexes}

-- The names without that of the primary key.
unfoldable pub droppable : List Bytes → List Bytes
droppable [] = []
droppable (w ∷ ws) = let rest = droppable ws in if same w (codes "PRIMARY") then rest else w ∷ rest

abbrev pub drop_one : Bytes → Bytes
drop_one w = codes "DROP INDEX " ++ quote w

-- The drops with a comma in front of each.
abbrev pub after_commas : List Bytes → Bytes
after_commas [] = []
after_commas (w ∷ ws) = codes "," ++ (drop_one w ++ after_commas ws)

-- The drops with a comma between two of them.
abbrev pub between_commas : List Bytes → Bytes
between_commas [] = []
between_commas (w ∷ ws) = drop_one w ++ after_commas ws

abbrev pub starts_primary : List Bytes → Bool
starts_primary [] = false
starts_primary (w ∷ ws) = same w (codes "PRIMARY")

rest-after_commas : (i : ℕ) (ws : List Bytes) → drop_loop (suc i) ws ≡ after_commas (droppable ws)
unfolding drop_loop droppable
rest-after_commas i [] = refl
rest-after_commas i (w ∷ ws) = elim (Bool-cases (same w (codes "PRIMARY"))) [
  | inl e ↦ rw e (rest-after_commas (suc i) ws)
  | inr e ↦
      let later : ltb 0 (suc i) ≡ true = ground arith in
      rw (e, later, rest-after_commas (suc i) ws)
        (ap (λ o. codes "," ++ o)
          (sym (append_assoc (codes "DROP INDEX ") (quote w) (after_commas (droppable ws)))))
]

loop-commas :
    (ws : List Bytes)
    → drop_loop 0 ws
      ≡ (if starts_primary ws then after_commas (droppable ws) else between_commas (droppable ws))
unfolding drop_loop droppable
loop-commas [] = refl
loop-commas (w ∷ ws) = elim (Bool-cases (same w (codes "PRIMARY"))) [
  | inl e ↦ rw e (rest-after_commas 0 ws)
  | inr e ↦
      rw (e, rest-after_commas 0 ws)
        (sym (append_assoc (codes "DROP INDEX ") (quote w) (after_commas (droppable ws))))
]

-- `DropIndexes` never fails. It drops each index but the primary key, once and in order, with a comma between two of
-- them, except if the primary key is first: then a comma stands in front of each, so that the first drop has one too.
pub drop_indexes-commas :
    (db table : Bytes) (ws : List Bytes) (s : Stmt)
    → drop_indexes db table ws s
      ≡ ok (record s {
        text =
            ((s.text ++ (codes "ALTER TABLE " ++ (table_name db table ++ codes " ")))
              ++ (if starts_primary ws
                  then after_commas (droppable ws)
                  else between_commas (droppable ws)))
            ++ codes ";";
      })
unfolding drop_indexes
drop_indexes-commas db table ws s = rw (loop-commas ws) refl
