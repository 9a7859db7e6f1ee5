-- ===== src/Sql/Actions/Find.antt =====
-- The methods of `FindActions` (sqlike/actions/find.go).
use sqlike.Common.{ℕ, true, List, [], ◌∷◌, Bytes, ltb, if◌then◌else◌}
use sqlike.Sql.Outcome.{Outcome, ok, panic}
use sqlike.Sql.Primitive.{Anys, and}
use sqlike.Sql.Expr.{build_group}
use sqlike.Sql.Actions.{FindActions}

abbrev pub select : Anys → FindActions → FindActions
select fields act = record act { projections = fields }

abbrev pub distinct : FindActions → FindActions
distinct act = record act { distinct_on = true }

-- `From`, with `strings.TrimSpace`; with three values it reads `values[3]`, which is out of range.
abbrev pub from : (Bytes → Bytes) → List Bytes → FindActions → Outcome FindActions
from trim [] act = panic
from trim (t ∷ []) act = ok (record act { table = trim t })
from trim (d ∷ t ∷ []) act = ok (record act { database = trim d; table = trim t })
from trim (d ∷ t ∷ h ∷ vs) act = panic

-- `FindOneActions.From`: what follows the second value is ignored.
abbrev from_one : (Bytes → Bytes) → List Bytes → FindActions → Outcome FindActions
from_one trim [] act = panic
from_one trim (t ∷ []) act = ok (record act { table = trim t })
from_one trim (d ∷ t ∷ vs) act = ok (record act { database = trim d; table = trim t })

abbrev pub where_all : Anys → FindActions → FindActions
where_all fields act = record act { conditions = build_group and fields }

abbrev pub having : Anys → FindActions → FindActions
having fields act = record act { havings = build_group and fields }

abbrev pub order_by : Anys → FindActions → FindActions
order_by fields act = record act { sorts = fields }

abbrev group_by : Anys → FindActions → FindActions
group_by fields act = record act { group_bys = fields }

abbrev pub limit : ℕ → FindActions → FindActions
limit num act = if ltb 0 num then record act { count = num } else act

abbrev pub offset : ℕ → FindActions → FindActions
offset num act = if ltb 0 num then record act { skip = num } else act
