-- ===== src/Sql/Actions/Delete.antt =====
-- The methods of `DeleteActions` (sqlike/actions/delete.go).
use sqlike.Common.{ℕ, ltb, if◌then◌else◌}
use sqlike.Sql.Primitive.{Anys, and}
use sqlike.Sql.Expr.{build_group}
use sqlike.Sql.Actions.{DeleteActions}

abbrev pub where_all : Anys → DeleteActions → DeleteActions
where_all fields act = record act { conditions = build_group and fields }

abbrev pub order_by : Anys → DeleteActions → DeleteActions
order_by fields act = record act { sorts = fields }

abbrev pub limit : ℕ → DeleteActions → DeleteActions
limit num act = if ltb 0 num then record act { limit = num } else act
