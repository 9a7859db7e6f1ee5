-- ===== src/Sql/Actions/Update.antt =====
-- The methods of `UpdateActions` (sqlike/actions/update.go).
use sqlike.Common.{ℕ, List, ◌++◌, Bytes, ltb, if◌then◌else◌}
use sqlike.Sql.Primitive.{Any, Anys, and}
use sqlike.Sql.Expr.{build_group}
use sqlike.Sql.Actions.{UpdateActions}

abbrev pub where_all : Anys → UpdateActions → UpdateActions
where_all fields act = record act { conditions = build_group and fields }

abbrev pub set : List (Bytes × Any) → UpdateActions → UpdateActions
set values act = record act { values = act.values ++ values }

abbrev pub order_by : Anys → UpdateActions → UpdateActions
order_by fields act = record act { sorts = fields }

abbrev pub limit : ℕ → UpdateActions → UpdateActions
limit num act = if ltb 0 num then record act { limit = num } else act
