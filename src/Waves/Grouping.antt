-- ===== src/Waves/Grouping.antt =====
-- buildGroupingKey and the grouping of the orders of a run of generateWaves.
pub mod Laws
use awmsom.Base.{
  ℕ, zero, suc, ◌+◌, ◌/◌, ◌≡◌, refl, sym, ◌∙◌, ap, inl, inr, Bool, true, false, Option, none, some,
  List, [], ◌∷◌, ◌++◌, ℤ, pos, ◌==◌, eqb_ℤ, if◌then◌else◌, length, keep, All, arith, Bool-cases,
}
use awmsom.Schema.{
  OutboundOrder, WavePickingStrategy, by_route, by_carrier, by_zone, by_timewindow, by_priority,
}
use awmsom.Waves.Chunks.{chunk_array, join, join-chunk_array}

-- The text of a key, by what it is the text of: a code, where 1 is the text 'UNASSIGNED'; the hour of a
-- date or 'NO_WINDOW'; and a priority.
pub data GroupingKey : Type 0 where
  code : ℕ → GroupingKey
  hour : ℕ → GroupingKey
  no_window : GroupingKey
  level : ℤ → GroupingKey

abbrev pub unassigned : ℕ
unassigned = 1

abbrev pub code_key : Option ℕ → GroupingKey
code_key none = code unassigned
code_key (some c) = code c

-- `toISOString().slice(0, 13)` names the hour.
abbrev pub hour_key : Option ℕ → GroupingKey
hour_key none = no_window
hour_key (some d) = hour (d / 3600000)

abbrev pub level_key : Option ℤ → GroupingKey
level_key none = level (pos 0)
level_key (some p) = level p

abbrev pub build_grouping_key : WavePickingStrategy → OutboundOrder → GroupingKey
build_grouping_key by_route o = code_key o.route_code
build_grouping_key by_carrier o = code_key o.carrier_code
build_grouping_key by_zone o = code_key o.zone_code
build_grouping_key by_timewindow o = hour_key o.requested_ship_date
build_grouping_key by_priority o = level_key o.priority

abbrev pub same_key : GroupingKey → GroupingKey → Bool
same_key (code a) (code b) = a == b
same_key (hour a) (hour b) = a == b
same_key no_window no_window = true
same_key (level a) (level b) = eqb_ℤ a b
same_key _ _ = false

-- `acc[key] = acc[key] || []; acc[key].push(order)`
pub push_order :
    GroupingKey
    → ℕ × OutboundOrder
    → List (GroupingKey × List (ℕ × OutboundOrder))
    → List (GroupingKey × List (ℕ × OutboundOrder))
push_order key o [] = (key, o ∷ []) ∷ []
push_order key o ((k, os) ∷ groups) =
    if same_key k key then (k, os ++ o ∷ []) ∷ groups else (k, os) ∷ push_order key o groups

-- The groups in the order of their first members. `Object.values` may give them in another order, which
-- decides only which wave is created first.
pub group_orders :
    WavePickingStrategy
    → List (ℕ × OutboundOrder)
    → List (GroupingKey × List (ℕ × OutboundOrder))
    → List (GroupingKey × List (ℕ × OutboundOrder))
unfolding push_order
group_orders strategy [] acc = acc
group_orders strategy (o ∷ os) acc =
    group_orders strategy os (push_order (build_grouping_key strategy o.1) o acc)

-- `dto.maxOrdersPerWave ?? groupOrders.length`
abbrev pub wave_size : Option ℕ → List (ℕ × OutboundOrder) → ℕ
wave_size none os = length os
wave_size (some n) os = n

pub cut_groups :
    Option ℕ → List (GroupingKey × List (ℕ × OutboundOrder)) → List (List (ℕ × OutboundOrder))
cut_groups max [] = []
cut_groups max (g ∷ groups) = chunk_array g.1 (wave_size max g.1) ++ cut_groups max groups

-- The orders of each wave.
unfoldable pub plan_waves :
    WavePickingStrategy → Option ℕ → List (ℕ × OutboundOrder) → List (List (ℕ × OutboundOrder))
unfolding group_orders cut_groups
plan_waves strategy max orders = cut_groups max (group_orders strategy orders [])
