-- ===== src/Witnesses/Waves.antt =====
-- Runs of the wave planning, on lists and on the tables in memory.
use awmsom.Base.{
  ℕ, ◌-◌, ◌≡◌, refl, Bool, true, Option, none, some, List, [], ◌∷◌, pos, ◌+ℤ◌, leb, if◌then◌else◌,
  All, get_elem?,
}
use awmsom.Prisma.{memory}
use awmsom.Prisma.Memory.Laws.{memory-IsClient}
use awmsom.Schema.{Db, OutboundOrder, OutboundOrderStatus, by_carrier}
use awmsom.Waves.Chunks.{join, chunk_array}
use awmsom.Waves.Grouping.{plan_waves}
use awmsom.Waves.Grouping.Laws.{count, IsAlike, IsSized, plan_waves_lem}
use awmsom.Waves.Generate.{GenerateInput, generate_waves}
use awmsom.Waves.Generate.Laws.{Planned, generate_waves-Planned}
use awmsom.Waves.Route.{nearest_neighbor}
use awmsom.Waves.Route.Laws.{IsGreedy, nearest_neighbor_lem}
use awmsom.Witnesses.{tables, draft}

abbrev released_by : Option ℕ → OutboundOrder
released_by carrier = record draft { carrier_code = carrier; status = OutboundOrderStatus.released }

-- Three orders go with carrier 5, and one has none.
abbrev orders : List (ℕ × OutboundOrder)
orders =
    (0, released_by (some 5))
    ∷ (1, released_by none)
    ∷ (2, released_by (some 5))
    ∷ (3, released_by (some 5))
    ∷ []

plan_waves_test :
    plan_waves by_carrier (some 2) orders
    ≡ ((0, released_by (some 5)) ∷ (2, released_by (some 5)) ∷ [])
      ∷ ((3, released_by (some 5)) ∷ [])
      ∷ ((1, released_by none) ∷ [])
      ∷ []
unfolding plan_waves chunk_array
plan_waves_test = refl

plan_waves_example :
    ((p : ℕ × OutboundOrder → Bool)
      → count p (join (plan_waves by_carrier (some 2) orders)) ≡ count p orders)
    × All (IsAlike by_carrier) (plan_waves by_carrier (some 2) orders)
    × All (IsSized (some 2)) (plan_waves by_carrier (some 2) orders)
plan_waves_example = plan_waves_lem by_carrier (some 2) orders

wave_tables : Db memory
unfolding memory tables
wave_tables = record tables {
  orders = released_by (some 5) ∷ released_by none ∷ [];
  order_lines = [];
}

abbrev by_carriers : GenerateInput
by_carriers = record {
  warehouse_id = 0;
  strategy = by_carrier;
  time_window_from = none;
  time_window_to = none;
  max_orders_per_wave = some 2;
  carrier_code = none;
  route_code = none;
  zone_code = none;
  priority_min = none;
}

generate_waves_test :
    memory.sum
      (λ i w. pos w.outbound_order_id)
      (generate_waves memory true 1 by_carriers wave_tables).1.wave_orders
    ≡ pos 1
unfolding generate_waves plan_waves chunk_array memory wave_tables tables ◌+ℤ◌
generate_waves_test = refl

generate_waves-Planned_example :
    Planned memory memory-IsClient 1 by_carriers wave_tables
      (generate_waves memory true 1 by_carriers wave_tables)
generate_waves-Planned_example =
    generate_waves-Planned memory memory-IsClient 1 true by_carriers wave_tables

-- The distance on a line.
abbrev apart : ℕ → ℕ → ℕ
apart a b = if leb a b then b - a else a - b

nearest_neighbor_test : nearest_neighbor apart (0 ∷ 9 ∷ 2 ∷ 5 ∷ []) ≡ 0 ∷ 2 ∷ 5 ∷ 9 ∷ []
unfolding nearest_neighbor
nearest_neighbor_test = refl

nearest_neighbor_example :
    ((p : ℕ → Bool)
      → count p (nearest_neighbor apart (0 ∷ 9 ∷ 2 ∷ 5 ∷ [])) ≡ count p (0 ∷ 9 ∷ 2 ∷ 5 ∷ []))
    × (get_elem? (nearest_neighbor apart (0 ∷ 9 ∷ 2 ∷ 5 ∷ [])) 0 ≡ some 0)
    × IsGreedy apart (nearest_neighbor apart (0 ∷ 9 ∷ 2 ∷ 5 ∷ []))
nearest_neighbor_example = nearest_neighbor_lem apart 0 (9 ∷ 2 ∷ 5 ∷ [])
