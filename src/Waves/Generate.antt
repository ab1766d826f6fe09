-- ===== src/Waves/Generate.antt =====
-- generateWaves: the waves of a planning run, with their orders and totals.
pub mod Placement
pub mod Laws
use awmsom.Base.{
  ℕ, zero, suc, ◌+◌, ◌%◌, Bool, true, false, Option, none, some, List, [], ◌∷◌, map, ℤ, pos, ◌+ℤ◌,
  leb, leb_ℤ, pos_part, neg_part, ◌==◌, ◌&&◌, ◌||◌, not, same_id, length, Action, ok, pure, gets,
  modify, raise_if, or_raise, transaction, for_each, ◌>>=◌, ◌>>◌, record_not_found, invalid_data,
}
use awmsom.Prisma.{Prisma, updated}
use awmsom.Schema.{
  Db, OutboundOrder, OutboundOrderLine, Wave, WaveOrder, WavePickingStrategy, WaveStatus, by_route,
  by_carrier, by_zone, by_timewindow, by_priority, is_waveable,
}
use awmsom.Inbound.Tables.{is_blank, or_else}
use awmsom.Outbound.Tables.{lines_of_order}
use awmsom.Waves.Grouping.{plan_waves}

-- GenerateWavesDto
pub record GenerateInput : Type 0 where
  pub warehouse_id : ℕ
  pub strategy : WavePickingStrategy
  pub time_window_from : Option ℕ
  pub time_window_to : Option ℕ
  pub max_orders_per_wave : Option ℕ
  pub carrier_code : Option ℕ
  pub route_code : Option ℕ
  pub zone_code : Option ℕ
  pub priority_min : Option ℤ

-- `gte` and `lte` on a nullable date, if a bound is given.
abbrev pub not_before : Option ℕ → Option ℕ → Bool
not_before none date = true
not_before (some a) none = false
not_before (some a) (some d) = leb a d

abbrev pub not_after : Option ℕ → Option ℕ → Bool
not_after none date = true
not_after (some b) none = false
not_after (some b) (some d) = leb d b

-- `if (dto.carrierCode) where.carrierCode = dto.carrierCode`
abbrev pub has_code : Option ℕ → Option ℕ → Bool
has_code asked code = is_blank asked || same_id code asked

abbrev pub has_priority : Option ℤ → Option ℤ → Bool
has_priority none p = true
has_priority (some m) none = false
has_priority (some m) (some p) = leb_ℤ m p

-- `where` of the orders.
abbrev pub is_selected : ℕ → GenerateInput → OutboundOrder → Bool
is_selected tenant dto o =
    o.tenant_id == tenant
    && (o.warehouse_id == dto.warehouse_id
        && (is_waveable o.status
            && (not_before dto.time_window_from o.requested_ship_date
                && (not_after dto.time_window_to o.requested_ship_date
                    && (has_code dto.carrier_code o.carrier_code
                        && (has_code dto.route_code o.route_code
                            && (has_code dto.zone_code o.zone_code
                                && has_priority dto.priority_min o.priority)))))))

abbrev pub route_of : GenerateInput → WavePickingStrategy → OutboundOrder → Option ℕ
route_of dto by_route sample = sample.route_code
route_of dto _ sample = dto.route_code

abbrev pub carrier_of : GenerateInput → WavePickingStrategy → OutboundOrder → Option ℕ
carrier_of dto by_carrier sample = sample.carrier_code
carrier_of dto _ sample = dto.carrier_code

abbrev pub zone_of : GenerateInput → WavePickingStrategy → OutboundOrder → Option ℕ
zone_of dto by_zone sample = sample.zone_code
zone_of dto _ sample = dto.zone_code

abbrev pub wave_row : ℕ → GenerateInput → OutboundOrder → Wave
wave_row tenant dto sample = record {
  tenant_id = tenant;
  warehouse_id = dto.warehouse_id;
  strategy = dto.strategy;
  status = WaveStatus.created;
  route_code = route_of dto dto.strategy sample;
  carrier_code = carrier_of dto dto.strategy sample;
  zone_code = zone_of dto dto.strategy sample;
  time_window_from = or_else dto.time_window_from sample.requested_ship_date;
  time_window_to = dto.time_window_to;
  total_orders = 0;
  total_lines = 0;
  total_units = pos 0;
  picker_user_id = none;
  released_at = none;
  started_at = none;
  completed_at = none;
  cancelled_at = none;
}

abbrev pub wave_order : ℕ → ℕ → ℕ → WaveOrder
wave_order tenant wave order = record {
  tenant_id = tenant;
  wave_id = wave;
  outbound_order_id = order;
}

abbrev pub units_of : List (ℕ × OutboundOrderLine) → ℤ
units_of [] = pos 0
units_of (x ∷ xs) = x.1.requested_qty +ℤ units_of xs

-- A number of units that is not whole: `totalUnits` is an `Int` column.
abbrev pub is_fraction : ℤ → Bool
is_fraction q = not ((pos_part q + neg_part q) % 10000 == 0)

module _ (db : Prisma) where
  abbrev pub create_wave : Wave → Action (Db db) ℕ
  create_wave r s = let (i, t) = db.create r s.waves in (ok i, record s { waves = t })

  abbrev pub create_wave_order : WaveOrder → Action (Db db) ℕ
  create_wave_order r s =
      let (i, t) = db.create r s.wave_orders in (ok i, record s { wave_orders = t })

  abbrev pub update_wave : ℕ → (Wave → Bool) → (Wave → Wave) → Action (Db db) (Unit {0})
  update_wave i p f = do
    t ← or_raise (← gets (λ s. updated db i p f s.waves)) record_not_found
    modify (λ s. record s { waves = t })

  -- The lines and the units of the orders of a wave.
  abbrev pub count_lines_of : List (ℕ × OutboundOrder) → Db db → ℕ
  count_lines_of [] s = 0
  count_lines_of (o ∷ os) s = length (lines_of_order db o.0 s) + count_lines_of os s

  abbrev pub count_units_of : List (ℕ × OutboundOrder) → Db db → ℤ
  count_units_of [] s = pos 0
  count_units_of (o ∷ os) s = units_of (lines_of_order db o.0 s) +ℤ count_units_of os s

  abbrev pub selected_orders : ℕ → GenerateInput → Db db → List (ℕ × OutboundOrder)
  selected_orders tenant dto s =
      db.find_many (λ i o. is_selected tenant dto o) (λ a b. false) s.orders

module _ (db : Prisma) (strict : Bool) where
  -- One round of the inner loop; an empty batch is passed over. A client that is `strict` refuses a
  -- fraction for `totalUnits`.
  pub make_wave : ℕ → GenerateInput → List (ℕ × OutboundOrder) → Action (Db db) (Unit {0})
  unfolding for_each
  make_wave tenant dto [] = pure tt
  make_wave tenant dto (o ∷ os) = do
    wave ← create_wave db (wave_row tenant dto o.1)
    for_each (o ∷ os) (λ x. create_wave_order db (wave_order tenant wave x.0) >> pure tt)
    lines ← gets (count_lines_of db (o ∷ os))
    units ← gets (count_units_of db (o ∷ os))
    raise_if (strict && is_fraction units) invalid_data
    update_wave db wave (λ w. true)
        (λ w. record w { total_orders = length (o ∷ os); total_lines = lines; total_units = units })

  unfoldable pub generate_waves : ℕ → GenerateInput → Action (Db db) (Unit {0})
  unfolding make_wave for_each
  generate_waves tenant dto = do
    orders ← gets (selected_orders db tenant dto)
    transaction
        (for_each (plan_waves dto.strategy dto.max_orders_per_wave orders) (make_wave tenant dto))
