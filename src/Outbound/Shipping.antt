-- ===== src/Outbound/Shipping.antt =====
-- createShipment, assignHandlingUnitsToShipment and dispatchShipment.
pub mod Laws
use awmsom.Base.{
  ℕ, Bool, true, false, Option, none, some, List, [], ◌∷◌, map, ◌==◌, ◌&&◌, not, if◌then◌else◌,
  length, any, includes, Action, pure, gets, raise, raise_if, or_raise, transaction, for_each,
  ◌>>=◌, ◌>>◌, not_found, bad_request, warehouse_not_found, shipment_not_found, shipment_closed,
  handling_units_missing, warehouse_mismatch, handling_unit_empty, shipment_not_dispatchable,
  shipment_empty,
}
use awmsom.Prisma.{Prisma, find_by_id}
use awmsom.Schema.{
  Db, MovementHeader, MovementLine, MovementStatus, outbound_shipment, HandlingUnit,
  HandlingUnitLine, Shipment, ShipmentStatus, ShipmentHandlingUnit, is_closed, is_dispatchable,
  after_assignment,
}
use awmsom.Inventory.Tables.{create_movement_header, create_movement_line}
use awmsom.Outbound.Tables.{create_shipment, update_shipment, create_shipment_handling_unit}

-- CreateShipmentDto
pub record ShipmentInput : Type 0 where
  pub warehouse_id : ℕ
  pub carrier_ref : Option ℕ
  pub vehicle_ref : Option ℕ
  pub route_ref : Option ℕ
  pub scheduled_departure : Option ℕ

-- `Array.from(new Set(ids))`
pub distinct : List ℕ → List ℕ → List ℕ
distinct seen [] = []
distinct seen (x ∷ xs) =
    let rest = distinct (x ∷ seen) xs in if includes seen x then rest else x ∷ rest

abbrev pub link_row : ℕ → ℕ → ℕ → ℕ → ShipmentHandlingUnit
link_row tenant shipment_id unit_id order_id = record {
  tenant_id = tenant;
  shipment_id = shipment_id;
  handling_unit_id = unit_id;
  outbound_order_id = order_id;
}

-- `existingKey.has(key)`
abbrev pub is_linked : List (ℕ × ShipmentHandlingUnit) → ℕ → ℕ → Bool
is_linked links unit_id order_id =
    any (λ x. x.1.handling_unit_id == unit_id && x.1.outbound_order_id == order_id) links

abbrev pub dispatch_header : ℕ → ℕ → Shipment → MovementHeader
dispatch_header tenant shipment_id shipment = record {
  tenant_id = tenant;
  movement_type = outbound_shipment;
  warehouse_id = shipment.warehouse_id;
  reference = some shipment_id;
  status = MovementStatus.completed;
  created_by = none;
}

-- The goods leave the warehouse: no source and no destination.
abbrev pub dispatch_movement : ℕ → ℕ → HandlingUnitLine → MovementLine
dispatch_movement tenant header line = record {
  tenant_id = tenant;
  movement_header_id = header;
  product_id = line.product_id;
  batch_id = line.batch_id;
  from_location_id = none;
  to_location_id = none;
  quantity = line.quantity;
  uom = line.uom;
}

module _ (db : Prisma) where
  unfoldable pub plan_shipment : ℕ → ShipmentInput → Action (Db db) ℕ
  plan_shipment tenant dto = do
    or_raise
        (← gets (λ s. find_by_id db dto.warehouse_id (λ r. r.tenant_id == tenant) s.warehouses))
        (not_found warehouse_not_found)
    create_shipment db (record {
      tenant_id = tenant;
      warehouse_id = dto.warehouse_id;
      carrier_ref = dto.carrier_ref;
      vehicle_ref = dto.vehicle_ref;
      route_ref = dto.route_ref;
      status = ShipmentStatus.planned;
      scheduled_departure = dto.scheduled_departure;
      actual_departure = none;
    })

  -- `include: { lines: true }` of a handling unit
  abbrev pub lines_of_unit : ℕ → Db db → List (ℕ × HandlingUnitLine)
  lines_of_unit unit_id s =
      db.find_many (λ i r. r.handling_unit_id == unit_id) (λ a b. false) s.handling_unit_lines

  -- The orders of a handling unit, each once.
  pub orders_of_unit : ℕ → Db db → List ℕ
  unfolding distinct
  orders_of_unit unit_id s =
      distinct [] (map (λ x. x.1.outbound_order_id) (lines_of_unit unit_id s))

  -- `if (!distinctOrders.length) throw`
  abbrev pub require_orders : List ℕ → Action (Db db) (Unit {0})
  require_orders [] = raise (bad_request handling_unit_empty)
  require_orders (o ∷ os) = pure tt

  pub link_order : ℕ → ℕ → List (ℕ × ShipmentHandlingUnit) → ℕ → ℕ → Action (Db db) (Unit {0})
  link_order tenant shipment_id links unit_id order_id =
      if is_linked links unit_id order_id
      then pure tt
      else create_shipment_handling_unit db (link_row tenant shipment_id unit_id order_id)
        >> pure tt

  -- One round of the loop over the handling units, with the orders that were read before.
  pub link_unit : ℕ → ℕ → List (ℕ × ShipmentHandlingUnit) → ℕ × List ℕ → Action (Db db) (Unit {0})
  unfolding link_order for_each
  link_unit tenant shipment_id links (unit_id, orders) = do
    require_orders orders
    for_each orders (link_order tenant shipment_id links unit_id)

  pub assign_body : ℕ → ℕ → Shipment → List (ℕ × List ℕ) → Action (Db db) (Unit {0})
  unfolding link_unit for_each
  assign_body tenant shipment_id shipment units = do
    links ← gets (λ s.
        db.find_many (λ i r. r.shipment_id == shipment_id && r.tenant_id == tenant) (λ a b. false)
          s.shipment_handling_units)
    for_each units (link_unit tenant shipment_id links)
    update_shipment db shipment_id (λ r. r.tenant_id == tenant)
        (λ r. record r { status = after_assignment shipment.status })

  unfoldable pub assign_handling_units : ℕ → ℕ → List ℕ → Action (Db db) (Unit {0})
  unfolding assign_body orders_of_unit
  assign_handling_units tenant shipment_id unit_ids = do
    shipment ←
        or_raise (← gets (λ s. find_by_id db shipment_id (λ r. r.tenant_id == tenant) s.shipments))
          (not_found shipment_not_found)
    raise_if (is_closed shipment.1.status) (bad_request shipment_closed)
    units ← gets (λ s.
        db.find_many (λ i r. includes unit_ids i && r.tenant_id == tenant) (λ a b. false)
          s.handling_units)
    raise_if (not (length units == length unit_ids)) (not_found handling_units_missing)
    raise_if (any (λ x. not (x.1.warehouse_id == shipment.1.warehouse_id)) units)
        (bad_request warehouse_mismatch)
    loaded ← gets (λ s. map (λ x. (x.0, orders_of_unit x.0 s)) units)
    transaction (assign_body tenant shipment_id shipment.1 loaded)

  -- `shipments: { some: { shipmentId, tenantId } }`
  abbrev pub is_on_shipment : ℕ → ℕ → ℕ → Db db → Bool
  is_on_shipment tenant shipment_id unit_id s =
      elim (db.find_first
        (λ i r.
          r.handling_unit_id == unit_id && (r.shipment_id == shipment_id && r.tenant_id == tenant))
        s.shipment_handling_units) [ none ↦ false | some _ ↦ true ]

  pub log_lines : ℕ → ℕ → ℕ × HandlingUnit → Action (Db db) (Unit {0})
  unfolding for_each
  log_lines tenant header (unit_id, unit) = do
    lines ← gets (lines_of_unit unit_id)
    for_each lines
        (λ line. create_movement_line db (dispatch_movement tenant header line.1) >> pure tt)

  pub dispatch_body : ℕ → ℕ → ℕ → Shipment → Option ℕ → Action (Db db) (Unit {0})
  unfolding log_lines for_each
  dispatch_body tenant now shipment_id shipment departure = do
    units ← gets (λ s.
        db.find_many (λ i r. is_on_shipment tenant shipment_id i s && r.tenant_id == tenant)
          (λ a b. false) s.handling_units)
    header ← create_movement_header db (dispatch_header tenant shipment_id shipment)
    for_each units (log_lines tenant header)
    update_shipment db shipment_id (λ r. r.tenant_id == tenant)
        (λ r. record r {
          status = ShipmentStatus.dispatched;
          actual_departure = some (elim departure [ some d ↦ d | none ↦ now ]);
        })

  unfoldable pub dispatch_shipment : ℕ → ℕ → ℕ → Option ℕ → Action (Db db) (Unit {0})
  unfolding dispatch_body
  dispatch_shipment tenant now shipment_id departure = do
    shipment ←
        or_raise (← gets (λ s. find_by_id db shipment_id (λ r. r.tenant_id == tenant) s.shipments))
          (not_found shipment_not_found)
    raise_if (not (is_dispatchable shipment.1.status)) (bad_request shipment_not_dispatchable)
    links ← gets (λ s.
        db.find_many (λ i r. r.shipment_id == shipment_id) (λ a b. false) s.shipment_handling_units)
    raise_if (length links == 0) (bad_request shipment_empty)
    transaction (dispatch_body tenant now shipment_id shipment.1 departure)
