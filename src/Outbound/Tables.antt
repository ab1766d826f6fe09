-- ===== src/Outbound/Tables.antt =====
-- The writes to one table that the handlers of OutboundService make, as actions, and the lookups
-- that several of them share.
use awmsom.Base.{
  ℕ, Bool, false, none, some, List, ◌==◌, ◌&&◌, Action, ok, gets, modify, or_raise, ◌>>=◌,
  record_not_found,
}
use awmsom.Prisma.{Prisma, updated}
use awmsom.Schema.{
  Db, OutboundOrder, OutboundOrderLine, PickingTask, PickingTaskLine, HandlingUnit,
  HandlingUnitLine, Shipment, ShipmentHandlingUnit,
}

module _ (db : Prisma) where
  abbrev pub create_outbound_order : OutboundOrder → Action (Db db) ℕ
  create_outbound_order r s = let (i, t) = db.create r s.orders in (ok i, record s { orders = t })

  abbrev pub update_outbound_order :
      ℕ → (OutboundOrder → Bool) → (OutboundOrder → OutboundOrder) → Action (Db db) (Unit {0})
  update_outbound_order i p f = do
    t ← or_raise (← gets (λ s. updated db i p f s.orders)) record_not_found
    modify (λ s. record s { orders = t })

  abbrev pub create_outbound_order_line : OutboundOrderLine → Action (Db db) ℕ
  create_outbound_order_line r s =
      let (i, t) = db.create r s.order_lines in (ok i, record s { order_lines = t })

  abbrev pub update_outbound_order_line :
      ℕ
      → (OutboundOrderLine → Bool)
      → (OutboundOrderLine → OutboundOrderLine)
      → Action (Db db) (Unit {0})
  update_outbound_order_line i p f = do
    t ← or_raise (← gets (λ s. updated db i p f s.order_lines)) record_not_found
    modify (λ s. record s { order_lines = t })

  abbrev pub create_picking_task : PickingTask → Action (Db db) ℕ
  create_picking_task r s =
      let (i, t) = db.create r s.picking_tasks in (ok i, record s { picking_tasks = t })

  abbrev pub update_picking_task :
      ℕ → (PickingTask → Bool) → (PickingTask → PickingTask) → Action (Db db) (Unit {0})
  update_picking_task i p f = do
    t ← or_raise (← gets (λ s. updated db i p f s.picking_tasks)) record_not_found
    modify (λ s. record s { picking_tasks = t })

  abbrev pub create_picking_task_line : PickingTaskLine → Action (Db db) ℕ
  create_picking_task_line r s =
      let (i, t) = db.create r s.picking_task_lines in (ok i, record s { picking_task_lines = t })

  abbrev pub update_picking_task_line :
      ℕ → (PickingTaskLine → Bool) → (PickingTaskLine → PickingTaskLine) → Action (Db db) (Unit {0})
  update_picking_task_line i p f = do
    t ← or_raise (← gets (λ s. updated db i p f s.picking_task_lines)) record_not_found
    modify (λ s. record s { picking_task_lines = t })

  abbrev pub create_handling_unit : HandlingUnit → Action (Db db) ℕ
  create_handling_unit r s =
      let (i, t) = db.create r s.handling_units in (ok i, record s { handling_units = t })

  abbrev pub create_handling_unit_line : HandlingUnitLine → Action (Db db) ℕ
  create_handling_unit_line r s =
      let (i, t) = db.create r s.handling_unit_lines in (ok i, record s { handling_unit_lines = t })

  abbrev pub create_shipment : Shipment → Action (Db db) ℕ
  create_shipment r s = let (i, t) = db.create r s.shipments in (ok i, record s { shipments = t })

  abbrev pub update_shipment :
      ℕ → (Shipment → Bool) → (Shipment → Shipment) → Action (Db db) (Unit {0})
  update_shipment i p f = do
    t ← or_raise (← gets (λ s. updated db i p f s.shipments)) record_not_found
    modify (λ s. record s { shipments = t })

  abbrev pub create_shipment_handling_unit : ShipmentHandlingUnit → Action (Db db) ℕ
  create_shipment_handling_unit r s =
      let (i, t) = db.create r s.shipment_handling_units in
      (ok i, record s { shipment_handling_units = t })

  -- `include: { lines: true }` of an order
  abbrev pub lines_of_order : ℕ → Db db → List (ℕ × OutboundOrderLine)
  lines_of_order order_id s =
      db.find_many (λ i r. r.outbound_order_id == order_id) (λ a b. false) s.order_lines

  -- `location: { warehouseId, tenantId }`
  abbrev pub stands_in : ℕ → ℕ → ℕ → Db db → Bool
  stands_in tenant warehouse location s = elim (db.get s.locations location) [
    | none ↦ false
    | some l ↦ l.warehouse_id == warehouse && l.tenant_id == tenant
  ]
