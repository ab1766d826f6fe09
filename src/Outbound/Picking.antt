-- ===== src/Outbound/Picking.antt =====
-- createPickingTask, startPickingTask and confirmPickingTask.
pub mod Laws
pub mod Confirm
pub mod Start
use awmsom.Base.{
  ℕ, Bool, false, Option, none, some, List, ℤ, pos, ◌+ℤ◌, ◌-ℤ◌, ltb_ℤ, leb_ℤ, eqb_ℤ, ◌==◌, ◌&&◌,
  not, if◌then◌else◌, every, any, find, Action, pure, gets, raise_if, or_raise, transaction,
  for_each, ◌>>=◌, ◌>>◌, not_found, bad_request, order_not_found, order_not_allocated,
  picking_task_not_found, cannot_start_picking, picking_not_in_progress, picking_line_not_found,
  pick_over_reserved, no_reserved_stock, short_reserved_stock,
}
use awmsom.Prisma.{Prisma, find_by_id}
use awmsom.Schema.{
  Db, Inventory, MovementHeader, MovementLine, MovementStatus, outbound_shipment, OutboundOrder,
  OutboundOrderLine, OutboundOrderStatus, PickingTask, PickingTaskLine, PickingTaskStatus, reserved,
  same_status, is_allocated, is_startable, is_picking,
}
use awmsom.Inventory.Tables.{
  has_key, update_inventory, create_movement_header, create_movement_line,
}
use awmsom.Outbound.Tables.{
  create_picking_task, update_picking_task, create_picking_task_line, update_picking_task_line,
  update_outbound_order, update_outbound_order_line, lines_of_order, stands_in,
}

-- ConfirmPickingLineDto
pub record PickResult : Type 0 where
  pub picking_task_line_id : ℕ
  pub quantity_picked : ℤ

-- A task line takes the whole of a reserved row.
abbrev pub picking_line : ℕ → ℕ → ℕ → Inventory → PickingTaskLine
picking_line tenant task_id order_line_id r = record {
  tenant_id = tenant;
  picking_task_id = task_id;
  outbound_order_line_id = order_line_id;
  product_id = r.product_id;
  batch_id = r.batch_id;
  from_location_id = r.location_id;
  quantity_to_pick = r.quantity;
  quantity_picked = pos 0;
  uom = r.uom;
}

abbrev pub pick_header : ℕ → PickingTask → MovementHeader
pick_header tenant task = record {
  tenant_id = tenant;
  movement_type = outbound_shipment;
  warehouse_id = task.warehouse_id;
  reference = task.outbound_order_id;
  status = MovementStatus.completed;
  created_by = none;
}

abbrev pub pick_movement : ℕ → ℕ → PickingTaskLine → ℤ → MovementLine
pick_movement tenant header line quantity = record {
  tenant_id = tenant;
  movement_header_id = header;
  product_id = line.product_id;
  batch_id = line.batch_id;
  from_location_id = some line.from_location_id;
  to_location_id = none;
  quantity = quantity;
  uom = line.uom;
}

-- The task after a confirmation: completed once every line is picked in full.
abbrev pub confirmed_task : ℕ → Bool → PickingTask → PickingTask → PickingTask
confirmed_task now all_picked before task =
    if all_picked
    then record task { status = PickingTaskStatus.completed; completed_at = some now }
    else record task { status = before.status }

-- The order's status from what was picked.
pub picked_status : Bool → Bool → OutboundOrderStatus → OutboundOrderStatus
picked_status all_picked any_picked before =
    if all_picked
    then OutboundOrderStatus.picked
    else if any_picked
    then OutboundOrderStatus.partially_picked
    else before

module _ (db : Prisma) where
  -- One reserved row of the inner loop.
  pub task_line_for : ℕ → ℕ → ℕ → ℕ × Inventory → Action (Db db) (Unit {0})
  task_line_for tenant task_id order_line_id (i, r) =
      if leb_ℤ r.quantity (pos 0)
      then pure tt
      else create_picking_task_line db (picking_line tenant task_id order_line_id r) >> pure tt

  -- The reserved stock of a product in the warehouse.
  pub reservations : ℕ → ℕ → ℕ → Db db → List (ℕ × Inventory)
  reservations tenant warehouse product s =
      db.find_many
        (λ i r.
          r.product_id == product
          && (r.tenant_id == tenant
              && (same_status r.stock_status reserved
                  && stands_in db tenant warehouse r.location_id s)))
        (λ a b. false) s.inventory

  pub task_lines_for : ℕ → ℕ → ℕ → ℕ × OutboundOrderLine → Action (Db db) (Unit {0})
  unfolding task_line_for reservations for_each
  task_lines_for tenant task_id warehouse (i, line) = do
    rows ← gets (reservations tenant warehouse line.product_id)
    for_each rows (task_line_for tenant task_id i)

  unfoldable pub create_task : ℕ → ℕ → Option ℕ → Action (Db db) ℕ
  unfolding task_lines_for for_each
  create_task tenant order_id picker = do
    order ←
        or_raise (← gets (λ s. find_by_id db order_id (λ r. r.tenant_id == tenant) s.orders))
          (not_found order_not_found)
    lines ← gets (lines_of_order db order_id)
    raise_if (not (is_allocated order.1.status)) (bad_request order_not_allocated)
    transaction do
      task_id ← create_picking_task db (record {
        tenant_id = tenant;
        warehouse_id = order.1.warehouse_id;
        outbound_order_id = some order_id;
        status = elim picker [
          | some _ ↦ PickingTaskStatus.assigned
          | none ↦ PickingTaskStatus.created
        ];
        picker_id = picker;
        started_at = none;
        completed_at = none;
      })
      for_each lines (task_lines_for tenant task_id order.1.warehouse_id)
      update_outbound_order db order_id (λ o. o.tenant_id == tenant)
          (λ o. record o { status = OutboundOrderStatus.picking })
      or_raise (← gets (λ s. find_by_id db task_id (λ r. r.tenant_id == tenant) s.picking_tasks))
          (not_found picking_task_not_found)
      pure task_id

  unfoldable pub start_picking_task : ℕ → ℕ → ℕ → Action (Db db) (Unit {0})
  start_picking_task tenant now task_id = do
    task ←
        or_raise (← gets (λ s. find_by_id db task_id (λ r. r.tenant_id == tenant) s.picking_tasks))
          (not_found picking_task_not_found)
    raise_if (not (is_startable task.1.status)) (bad_request cannot_start_picking)
    update_picking_task db task_id (λ r. r.tenant_id == tenant)
        (λ r. record r { status = PickingTaskStatus.in_progress; started_at = some now })

  abbrev pub lines_of_task : ℕ → Db db → List (ℕ × PickingTaskLine)
  lines_of_task task_id s =
      db.find_many (λ i r. r.picking_task_id == task_id) (λ a b. false) s.picking_task_lines

  -- The writes of one confirmed line.
  pub take_reserved : ℕ → ℕ → ℕ × PickingTaskLine → ℤ → ℕ × Inventory → Action (Db db) (Unit {0})
  take_reserved tenant header (i, line) quantity (j, r) = do
    update_inventory db j (λ x. x.tenant_id == tenant)
        (λ x. record x { quantity = r.quantity -ℤ quantity })
    update_picking_task_line db i (λ x. x.tenant_id == tenant)
        (λ x. record x { quantity_picked = line.quantity_picked +ℤ quantity })
    update_outbound_order_line db line.outbound_order_line_id (λ x. x.tenant_id == tenant)
        (λ x. record x { picked_qty = line.quantity_picked +ℤ quantity })
    create_movement_line db (pick_movement tenant header line quantity)
    pure tt

  -- One round of the loop over the request; the task lines are those read before the transaction.
  pub confirm_line : ℕ → ℕ → List (ℕ × PickingTaskLine) → PickResult → Action (Db db) (Unit {0})
  unfolding take_reserved
  confirm_line tenant header lines dto = do
    line ←
        or_raise (find (λ x. x.0 == dto.picking_task_line_id) lines)
          (not_found picking_line_not_found)
    raise_if (ltb_ℤ (line.1.quantity_to_pick -ℤ line.1.quantity_picked) dto.quantity_picked)
        (bad_request pick_over_reserved)
    reservation ←
        or_raise
          (← gets (λ s.
            db.find_first
              (λ i r.
                has_key tenant line.1.product_id line.1.batch_id line.1.from_location_id line.1.uom
                  reserved r)
              s.inventory))
          (bad_request no_reserved_stock)
    raise_if (ltb_ℤ reservation.1.quantity dto.quantity_picked) (bad_request short_reserved_stock)
    take_reserved tenant header line dto.quantity_picked reservation

  -- The statuses of the task and of its order.
  pub conclude_picking : ℕ → ℕ → ℕ → PickingTask → ℕ → OutboundOrder → Action (Db db) (Unit {0})
  unfolding picked_status
  conclude_picking tenant now task_id task order_id order = do
    updated_lines ← gets (λ s.
        db.find_many (λ i r. r.picking_task_id == task_id && r.tenant_id == tenant) (λ a b. false)
          s.picking_task_lines)
    update_picking_task db task_id (λ r. r.tenant_id == tenant)
        (confirmed_task now
          (every (λ x. eqb_ℤ x.1.quantity_picked x.1.quantity_to_pick) updated_lines) task)
    order_lines ← gets (λ s.
        db.find_many (λ i r. r.outbound_order_id == order_id && r.tenant_id == tenant)
          (λ a b. false) s.order_lines)
    update_outbound_order db order_id (λ r. r.tenant_id == tenant)
        (λ r. record r {
          status =
              picked_status (every (λ x. eqb_ℤ x.1.picked_qty x.1.requested_qty) order_lines)
                (any (λ x. ltb_ℤ (pos 0) x.1.picked_qty) order_lines) order.status;
        })

  pub confirm_body :
      ℕ
      → ℕ
      → ℕ
      → PickingTask
      → List (ℕ × PickingTaskLine)
      → ℕ
      → OutboundOrder
      → List PickResult
      → Action (Db db) (Unit {0})
  unfolding confirm_line conclude_picking for_each
  confirm_body tenant now task_id task lines order_id order results = do
    header ← create_movement_header db (pick_header tenant task)
    for_each results (confirm_line tenant header lines)
    conclude_picking tenant now task_id task order_id order

  -- The order of a task, if it has one: `include: { outboundOrder }`.
  abbrev pub order_of_task : PickingTask → Db db → Option (ℕ × OutboundOrder)
  order_of_task task s = elim task.outbound_order_id [
    | none ↦ none
    | some o ↦ elim (db.get s.orders o) [ none ↦ none | some order ↦ some (o, order) ]
  ]

  unfoldable pub confirm_picking_task : ℕ → ℕ → ℕ → List PickResult → Action (Db db) (Unit {0})
  unfolding confirm_body
  confirm_picking_task tenant now task_id results = do
    task ←
        or_raise (← gets (λ s. find_by_id db task_id (λ r. r.tenant_id == tenant) s.picking_tasks))
          (not_found picking_task_not_found)
    lines ← gets (lines_of_task task_id)
    order ← or_raise (← gets (order_of_task task.1)) (bad_request order_not_found)
    raise_if (not (is_picking task.1.status)) (bad_request picking_not_in_progress)
    transaction (confirm_body tenant now task_id task.1 lines order.0 order.1 results)
