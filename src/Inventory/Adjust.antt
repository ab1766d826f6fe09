-- ===== src/Inventory/Adjust.antt =====
-- applyInventoryAdjustment: set the quantity of one stock position, and record the movement and the
-- adjustment that explain the change.
pub mod Steps
pub mod Laws
use awmsom.Base.{
  ℕ, Bool, true, false, Option, none, some, ℤ, pos, ◌-ℤ◌, ltb_ℤ, eqb_ℤ, abs_ℤ, ◌==◌, not,
  if◌then◌else◌, Action, pure, raise, gets, raise_if, or_raise, ◌>>=◌, ◌>>◌, not_found, bad_request,
  product_not_found, batch_not_found, location_not_found, location_not_in_warehouse, negative_stock,
}
use awmsom.Prisma.{Prisma, find_by_id}
use awmsom.Schema.{
  Db, Inventory, MovementHeader, InventoryAdjustment, StockStatus, AdjustmentType, gain, loss,
  correction, adjustment, MovementStatus,
}
use awmsom.Inventory.Tables.{
  has_key, update_inventory, create_inventory, create_movement_header, create_movement_line,
  create_adjustment, require_batch,
}
use awmsom.Inventory.CountStatus.{determine_count_stock_status}

pub record AdjustmentParams : Type 0 where
  pub warehouse_id : ℕ
  pub product_id : ℕ
  pub batch_id : Option ℕ
  pub location_id : ℕ
  pub new_qty : ℤ
  pub uom : Option ℕ
  pub stock_status : Option StockStatus
  pub reason : ℕ
  pub reference : Option ℕ
  pub created_by : Option ℕ

-- The quantity before: zero where there is no row.
abbrev pub previous_qty : Option (ℕ × Inventory) → ℤ
previous_qty none = pos 0
previous_qty (some (i, r)) = r.quantity

pub adjustment_type : ℤ → AdjustmentType
adjustment_type difference =
    if ltb_ℤ (pos 0) difference then gain else if ltb_ℤ difference (pos 0) then loss else correction

-- The row that is created where there is none.
abbrev pub new_row : ℕ → ℕ → AdjustmentParams → ℕ → StockStatus → Inventory
new_row tenant now p uom status = record {
  tenant_id = tenant;
  product_id = p.product_id;
  batch_id = p.batch_id;
  location_id = p.location_id;
  quantity = p.new_qty;
  uom = uom;
  stock_status = status;
  created_at = now;
}

abbrev pub adjustment_header : ℕ → AdjustmentParams → MovementHeader
adjustment_header tenant p = record {
  tenant_id = tenant;
  movement_type = adjustment;
  warehouse_id = p.warehouse_id;
  status = MovementStatus.completed;
  reference = p.reference;
  created_by = p.created_by;
}

abbrev pub adjustment_row : ℕ → AdjustmentParams → ℕ → ℕ → ℤ → InventoryAdjustment
adjustment_row tenant p inventory_id header previous = record {
  tenant_id = tenant;
  warehouse_id = p.warehouse_id;
  product_id = p.product_id;
  batch_id = p.batch_id;
  location_id = p.location_id;
  inventory_id = some inventory_id;
  movement_header_id = some header;
  adjustment_type = adjustment_type (p.new_qty -ℤ previous);
  previous_qty = previous;
  new_qty = p.new_qty;
  difference_qty = p.new_qty -ℤ previous;
  reason = p.reason;
  reference = p.reference;
  created_by = p.created_by;
}

module _ (db : Prisma) where
  -- The checks before the first write; the result is the unit of measure.
  pub adjustment_checks : ℕ → AdjustmentParams → Action (Db db) ℕ
  adjustment_checks tenant p = do
    product ←
        or_raise (← gets (λ s. find_by_id db p.product_id (λ r. r.tenant_id == tenant) s.products))
          (not_found product_not_found)
    require_batch db tenant p.batch_id
    location ←
        or_raise
          (← gets (λ s. find_by_id db p.location_id (λ r. r.tenant_id == tenant) s.locations))
          (not_found location_not_found)
    raise_if (not (location.1.warehouse_id == p.warehouse_id))
        (bad_request location_not_in_warehouse)
    raise_if (ltb_ℤ p.new_qty (pos 0)) (bad_request negative_stock)
    pure (elim p.uom [ some u ↦ u | none ↦ product.1.default_uom ])

  pub adjustment_status : ℕ → AdjustmentParams → ℕ → Db db → StockStatus
  adjustment_status tenant p uom s = elim p.stock_status [
    | some status ↦ status
    | none ↦ determine_count_stock_status db tenant p.product_id p.batch_id p.location_id uom s
  ]

  -- Update the row that was found, or create one.
  pub store_quantity :
      ℕ
      → ℕ
      → AdjustmentParams
      → ℕ
      → StockStatus
      → Option (ℕ × Inventory)
      → Action (Db db) (ℕ × Inventory)
  store_quantity tenant now p uom status (some (i, r)) = do
    update_inventory db i (λ r. r.tenant_id == tenant) (λ r. record r { quantity = p.new_qty })
    pure (i, record r { quantity = p.new_qty })
  store_quantity tenant now p uom status none =
      let r = new_row tenant now p uom status in create_inventory db r >>= λ i. pure (i, r)

  -- The movement header, its line and the adjustment.
  pub record_adjustment : ℕ → AdjustmentParams → ℕ → ℕ → ℤ → Action (Db db) ℕ
  unfolding adjustment_type
  record_adjustment tenant p uom inventory_id previous =
      let difference = p.new_qty -ℤ previous in
      do
        header ← create_movement_header db (adjustment_header tenant p)
        create_movement_line db (record {
          tenant_id = tenant;
          movement_header_id = header;
          product_id = p.product_id;
          batch_id = p.batch_id;
          from_location_id = if ltb_ℤ difference (pos 0) then some p.location_id else none;
          to_location_id = if ltb_ℤ (pos 0) difference then some p.location_id else none;
          quantity = abs_ℤ difference;
          uom = uom;
        })
        create_adjustment db (adjustment_row tenant p inventory_id header previous)

  -- The writes, unless the quantity stays as it is.
  pub adjust_position :
      ℕ
      → ℕ
      → AdjustmentParams
      → ℕ
      → StockStatus
      → Option (ℕ × Inventory)
      → Action (Db db) (Option (ℕ × Inventory))
  adjust_position tenant now p uom status existing =
      if eqb_ℤ p.new_qty (previous_qty existing) then pure existing else do
        stored ← store_quantity tenant now p uom status existing
        record_adjustment tenant p uom stored.0 (previous_qty existing)
        pure (some stored)

  unfoldable pub apply_inventory_adjustment :
      ℕ → ℕ → AdjustmentParams → Action (Db db) (Option (ℕ × Inventory))
  unfolding adjustment_checks adjustment_status adjust_position store_quantity record_adjustment
  apply_inventory_adjustment tenant now p = do
    uom ← adjustment_checks tenant p
    status ← gets (adjustment_status tenant p uom)
    existing ← gets (λ s.
        db.find_first (λ i r. has_key tenant p.product_id p.batch_id p.location_id uom status r)
          s.inventory)
    adjust_position tenant now p uom status existing
