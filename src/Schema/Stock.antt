-- ===== src/Schema/Stock.antt =====
-- Stock, movements, cycle counts and adjustments.
use awmsom.Base.{ℕ, Option, ℤ}
use awmsom.Schema.Enums.{
  StockStatus, AdjustmentType, MovementType, MovementStatus, CycleCountStatus,
}

pub record Inventory : Type 0 where
  pub tenant_id : ℕ
  pub product_id : ℕ
  pub batch_id : Option ℕ
  pub location_id : ℕ
  pub quantity : ℤ
  pub uom : ℕ
  pub stock_status : StockStatus
  pub created_at : ℕ

pub record MovementHeader : Type 0 where
  pub tenant_id : ℕ
  pub movement_type : MovementType
  pub warehouse_id : ℕ
  pub reference : Option ℕ
  pub status : MovementStatus
  pub created_by : Option ℕ

pub record MovementLine : Type 0 where
  pub tenant_id : ℕ
  pub movement_header_id : ℕ
  pub product_id : ℕ
  pub batch_id : Option ℕ
  pub from_location_id : Option ℕ
  pub to_location_id : Option ℕ
  pub quantity : ℤ
  pub uom : ℕ

pub record CycleCountTask : Type 0 where
  pub tenant_id : ℕ
  pub warehouse_id : ℕ
  pub description : Option ℕ
  pub status : CycleCountStatus
  pub started_at : Option ℕ
  pub completed_at : Option ℕ

pub record CycleCountLine : Type 0 where
  pub tenant_id : ℕ
  pub cycle_count_task_id : ℕ
  pub product_id : ℕ
  pub batch_id : Option ℕ
  pub location_id : ℕ
  pub uom : ℕ
  pub expected_qty : ℤ
  pub counted_qty : Option ℤ
  pub difference_qty : Option ℤ
  pub counted_at : Option ℕ
  pub counted_by : Option ℕ

pub record InventoryAdjustment : Type 0 where
  pub tenant_id : ℕ
  pub warehouse_id : ℕ
  pub product_id : ℕ
  pub batch_id : Option ℕ
  pub location_id : ℕ
  pub inventory_id : Option ℕ
  pub movement_header_id : Option ℕ
  pub adjustment_type : AdjustmentType
  pub previous_qty : ℤ
  pub new_qty : ℤ
  pub difference_qty : ℤ
  pub reason : ℕ
  pub reference : Option ℕ
  pub created_by : Option ℕ
