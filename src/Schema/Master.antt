-- ===== src/Schema/Master.antt =====
-- Warehouses, locations, products and batches.
use awmsom.Base.{ℕ, Bool, Option}

pub record Warehouse : Type 0 where
  pub tenant_id : ℕ

pub record Location : Type 0 where
  pub tenant_id : ℕ
  pub warehouse_id : ℕ
  pub code : ℕ

pub record Product : Type 0 where
  pub tenant_id : ℕ
  pub sku : ℕ
  pub requires_batch : Bool
  pub requires_expiry_date : Bool
  pub default_uom : ℕ

pub record Batch : Type 0 where
  pub tenant_id : ℕ
  pub product_id : ℕ
  pub batch_code : ℕ
  pub expiry_date : Option ℕ
