-- ===== src/Schema/Config.antt =====
-- The configuration rows that the modelled handlers read.
use awmsom.Base.{ℕ, Bool, Option, ℤ}

pub record TenantConfig : Type 0 where
  pub tenant_id : ℕ
  pub enable_cycle_counting : Bool
  pub cycle_count_default_freq_days : Option ℕ

-- A percentage is a whole number of ten-thousandths of a percent.
pub record InventoryPolicy : Type 0 where
  pub tenant_id : ℕ
  pub warehouse_id : Option ℕ
  pub product_id : Option ℕ
  pub max_over_receipt_pct : Option ℤ
  pub max_under_receipt_pct : Option ℤ
  pub updated_at : ℕ
  pub cycle_count_freq_days : Option ℕ

pub record OutboundRule : Type 0 where
  pub tenant_id : ℕ
  pub warehouse_id : Option ℕ
  pub allow_partial_shipments : Bool
  pub enforce_full_allocation : Bool
