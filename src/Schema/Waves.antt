-- ===== src/Schema/Waves.antt =====
-- Picking waves and the orders in them.
use awmsom.Base.{ℕ, Option, ℤ}
use awmsom.Schema.Enums.{WavePickingStrategy, WaveStatus}

pub record Wave : Type 0 where
  pub tenant_id : ℕ
  pub warehouse_id : ℕ
  pub strategy : WavePickingStrategy
  pub status : WaveStatus
  pub route_code : Option ℕ
  pub carrier_code : Option ℕ
  pub zone_code : Option ℕ
  pub time_window_from : Option ℕ
  pub time_window_to : Option ℕ
  pub total_orders : ℕ
  pub total_lines : ℕ
  pub total_units : ℤ
  pub picker_user_id : Option ℕ
  pub released_at : Option ℕ
  pub started_at : Option ℕ
  pub completed_at : Option ℕ
  pub cancelled_at : Option ℕ

pub record WaveOrder : Type 0 where
  pub tenant_id : ℕ
  pub wave_id : ℕ
  pub outbound_order_id : ℕ
