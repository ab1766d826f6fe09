-- ===== src/Schema/Outbound.antt =====
-- Outbound orders, picking tasks, handling units and shipments.
use awmsom.Base.{ℕ, Option, ℤ}
use awmsom.Schema.Enums.{OutboundOrderStatus, PickingTaskStatus, ShipmentStatus, HandlingUnitType}

pub record OutboundOrder : Type 0 where
  pub tenant_id : ℕ
  pub warehouse_id : ℕ
  pub external_ref : Option ℕ
  pub customer_ref : Option ℕ
  pub route_code : Option ℕ
  pub carrier_code : Option ℕ
  pub zone_code : Option ℕ
  pub priority : Option ℤ
  pub requested_ship_date : Option ℕ
  pub status : OutboundOrderStatus

pub record OutboundOrderLine : Type 0 where
  pub tenant_id : ℕ
  pub outbound_order_id : ℕ
  pub product_id : ℕ
  pub requested_qty : ℤ
  pub allocated_qty : ℤ
  pub picked_qty : ℤ
  pub uom : ℕ

pub record PickingTask : Type 0 where
  pub tenant_id : ℕ
  pub warehouse_id : ℕ
  pub outbound_order_id : Option ℕ
  pub status : PickingTaskStatus
  pub picker_id : Option ℕ
  pub started_at : Option ℕ
  pub completed_at : Option ℕ

pub record PickingTaskLine : Type 0 where
  pub tenant_id : ℕ
  pub picking_task_id : ℕ
  pub outbound_order_line_id : ℕ
  pub product_id : ℕ
  pub batch_id : Option ℕ
  pub from_location_id : ℕ
  pub quantity_to_pick : ℤ
  pub quantity_picked : ℤ
  pub uom : ℕ

pub record HandlingUnit : Type 0 where
  pub tenant_id : ℕ
  pub warehouse_id : ℕ
  pub handling_unit_type : HandlingUnitType
  pub code : ℕ

pub record HandlingUnitLine : Type 0 where
  pub tenant_id : ℕ
  pub handling_unit_id : ℕ
  pub outbound_order_id : ℕ
  pub outbound_order_line_id : ℕ
  pub product_id : ℕ
  pub batch_id : Option ℕ
  pub quantity : ℤ
  pub uom : ℕ

pub record Shipment : Type 0 where
  pub tenant_id : ℕ
  pub warehouse_id : ℕ
  pub carrier_ref : Option ℕ
  pub vehicle_ref : Option ℕ
  pub route_ref : Option ℕ
  pub status : ShipmentStatus
  pub scheduled_departure : Option ℕ
  pub actual_departure : Option ℕ

pub record ShipmentHandlingUnit : Type 0 where
  pub tenant_id : ℕ
  pub shipment_id : ℕ
  pub handling_unit_id : ℕ
  pub outbound_order_id : ℕ
