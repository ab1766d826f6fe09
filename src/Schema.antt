-- ===== src/Schema.antt =====
-- The tables of prisma/schema.prisma that the modelled services read and write. Identifiers, units
-- of measure, references and other texts that are only compared are numbers; dates are numbers of
-- milliseconds. A row stands under its identifier, so `id` is no column here.
pub mod Enums
pub mod Master
pub mod Stock
pub mod Inbound
pub mod Outbound
pub mod Waves
pub mod Config
pub use Enums.*
pub use Master.*
pub use Stock.*
pub use Inbound.*
pub use Outbound.*
pub use Waves.*
pub use Config.*
use awmsom.Prisma.{Prisma}

-- All tables.
pub record Db (db : Prisma) : Type 0 where
  pub warehouses : db.Table Warehouse
  pub products : db.Table Product
  pub batches : db.Table Batch
  pub locations : db.Table Location
  pub inventory : db.Table Inventory
  pub movement_headers : db.Table MovementHeader
  pub movement_lines : db.Table MovementLine
  pub cycle_count_tasks : db.Table CycleCountTask
  pub cycle_count_lines : db.Table CycleCountLine
  pub adjustments : db.Table InventoryAdjustment
  pub inbound_receipts : db.Table InboundReceipt
  pub inbound_receipt_lines : db.Table InboundReceiptLine
  pub orders : db.Table OutboundOrder
  pub order_lines : db.Table OutboundOrderLine
  pub picking_tasks : db.Table PickingTask
  pub picking_task_lines : db.Table PickingTaskLine
  pub handling_units : db.Table HandlingUnit
  pub handling_unit_lines : db.Table HandlingUnitLine
  pub shipments : db.Table Shipment
  pub shipment_handling_units : db.Table ShipmentHandlingUnit
  pub waves : db.Table Wave
  pub wave_orders : db.Table WaveOrder
  pub tenant_configs : db.Table TenantConfig
  pub inventory_policies : db.Table InventoryPolicy
  pub outbound_rules : db.Table OutboundRule
