-- ===== src/Inventory.antt =====
-- modules/inventory/inventory.service.ts: stock adjustments, stock increases and cycle counts.
pub mod Tables
pub mod Stock
pub mod CountStatus
pub mod Adjust
pub mod Increase
pub mod Safety
pub mod CycleCount
pub mod Domain
