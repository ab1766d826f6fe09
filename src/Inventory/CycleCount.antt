-- ===== src/Inventory/CycleCount.antt =====
-- Cycle counts: create a task, add lines, start it, and submit what was counted.
pub mod Lines
pub mod Tasks
pub mod Submit
