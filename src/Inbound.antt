-- ===== src/Inbound.antt =====
-- src/modules/inbound/inbound.service.ts: receipts, their lines, and what arrives on them.
pub mod Tables
pub mod Policy
pub mod Receipts
pub mod Confirm
pub mod Legacy
pub mod Status
