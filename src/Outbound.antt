-- ===== src/Outbound.antt =====
-- modules/outbound/outbound.service.ts: outbound orders, allocation, picking, packing and shipping.
pub mod Tables
pub mod Orders
pub mod Release
pub mod Picking
pub mod Packing
pub mod Shipping
