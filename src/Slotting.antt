-- ===== src/Slotting.antt =====
-- SlottingService (src/modules/slotting/slotting.service.ts), in part.
pub mod Abc
pub mod Compatibility
