-- ===== src/Replenishment.antt =====
-- ReplenishmentService (src/modules/replenishment/replenishment.service.ts), in part.
pub mod Transfer
pub mod Suggestion
