-- ===== src/Waves.antt =====
-- src/modules/waves/waves.service.ts: orders grouped into picking waves.
pub mod Chunks
pub mod Grouping
pub mod Generate
pub mod Status
pub mod Route
