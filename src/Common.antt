-- ===== src/Common.antt =====
-- The services of common/ that keep their state in memory, or compute without one.
pub mod RateLimit
pub mod Pagination
