-- ===== src/Prisma.antt =====
-- The database client, which the services only call (`@prisma/client`): a record of operations on
-- one table, and the documented facts about them.
pub mod Interface
mod Queries
pub mod Memory
pub use Interface.*
pub use Queries.*
unfoldable pub use Memory.{memory}
