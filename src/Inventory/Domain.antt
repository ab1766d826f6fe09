-- ===== src/Inventory/Domain.antt =====
-- inventory/domain and inventory/application: stock, lots and movements behind repositories. The
-- repositories are what a use case calls through their interfaces, so they are parameters.
pub mod Stock
pub mod Lots
pub mod Movements
pub mod Fefo
