-- ===== src/Lib.antt =====
-- Verification of the backend's stock handling (src/modules), a NestJS service on a PostgreSQL
-- database through Prisma.
--
-- Base: shared names and lemmas. Base/Int has the decimals: a quantity is a whole number of
-- ten-thousandths, the scale of the `Decimal(20, 4)` columns. Base/Monad has the calls: a handler
-- takes the database and returns a result or an exception with the database after it, and
-- `transaction` undoes the writes of a body that throws, which other throws leave in place.
--
-- Prisma: the client as a parameter. Prisma/Interface has its operations on one table, a record
-- `Prisma`, and what the theorems assume of them, a record `IsClient` (a found row is there and
-- matches, findMany misses none and repeats none, create gives a fresh identifier, create and update
-- change one row and the sums by it). Prisma/Memory is a database in memory that meets the
-- assumptions. An update whose filter no row meets throws, as Prisma's P2025.
--
-- Schema: the tables of prisma/schema.prisma that the handlers use, and `Db`, all of them. A row
-- stands under its identifier. Identifiers, units and texts are numbers, since they are only
-- compared; a date is a number of milliseconds.
--
-- Inventory: src/modules/inventory/inventory.service.ts. Inventory/Adjust is applyInventoryAdjustment,
-- Inventory/Increase increaseStock, Inventory/CountStatus determineCountStockStatus,
-- Inventory/CycleCount/Lines addCycleCountLines and getExpectedQty, Inventory/CycleCount/Tasks
-- createCycleCountTask and startCycleCount, Inventory/CycleCount/Submit submitCycleCount, which
-- books what was counted through applyInventoryAdjustment. Inventory/Tables has the writes to single
-- tables, Inventory/Stock the predicates on the stock table. Inventory/Domain has the entities of
-- src/modules/inventory/domain and the use cases of src/modules/inventory/application, with their
-- repositories as parameters: Stock (AdjustStockUseCase), Lots (BlockLotUseCase), Movements
-- (RegisterInventoryMovementUseCase) and Fefo (SelectFefoLotUseCase).
--
-- Inbound: src/modules/inbound/inbound.service.ts. Inbound/Receipts is createReceipt, addLine and
-- createLegacyReceipt, Inbound/Confirm confirmReceipt (its proofs go from Line, one line, over Loop,
-- all of them, and End, the movement and the status, to Laws), Inbound/Legacy receiveLegacyLine and
-- completeLegacyReceipt, Inbound/Status the status names of the older interface, Inbound/Policy
-- resolveInventoryPolicy of src/modules/config/config.service.ts with the tolerances. What arrives goes
-- into the stock through increaseStock. The client is `strict` if it refuses a new batch without its
-- code and a fraction for an integer column; the theorems hold for either kind. Otherwise a client is
-- one that takes the data as they are given.
--
-- Outbound: src/modules/outbound/outbound.service.ts. Outbound/Orders is createOutboundOrder,
-- Outbound/Release releaseOutboundOrder (its proofs go from Reserve, one reserved row, over Allocate
-- and Rows, the stock rows, and Lines, the order lines, to Body, the transaction, and Laws),
-- Outbound/Picking createPickingTask, startPickingTask and
-- confirmPickingTask, Outbound/Packing createHandlingUnit and addItemsToHandlingUnit,
-- Outbound/Shipping createShipment, assignHandlingUnitsToShipment and dispatchShipment. They meet the
-- inventory service in the stock, movement and configuration tables.
--
-- Waves: src/modules/waves/waves.service.ts. Waves/Chunks is chunkArray, Waves/Grouping buildGroupingKey
-- and the plan of a run, Waves/Generate generateWaves, Waves/Status the writes to one wave, and
-- Waves/Route nearestNeighbor. Its loop runs on fuel, the number of nodes that are left, which each
-- round makes smaller; so does that of chunkArray, on the length of the list. The largest number of
-- orders in a wave is a whole number, and distances are finite whole numbers. The audit log is left out.
--
-- Replenishment: src/modules/replenishment/replenishment.service.ts. Replenishment/Transfer is the loop
-- body of createTransferOrderFromSuggestions for two locations that are found, and
-- Replenishment/Suggestion is computeSuggestion for whole units, where what the runtime's doubles give
-- for the days of supply is a parameter.
--
-- Slotting: src/modules/slotting/slotting.service.ts. Slotting/Abc is calculateAbc, with shares compared
-- exactly, and Slotting/Compatibility is evaluateCompatibility.
--
-- System: calls of any tenants one after the other, as a relation on states, whose steps are the
-- handlers of Inventory, Inbound and Outbound that write the stock and one step for all that write
-- other tables only. Not among them are the transfers of Replenishment, the moves that SlottingService
-- executes, and the stock repository of Inventory/Domain, which write the stock too.
--
-- Common: src/common/rate-limit.service.ts (Common/RateLimit) and
-- src/common/pagination/pagination.service.ts (Common/Pagination).
--
-- Witnesses: runs on small tables in memory, with a child module for each part.
--
-- The tenant of TenantContextService and the time are arguments of a handler. A PostgreSQL date that
-- is missing sorts last. The rounds of an allocation loop after its `break` are rounds that do
-- nothing. Loops run over lists, and need no fuel but where it
-- is said. One handler runs at a time: the model has no
-- concurrent transactions. A handler's result is what later code uses of it, so the rows that a
-- handler reads again only to answer are left out, and so are the picking method that the release
-- looks up and does not use, and the label, weight and measures of a handling unit.
--
-- Not modelled: queries that change nothing (lists, summaries, reports, metrics), controllers and
-- DTO validation, authentication, integrations, and the services of the other modules.
pub mod Base
pub mod Prisma
pub mod Schema
pub mod Common
pub mod Inventory
pub mod Inbound
pub mod Outbound
pub mod Waves
pub mod Replenishment
pub mod Slotting
pub mod System
pub mod Witnesses
