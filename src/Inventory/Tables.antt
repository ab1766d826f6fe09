-- ===== src/Inventory/Tables.antt =====
-- The reads and writes of one table that the handlers of InventoryService make, as actions.
use awmsom.Base.{
  ℕ, Bool, Option, none, some, ◌==◌, ◌&&◌, same_id, Action, ok, gets, pure, modify, or_raise, ◌>>=◌,
  ◌>>◌, record_not_found, not_found, batch_not_found,
}
use awmsom.Prisma.{Prisma, updated, find_by_id}
use awmsom.Schema.{
  Db, CycleCountTask, CycleCountLine, TenantConfig, Inventory, MovementHeader, MovementLine,
  InventoryAdjustment, StockStatus, same_status,
}

-- `where: { tenantId, productId, batchId, locationId, uom, stockStatus }`
abbrev pub has_key : ℕ → ℕ → Option ℕ → ℕ → ℕ → StockStatus → Inventory → Bool
has_key tenant product batch location uom status r =
    r.tenant_id == tenant
    && (r.product_id == product
        && (same_id r.batch_id batch
            && (r.location_id == location && (r.uom == uom && same_status r.stock_status status))))

module _ (db : Prisma) where
  abbrev pub update_inventory :
      ℕ → (Inventory → Bool) → (Inventory → Inventory) → Action (Db db) (Unit {0})
  update_inventory i p f = do
    t ← or_raise (← gets (λ s. updated db i p f s.inventory)) record_not_found
    modify (λ s. record s { inventory = t })

  abbrev pub create_inventory : Inventory → Action (Db db) ℕ
  create_inventory r s = let (i, t) = db.create r s.inventory in (ok i, record s { inventory = t })

  abbrev pub create_movement_header : MovementHeader → Action (Db db) ℕ
  create_movement_header r s =
      let (i, t) = db.create r s.movement_headers in (ok i, record s { movement_headers = t })

  abbrev pub create_movement_line : MovementLine → Action (Db db) ℕ
  create_movement_line r s =
      let (i, t) = db.create r s.movement_lines in (ok i, record s { movement_lines = t })

  abbrev pub create_adjustment : InventoryAdjustment → Action (Db db) ℕ
  create_adjustment r s =
      let (i, t) = db.create r s.adjustments in (ok i, record s { adjustments = t })

  -- The batch is looked up only if one is given.
  abbrev pub require_batch : ℕ → Option ℕ → Action (Db db) (Unit {0})
  require_batch tenant none = pure tt
  require_batch tenant (some b) = do
    or_raise (← gets (λ s. find_by_id db b (λ r. r.tenant_id == tenant) s.batches))
        (not_found batch_not_found)
    pure tt

  abbrev pub create_cycle_count_task_row : CycleCountTask → Action (Db db) ℕ
  create_cycle_count_task_row r s =
      let (i, t) = db.create r s.cycle_count_tasks in (ok i, record s { cycle_count_tasks = t })

  abbrev pub create_cycle_count_line : CycleCountLine → Action (Db db) ℕ
  create_cycle_count_line r s =
      let (i, t) = db.create r s.cycle_count_lines in (ok i, record s { cycle_count_lines = t })

  abbrev pub create_tenant_config : TenantConfig → Action (Db db) ℕ
  create_tenant_config r s =
      let (i, t) = db.create r s.tenant_configs in (ok i, record s { tenant_configs = t })

  abbrev pub update_cycle_count_task :
      ℕ → (CycleCountTask → Bool) → (CycleCountTask → CycleCountTask) → Action (Db db) (Unit {0})
  update_cycle_count_task i p f = do
    t ← or_raise (← gets (λ s. updated db i p f s.cycle_count_tasks)) record_not_found
    modify (λ s. record s { cycle_count_tasks = t })

  abbrev pub update_cycle_count_line :
      ℕ → (CycleCountLine → Bool) → (CycleCountLine → CycleCountLine) → Action (Db db) (Unit {0})
  update_cycle_count_line i p f = do
    t ← or_raise (← gets (λ s. updated db i p f s.cycle_count_lines)) record_not_found
    modify (λ s. record s { cycle_count_lines = t })
