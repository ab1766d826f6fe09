-- ===== src/Inventory/CycleCount/Tasks.antt =====
-- createCycleCountTask and startCycleCount, with the configuration that the first one reads.
pub mod Laws
use awmsom.Base.{
  ℕ, Bool, true, false, Option, none, some, List, [], ◌∷◌, map, ◌==◌, ◌&&◌, ◌||◌, not, same_id,
  if◌then◌else◌, any, take, Action, pure, gets, raise_if, or_raise, transaction, ◌>>=◌, ◌>>◌,
  not_found, bad_request, warehouse_not_found, cycle_count_task_not_found, counting_disabled,
  only_pending_start,
}
use awmsom.Prisma.{Prisma, find_by_id}
use awmsom.Schema.{
  Db, Inventory, Location, CycleCountTask, CycleCountStatus, TenantConfig, InventoryPolicy,
  is_pending,
}
use awmsom.Inventory.Tables.{
  create_cycle_count_task_row, create_tenant_config, update_cycle_count_task,
}
use awmsom.Inventory.CycleCount.Lines.{CountLineInput, add_cycle_count_lines}

abbrev pub is_set : Option ℕ → Bool
is_set none = false
is_set (some _) = true

abbrev pub default_config : ℕ → TenantConfig
default_config tenant = record {
  tenant_id = tenant;
  enable_cycle_counting = true;
  cycle_count_default_freq_days = none;
}

-- The line that a stock row suggests.
abbrev pub suggested : ℕ × Inventory → CountLineInput
suggested (i, r) = record {
  product_id = r.product_id;
  batch_id = r.batch_id;
  location_id = r.location_id;
  uom = r.uom;
  expected_qty = some r.quantity;
}

module _ (db : Prisma) where
  -- ConfigService.getTenantConfig: the tenant's row, created with the defaults of the schema.
  unfoldable pub get_tenant_config : ℕ → Action (Db db) TenantConfig
  get_tenant_config tenant s =
      elim (db.find_first (λ i r. r.tenant_id == tenant) s.tenant_configs) [
        | some x ↦ pure x.1 s
        | none ↦ (create_tenant_config db (default_config tenant) >> pure (default_config tenant)) s
      ]

  -- ConfigService.getInventoryPolicies(tenantId, warehouseId)
  pub get_inventory_policies : ℕ → ℕ → Db db → List (ℕ × InventoryPolicy)
  get_inventory_policies tenant warehouse s =
      db.find_many (λ i r. r.tenant_id == tenant && same_id r.warehouse_id (some warehouse))
        (λ a b. false) s.inventory_policies

  -- `location: { warehouseId, tenantId }`
  abbrev pub location_in : ℕ → ℕ → ℕ → Db db → Bool
  location_in tenant warehouse location s = elim (db.get s.locations location) [
    | none ↦ false
    | some l ↦ l.warehouse_id == warehouse && l.tenant_id == tenant
  ]

  -- The first 50 stock rows of the warehouse.
  pub inventory_candidates : ℕ → ℕ → Db db → List (ℕ × Inventory)
  inventory_candidates tenant warehouse s = take 50 (
      db.find_many (λ i r. r.tenant_id == tenant && location_in tenant warehouse r.location_id s)
        (λ a b. false) s.inventory)

  -- `if (lines.length) await this.addCycleCountLines(...)`
  pub add_lines_if_any : ℕ → ℕ → List CountLineInput → Action (Db db) (Unit {0})
  add_lines_if_any tenant task_id [] = pure tt
  add_lines_if_any tenant task_id (l ∷ ls) =
      add_cycle_count_lines db tenant task_id (l ∷ ls) >> pure tt

  -- No lines were asked for: suggest some, if a frequency is configured.
  pub suggest_lines : ℕ → ℕ → ℕ → TenantConfig → Action (Db db) (Unit {0})
  unfolding add_lines_if_any inventory_candidates get_inventory_policies
  suggest_lines tenant task_id warehouse config = do
    policies ← gets (get_inventory_policies tenant warehouse)
    candidates ← gets (inventory_candidates tenant warehouse)
    if any (λ x. is_set x.1.cycle_count_freq_days) policies
          || is_set config.cycle_count_default_freq_days
        then add_lines_if_any tenant task_id (map suggested candidates)
        else pure tt

  pub task_body : ℕ → ℕ → Option ℕ → TenantConfig → List CountLineInput → Action (Db db) ℕ
  unfolding suggest_lines add_lines_if_any
  task_body tenant warehouse description config lines = do
    task_id ← create_cycle_count_task_row db (record {
      tenant_id = tenant;
      warehouse_id = warehouse;
      description = description;
      status = CycleCountStatus.pending;
      started_at = none;
      completed_at = none;
    })
    elim lines [
      | [] ↦ suggest_lines tenant task_id warehouse config
      | l ∷ ls ↦ add_lines_if_any tenant task_id (l ∷ ls)
    ]
    pure task_id

  unfoldable pub create_cycle_count_task : ℕ → ℕ → Option ℕ → List CountLineInput → Action (Db db) ℕ
  unfolding get_tenant_config task_body
  create_cycle_count_task tenant warehouse description lines = do
    config ← get_tenant_config tenant
    or_raise (← gets (λ s. find_by_id db warehouse (λ r. r.tenant_id == tenant) s.warehouses))
        (not_found warehouse_not_found)
    raise_if (not config.enable_cycle_counting) (bad_request counting_disabled)
    transaction (task_body tenant warehouse description config lines)

  unfoldable pub start_cycle_count : ℕ → ℕ → ℕ → Action (Db db) (Unit {0})
  start_cycle_count tenant now task_id = do
    task ←
        or_raise
          (← gets (λ s. find_by_id db task_id (λ r. r.tenant_id == tenant) s.cycle_count_tasks))
          (not_found cycle_count_task_not_found)
    raise_if (not (is_pending task.1.status)) (bad_request only_pending_start)
    update_cycle_count_task db task_id (λ r. true)
        (λ r. record r { status = CycleCountStatus.in_progress; started_at = some now })
