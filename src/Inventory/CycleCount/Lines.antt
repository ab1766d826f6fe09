-- ===== src/Inventory/CycleCount/Lines.antt =====
-- addCycleCountLines and getExpectedQty.
use awmsom.Base.{
  ℕ, Bool, false, Option, none, some, List, [], ◌∷◌, ℤ, pos, ltb, ◌==◌, ◌&&◌, ◌||◌, not, same_id,
  length, any, Action, pure, gets, raise_if, or_raise, for_each, ◌>>=◌, ◌>>◌, not_found,
  bad_request, cycle_count_task_not_found, task_closed, duplicate_request_lines,
  duplicate_task_lines, product_not_found, batch_not_found, batch_not_of_product,
  location_not_found, location_not_in_count_warehouse,
}
use awmsom.Prisma.{Prisma, find_by_id}
use awmsom.Schema.{
  Db, Inventory, CycleCountTask, CycleCountLine, scrap, same_status, is_pending, is_in_progress,
}
use awmsom.Inventory.Tables.{create_cycle_count_line}

-- CreateCycleCountLineInput
pub record CountLineInput : Type 0 where
  pub product_id : ℕ
  pub batch_id : Option ℕ
  pub location_id : ℕ
  pub uom : ℕ
  pub expected_qty : Option ℤ

-- Two lines with one key `product|batch|location|uom`.
abbrev pub same_combination : CountLineInput → CountLineInput → Bool
same_combination a b =
    a.product_id == b.product_id
    && (same_id a.batch_id b.batch_id && (a.location_id == b.location_id && a.uom == b.uom))

-- The loop over the request with its set of keys seen so far.
unfoldable pub has_duplicate : List CountLineInput → List CountLineInput → Bool
has_duplicate seen [] = false
has_duplicate seen (l ∷ ls) = any (same_combination l) seen || has_duplicate (l ∷ seen) ls

-- A stored line has the key of a requested one.
abbrev pub line_of : CountLineInput → CycleCountLine → Bool
line_of a b =
    a.product_id == b.product_id
    && (same_id a.batch_id b.batch_id && (a.location_id == b.location_id && a.uom == b.uom))

-- `const [firstRecord] = inventory ?? []` and its sum, or zero.
abbrev pub first_sum : List (Inventory × ℤ) → ℤ
first_sum [] = pos 0
first_sum (g ∷ gs) = g.1

module _ (db : Prisma) where
  -- The sum over all statuses but SCRAP.
  pub get_expected_qty : ℕ → ℕ → Option ℕ → ℕ → ℕ → Db db → ℤ
  get_expected_qty tenant product batch location uom s = first_sum (
      db.group_by
        (λ i r.
          r.tenant_id == tenant
          && (r.product_id == product
              && (same_id r.batch_id batch
                  && (r.location_id == location
                      && (r.uom == uom && not (same_status r.stock_status scrap))))))
        (λ a b.
          a.product_id == b.product_id
          && (same_id a.batch_id b.batch_id && (a.location_id == b.location_id && a.uom == b.uom)))
        (λ r. r) (λ r. r.quantity) s.inventory)

  -- `if (line.batchId) { ... }`
  pub check_batch : ℕ → CountLineInput → Option ℕ → Action (Db db) (Unit {0})
  check_batch tenant line none = pure tt
  check_batch tenant line (some b) = do
    batch ←
        or_raise (← gets (λ s. find_by_id db b (λ r. r.tenant_id == tenant) s.batches))
          (bad_request batch_not_found)
    raise_if (not (batch.1.product_id == line.product_id)) (bad_request batch_not_of_product)

  -- One round of the loop that prepares the rows.
  pub prepare_line : ℕ → ℕ → CycleCountTask → CountLineInput → Action (Db db) CycleCountLine
  unfolding get_expected_qty check_batch
  prepare_line tenant task_id task line = do
    or_raise (← gets (λ s. find_by_id db line.product_id (λ r. r.tenant_id == tenant) s.products))
        (bad_request product_not_found)
    check_batch tenant line line.batch_id
    location ←
        or_raise
          (← gets (λ s. find_by_id db line.location_id (λ r. r.tenant_id == tenant) s.locations))
          (bad_request location_not_found)
    raise_if (not (location.1.warehouse_id == task.warehouse_id))
        (bad_request location_not_in_count_warehouse)
    computed ←
        gets (get_expected_qty tenant line.product_id line.batch_id line.location_id line.uom)
    pure (record {
      tenant_id = tenant;
      cycle_count_task_id = task_id;
      product_id = line.product_id;
      batch_id = line.batch_id;
      location_id = line.location_id;
      uom = line.uom;
      expected_qty = elim line.expected_qty [ some q ↦ q | none ↦ computed ];
      counted_qty = none;
      difference_qty = none;
      counted_at = none;
      counted_by = none;
    })

  pub prepare_lines :
      ℕ → ℕ → CycleCountTask → List CountLineInput → Action (Db db) (List CycleCountLine)
  unfolding prepare_line
  prepare_lines tenant task_id task [] = pure []
  prepare_lines tenant task_id task (l ∷ ls) = do
    row ← prepare_line tenant task_id task l
    rows ← prepare_lines tenant task_id task ls
    pure (row ∷ rows)

  abbrev pub task_lines : ℕ → ℕ → Db db → List (ℕ × CycleCountLine)
  task_lines tenant task_id s =
      db.find_many (λ i r. r.cycle_count_task_id == task_id && r.tenant_id == tenant) (λ a b. false)
        s.cycle_count_lines

  unfoldable pub add_cycle_count_lines :
      ℕ → ℕ → List CountLineInput → Action (Db db) (List (ℕ × CycleCountLine))
  unfolding has_duplicate prepare_lines for_each
  add_cycle_count_lines tenant task_id lines = do
    task ←
        or_raise
          (← gets (λ s. find_by_id db task_id (λ r. r.tenant_id == tenant) s.cycle_count_tasks))
          (not_found cycle_count_task_not_found)
    raise_if (not (is_pending task.1.status) && not (is_in_progress task.1.status))
        (bad_request task_closed)
    raise_if (has_duplicate [] lines) (bad_request duplicate_request_lines)
    existing ← gets (λ s.
        db.find_many
          (λ i r.
            r.tenant_id == tenant
            && (r.cycle_count_task_id == task_id && any (λ l. line_of l r) lines))
          (λ a b. false) s.cycle_count_lines)
    raise_if (ltb 0 (length existing)) (bad_request duplicate_task_lines)
    rows ← prepare_lines tenant task_id task.1 lines
    for_each rows (λ row. create_cycle_count_line db row >> pure tt)
    gets (task_lines tenant task_id)
