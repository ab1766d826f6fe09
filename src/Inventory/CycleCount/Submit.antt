-- ===== src/Inventory/CycleCount/Submit.antt =====
-- submitCycleCount: book what was counted, and complete the task.
pub mod Counting
pub mod Each
pub mod Booking
pub mod Laws
use awmsom.Base.{
  ℕ, Bool, true, false, Option, none, some, List, [], ◌∷◌, map, ℤ, pos, ◌-ℤ◌, ltb, eqb_ℤ, ◌==◌,
  ◌&&◌, not, if◌then◌else◌, length, keep, includes, Action, pure, gets, raise_if, or_raise,
  transaction, for_each, ◌>>=◌, ◌>>◌, not_found, bad_request, cycle_count_task_not_found,
  cycle_count_line_not_found, must_be_in_progress, missing_lines, already_counted,
  duplicate_request_lines,
}
use awmsom.Prisma.{Prisma, find_by_id}
use awmsom.Schema.{Db, CycleCountTask, CycleCountLine, CycleCountStatus, is_in_progress}
use awmsom.Inventory.Tables.{update_cycle_count_task, update_cycle_count_line}
use awmsom.Inventory.CountStatus.{determine_count_stock_status}
use awmsom.Inventory.Adjust.{AdjustmentParams, apply_inventory_adjustment}

-- SubmitCycleCountLineDto
pub record CountResult : Type 0 where
  pub line_id : ℕ
  pub counted_qty : ℤ

pub record Submitted : Type 0 where
  pub line_id : ℕ
  pub difference_qty : ℤ
  pub counted_qty : ℤ

abbrev pub is_null : Option ℕ → Bool
is_null none = true
is_null (some _) = false

-- The texts 'system' and 'Cycle count adjustment'.
abbrev pub system : ℕ
system = 0

abbrev pub count_reason : ℕ
count_reason = 1

module _ (db : Prisma) where
  -- The lines of the task that nobody has counted.
  pub pending_lines : ℕ → ℕ → Db db → List (ℕ × CycleCountLine)
  pending_lines tenant task_id s =
      db.find_many
        (λ i r. r.cycle_count_task_id == task_id && (is_null r.counted_at && r.tenant_id == tenant))
        (λ a b. false) s.cycle_count_lines

  -- One round of the loop over the request.
  pub count_line : ℕ → ℕ → ℕ → List ℕ → CountResult → Action (Db db) Submitted
  count_line tenant now task_id seen line = do
    raise_if (includes seen line.line_id) (bad_request duplicate_request_lines)
    existing ←
        or_raise
          (← gets
            (λ s. find_by_id db line.line_id (λ r. r.tenant_id == tenant) s.cycle_count_lines))
          (not_found cycle_count_line_not_found)
    raise_if (not (existing.1.cycle_count_task_id == task_id))
        (not_found cycle_count_line_not_found)
    raise_if (not (is_null existing.1.counted_at)) (bad_request already_counted)
    update_cycle_count_line db line.line_id (λ r. r.tenant_id == tenant)
        (λ r. record r {
          counted_qty = some line.counted_qty;
          difference_qty = some (line.counted_qty -ℤ existing.1.expected_qty);
          counted_at = some now;
          counted_by = some system;
        })
    pure (record {
      line_id = line.line_id;
      difference_qty = line.counted_qty -ℤ existing.1.expected_qty;
      counted_qty = line.counted_qty;
    })

  pub count_lines : ℕ → ℕ → ℕ → List ℕ → List CountResult → Action (Db db) (List Submitted)
  unfolding count_line
  count_lines tenant now task_id seen [] = pure []
  count_lines tenant now task_id seen (l ∷ ls) = do
    x ← count_line tenant now task_id seen l
    xs ← count_lines tenant now task_id (l.line_id ∷ seen) ls
    pure (x ∷ xs)

  -- The adjustment that a counted line asks for.
  pub line_adjustment :
      ℕ → ℕ → CycleCountTask → Submitted → CycleCountLine → Db db → AdjustmentParams
  line_adjustment tenant task_id task x line s = record {
    warehouse_id = task.warehouse_id;
    product_id = line.product_id;
    batch_id = line.batch_id;
    location_id = line.location_id;
    new_qty = x.counted_qty;
    uom = some line.uom;
    stock_status = some (
        determine_count_stock_status db tenant line.product_id line.batch_id line.location_id
          line.uom s);
    reason = count_reason;
    reference = some task_id;
    created_by = some system;
  }

  -- One round of the loop over the submitted lines.
  pub book_line : ℕ → ℕ → ℕ → CycleCountTask → Submitted → Action (Db db) (Unit {0})
  unfolding line_adjustment
  book_line tenant now task_id task x s =
      if eqb_ℤ x.difference_qty (pos 0)
      then pure tt s
      else elim (find_by_id db x.line_id (λ r. r.tenant_id == tenant) s.cycle_count_lines) [
        | none ↦ pure tt s
        | some line ↦
            (apply_inventory_adjustment db tenant now
                  (line_adjustment tenant task_id task x line.1 s)
                >> pure tt)
              s
      ]

  -- `if (remainingPendingLines === 0)`
  pub complete_task : ℕ → ℕ → ℕ → Action (Db db) (Unit {0})
  unfolding pending_lines
  complete_task tenant now task_id = do
    remaining ← gets (pending_lines tenant task_id)
    if length remaining == 0
        then update_cycle_count_task db task_id (λ r. true)
            (λ r. record r { status = CycleCountStatus.completed; completed_at = some now })
        else pure tt

  pub submit_body : ℕ → ℕ → ℕ → CycleCountTask → List CountResult → Action (Db db) (Unit {0})
  unfolding pending_lines count_lines book_line complete_task for_each
  submit_body tenant now task_id task lines = do
    pending ← gets (pending_lines tenant task_id)
    raise_if
        (ltb 0 (
          length
            (keep (λ i. not (includes (map (λ l. l.line_id) lines) i)) (map (λ x. x.0) pending))))
        (bad_request missing_lines)
    submitted ← count_lines tenant now task_id [] lines
    for_each submitted (book_line tenant now task_id task)
    complete_task tenant now task_id

  unfoldable pub submit_cycle_count : ℕ → ℕ → ℕ → List CountResult → Action (Db db) (Unit {0})
  unfolding submit_body
  submit_cycle_count tenant now task_id lines = do
    task ←
        or_raise
          (← gets (λ s. find_by_id db task_id (λ r. r.tenant_id == tenant) s.cycle_count_tasks))
          (not_found cycle_count_task_not_found)
    raise_if (not (is_in_progress task.1.status)) (bad_request must_be_in_progress)
    transaction (submit_body tenant now task_id task.1 lines)
