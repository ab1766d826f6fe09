-- ===== src/Witnesses/Picking.antt =====
-- Runs of confirmPickingTask on the tables in memory.
use awmsom.Base.{zero, suc, ◌≡◌, refl, none, some, List, [], ◌∷◌, pos, ◌+ℤ◌, ◌-ℤ◌, arith, ok}
use awmsom.Prisma.{memory}
use awmsom.Prisma.Memory.Laws.{memory-IsClient}
use awmsom.Schema.{Db, PickingTask, PickingTaskLine, PickingTaskStatus, reserved}
use awmsom.Inventory.Stock.{IsNonneg}
use awmsom.Outbound.Picking.{PickResult, confirm_picking_task}
use awmsom.Outbound.Picking.Confirm.{confirm_picking_task-IsNonneg}
use awmsom.Outbound.Picking.{start_picking_task}
use awmsom.Outbound.Picking.Start.{PickingStarted, start_picking_task-PickingStarted}
use awmsom.Witnesses.{tables, stock_row}

abbrev picking : PickingTask
picking = record {
  tenant_id = 1;
  warehouse_id = 0;
  outbound_order_id = some 0;
  status = PickingTaskStatus.in_progress;
  picker_id = none;
  started_at = some 3;
  completed_at = none;
}

abbrev to_pick : PickingTaskLine
to_pick = record {
  tenant_id = 1;
  picking_task_id = 0;
  outbound_order_line_id = 0;
  product_id = 0;
  batch_id = none;
  from_location_id = 0;
  quantity_to_pick = pos 40000;
  quantity_picked = pos 0;
  uom = 7;
}

-- 4 units are reserved and stand on the line of a task in progress.
picking_tables : Db memory
unfolding memory tables
picking_tables = record tables {
  inventory = stock_row 1 reserved (pos 40000) ∷ [];
  picking_tasks = picking ∷ [];
  picking_task_lines = to_pick ∷ [];
}

abbrev picked : List PickResult
picked = record { picking_task_line_id = 0; quantity_picked = pos 15000 } ∷ []

picking_tables-IsNonneg : IsNonneg memory picking_tables.inventory
unfolding memory picking_tables
picking_tables-IsNonneg zero r g = ground arith
picking_tables-IsNonneg (suc i) r g = ground arith

confirm_picking_task_test :
    memory.get (confirm_picking_task memory 1 5 0 picked picking_tables).1.inventory 0
    ≡ some (stock_row 1 reserved (pos 25000))
unfolding confirm_picking_task memory picking_tables tables ◌+ℤ◌ ◌-ℤ◌
confirm_picking_task_test = refl

confirm_picking_task-IsNonneg_example :
    let s' = (confirm_picking_task memory 1 5 0 picked picking_tables).1 in
    (memory.sum (λ j r. r.quantity) s'.inventory +ℤ memory.sum (λ j m. m.quantity) s'.movement_lines
      ≡ memory.sum (λ j r. r.quantity) picking_tables.inventory
        +ℤ memory.sum (λ j m. m.quantity) picking_tables.movement_lines)
    × IsNonneg memory s'.inventory
confirm_picking_task-IsNonneg_example =
    confirm_picking_task-IsNonneg memory memory-IsClient 1 5 0 picked picking_tables
      picking_tables-IsNonneg

-- A task that was assigned and has not begun.
assigned_tables : Db memory
unfolding memory tables
assigned_tables = record tables {
  picking_tasks = record picking { status = PickingTaskStatus.assigned; started_at = none } ∷ [];
}

start_picking_task_test : (start_picking_task memory 1 5 0 assigned_tables).0 ≡ ok tt
unfolding start_picking_task memory assigned_tables tables
start_picking_task_test = refl

start_picking_task-PickingStarted_example :
    PickingStarted memory 1 5 0 assigned_tables (start_picking_task memory 1 5 0 assigned_tables)
start_picking_task-PickingStarted_example =
    start_picking_task-PickingStarted memory memory-IsClient 1 5 0 assigned_tables
