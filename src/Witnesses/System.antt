-- ===== src/Witnesses/System.antt =====
-- A run of calls of one tenant on the tables in memory.
use awmsom.Base.{◌↔◌, ℕ, Bool, false, ◌≡◌, refl, some, pos, ◌==◌}
use awmsom.Prisma.{memory}
use awmsom.Prisma.Memory.Laws.{memory-IsClient}
use awmsom.Schema.{Db, available}
use awmsom.Inventory.Stock.{IsNonneg}
use awmsom.Inventory.CycleCount.Submit.{submit_cycle_count}
use awmsom.Outbound.Release.{release_outbound_order}
use awmsom.System.{Reach, here, next, count, release}
use awmsom.System.Safety.{Reach-IsNonneg, Reach-isolated}
use awmsom.Witnesses.{tables, tables-IsNonneg, stock_row, counted}

-- Only the first tenant calls.
abbrev first_tenant : ℕ → Bool
first_tenant t = t == 1

-- It counts, and then releases an order.
abbrev after_calls : Db memory
after_calls =
    (release_outbound_order memory 1 6 0 (submit_cycle_count memory 1 5 1 counted tables).1).1

calls : Reach memory false first_tenant tables after_calls
calls =
    next 1 (next 1 here refl (count tables 5 1 counted)) refl
      (release (submit_cycle_count memory 1 5 1 counted tables).1 6 0)

Reach-IsNonneg_example : IsNonneg memory after_calls.inventory
Reach-IsNonneg_example =
    Reach-IsNonneg memory false memory-IsClient first_tenant tables after_calls calls
      tables-IsNonneg

Reach-isolated_example :
    (memory.get tables.inventory 1 ≡ some (stock_row 2 available (pos 90000)))
    ↔ (memory.get after_calls.inventory 1 ≡ some (stock_row 2 available (pos 90000)))
Reach-isolated_example =
    Reach-isolated memory false memory-IsClient first_tenant tables after_calls 1
      (stock_row 2 available (pos 90000)) calls refl
