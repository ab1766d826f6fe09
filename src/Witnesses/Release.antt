-- ===== src/Witnesses/Release.antt =====
-- Runs of releaseOutboundOrder on the tables in memory.
use awmsom.Base.{zero, suc, ◌≡◌, refl, some, pos, arith, ◌+ℤ◌, ◌-ℤ◌}
use awmsom.Prisma.{memory}
use awmsom.Prisma.Memory.Laws.{memory-IsClient}
use awmsom.Inventory.Stock.{IsNonneg}
use awmsom.Outbound.Release.{release_outbound_order}
use awmsom.Outbound.Release.Lines.{IsWithin}
use awmsom.Outbound.Release.Body.{Released}
use awmsom.Outbound.Release.Laws.{release_outbound_order-Released, release_outbound_order-IsNonneg}
use awmsom.Witnesses.{tables, tables-IsNonneg, order_line}

tables-IsWithin : IsWithin memory tables.order_lines
unfolding memory tables
tables-IsWithin zero l g = ground arith
tables-IsWithin (suc i) l g = ground arith

-- The order gets the 5 units that there are.
release_outbound_order_test :
    memory.get (release_outbound_order memory 1 5 0 tables).1.order_lines 0
    ≡ some (record order_line { allocated_qty = pos 50000 })
unfolding release_outbound_order memory tables ◌+ℤ◌ ◌-ℤ◌
release_outbound_order_test = refl

release_outbound_order-Released_example :
    Released memory 1 0 tables (release_outbound_order memory 1 5 0 tables)
release_outbound_order-Released_example =
    release_outbound_order-Released memory memory-IsClient 1 5 0 tables

release_outbound_order-IsNonneg_example :
    IsNonneg memory (release_outbound_order memory 1 5 0 tables).1.inventory
    × IsWithin memory (release_outbound_order memory 1 5 0 tables).1.order_lines
release_outbound_order-IsNonneg_example =
    release_outbound_order-IsNonneg memory memory-IsClient 1 5 0 tables tables-IsNonneg
      tables-IsWithin
