-- ===== src/Witnesses/Packing.antt =====
-- Runs of addItemsToHandlingUnit on the tables in memory.
use awmsom.Base.{
  zero, suc, ◌≡◌, refl, none, List, [], ◌∷◌, ◌++◌, pos, ◌+ℤ◌, arith, ok, err, bad_request,
  pack_over_picked,
}
use awmsom.Prisma.{memory}
use awmsom.Prisma.Memory.Laws.{memory-IsClient}
use awmsom.Outbound.Packing.{PackItem, add_items}
use awmsom.Outbound.Packing.Laws.{IsPacked, Packed, add_items-Packed}
use awmsom.Witnesses.{tables}

abbrev two_items : List PackItem
two_items =
    record { order_line_id = 0; product_id = 0; batch_id = none; quantity = pos 20000; uom = 7 }
    ∷ record { order_line_id = 0; product_id = 0; batch_id = none; quantity = pos 10000; uom = 7 }
    ∷ []

add_items_test : (add_items memory 1 0 0 two_items tables).0 ≡ ok tt
unfolding add_items memory tables ◌+ℤ◌
add_items_test = refl

pack_over_picked_test :
    (add_items memory 1 0 0 (two_items ++ two_items) tables).0 ≡ err (bad_request pack_over_picked)
unfolding add_items memory tables ◌+ℤ◌
pack_over_picked_test = refl

tables-IsPacked : IsPacked memory 1 tables
unfolding memory tables
tables-IsPacked zero l g = ground arith
tables-IsPacked (suc i) l g = ground arith

add_items-Packed_example : Packed memory 1 tables (add_items memory 1 0 0 two_items tables)
add_items-Packed_example =
    add_items-Packed memory memory-IsClient 1 0 0 two_items tables tables-IsPacked
