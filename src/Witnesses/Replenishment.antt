-- ===== src/Witnesses/Replenishment.antt =====
-- Runs of a transfer and of suggestions.
use awmsom.Base.{ℤ, ◌≡◌, refl, ok, none, some, pos, ◌+ℤ◌, ◌-ℤ◌, ◌≤ℤ◌, ◌⊎◌, arith}
use awmsom.Prisma.{memory}
use awmsom.Prisma.Memory.Laws.{memory-IsClient}
use awmsom.Replenishment.Transfer.{TransferLine, stock_at, uom_of, transfer_line}
use awmsom.Replenishment.Transfer.Laws.{gained, transfer_line-gained}
use awmsom.Replenishment.Suggestion.{
  ReplenishmentMethod, min_max, ReplenishmentPolicy, compute_suggestion,
}
use awmsom.Replenishment.Suggestion.Laws.{min_max_suggestion_lem}
use awmsom.Witnesses.{tables}

abbrev two_units : TransferLine
two_units = record { product_id = 0; quantity = pos 20000 }

abbrev no_shortfall : ℤ → ℤ → ℤ
no_shortfall days stock = pos 0

abbrev policy : ReplenishmentMethod → ReplenishmentPolicy
policy method = record {
  method = method;
  fixed_qty = none;
  min_qty = some (pos 3);
  max_qty = some (pos 8);
  eoq_qty = none;
  days_of_supply = some (pos 4);
}

transfer_line_test :
    memory.sum (λ i r. r.quantity) (transfer_line memory 1 5 0 0 1 two_units tables).1.inventory
    ≡ pos 140000
unfolding transfer_line memory tables ◌+ℤ◌ ◌-ℤ◌
transfer_line_test = refl

compute_suggestion_test : compute_suggestion no_shortfall (policy min_max) (pos 2) ≡ pos 6
unfolding compute_suggestion ◌-ℤ◌
compute_suggestion_test = refl

transfer_line-gained_example :
    let uom = uom_of memory 0 tables in
    let end = transfer_line memory 1 5 0 0 1 two_units tables in
    (end.0 ≡ ok tt)
    × (memory.sum (λ i r. r.quantity) end.1.inventory
        ≡ memory.sum (λ i r. r.quantity) tables.inventory
          +ℤ gained
              (stock_at memory 1 0 0 uom tables)
              (stock_at memory 1 0 1 uom tables)
              (pos 20000))
    × (memory.sum (λ i m. m.quantity) end.1.movement_lines
        ≡ memory.sum (λ i m. m.quantity) tables.movement_lines +ℤ pos 20000)
transfer_line-gained_example =
    transfer_line-gained memory memory-IsClient 1 5 0 0 1 two_units tables

min_max_suggestion_example :
    let q = compute_suggestion no_shortfall (policy min_max) (pos 2) in
    ((pos 3 ≤ℤ pos 2) × (q ≡ pos 0))
    ⊎ ((pos 2 +ℤ pos 1 ≤ℤ pos 3) × (pos 1 ≤ℤ q) × (pos 2 +ℤ q ≡ pos 8))
min_max_suggestion_example =
    min_max_suggestion_lem no_shortfall (policy min_max) (pos 2) refl (omega arith)
