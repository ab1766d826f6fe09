-- ===== src/System/Safety.antt =====
-- What holds in every reachable state.
use awmsom.Base.{List, ℕ, Bool, true, false, ◌≡◌, ◌≢◌, ◌↔◌, some, ok, err, Result, arith}
use awmsom.Prisma.{Prisma, IsClient}
use awmsom.Schema.{Db, Inventory}
use awmsom.Inventory.Stock.{IsNonneg, KeepsOthers, KeepsOthers-refl}
use awmsom.Inventory.Adjust.Laws.{apply_inventory_adjustment-Adjusted}
use awmsom.Inventory.Increase.Laws.{increase_stock-Increased}
use awmsom.Inventory.Safety.{
  apply_inventory_adjustment-IsNonneg, Adjusted-KeepsOthers, Increased-IsNonneg,
  Increased-KeepsOthers,
}
use awmsom.Inventory.CycleCount.Submit.{CountResult}
use awmsom.Inventory.CycleCount.Submit.Laws.{
  Completed, submit_cycle_count-Completed, submit_cycle_count-IsNonneg,
}
use awmsom.Inbound.Confirm.Laws.{ConfirmOutcome, confirm_receipt-Confirmed}
use awmsom.Inbound.Legacy.Laws.{DeliveryOutcome, receive_legacy_line-Delivered}
use awmsom.Outbound.Release.Body.{Released}
use awmsom.Outbound.Release.Laws.{release_outbound_order-Released, release_outbound_order-stock}
use awmsom.Outbound.Picking.Confirm.{
  confirm_picking_task-IsNonneg, confirm_picking_task-KeepsOthers,
}
use awmsom.System.{
  Step, adjust, increase, count, confirm, receive, release, pick, other, Reach, here, next,
}

-- What an outcome says of the stock alone.
module _ (db : Prisma) (c : IsClient db) where
  Confirmed-stock :
      (tenant now id : ℕ) (s : Db db) (x : Result Bool × Db db)
      → ConfirmOutcome db c tenant now id s x
      → (IsNonneg db s.inventory → IsNonneg db x.1.inventory)
        × KeepsOthers db tenant s.inventory x.1.inventory
  Confirmed-stock tenant now id s (err e, s') h =
      rw h (λ n. n, KeepsOthers-refl db tenant s.inventory)
  Confirmed-stock tenant now id s (ok all, s') m = (m.nonneg, m.others)

  Delivered-stock :
      (tenant now id line_id : ℕ) (s : Db db) (x : Result Bool × Db db)
      → DeliveryOutcome db c tenant now id line_id s x
      → (IsNonneg db s.inventory → IsNonneg db x.1.inventory)
        × KeepsOthers db tenant s.inventory x.1.inventory
  Delivered-stock tenant now id line_id s (err e, s') h =
      rw h (λ n. n, KeepsOthers-refl db tenant s.inventory)
  Delivered-stock tenant now id line_id s (ok all, s') m = (m.nonneg, m.others)

  Released-KeepsOthers :
      (tenant i : ℕ) (s : Db db) (x : Result (Unit {0}) × Db db)
      → Released db tenant i s x
      → KeepsOthers db tenant s.inventory x.1.inventory
  Released-KeepsOthers tenant i s (err e, s') h = rw h (KeepsOthers-refl db tenant s.inventory)
  Released-KeepsOthers tenant i s (ok u, s') (_, _, _, _, _, _, _, _, _, _, _, keeps) = keeps

  Completed-KeepsOthers :
      (tenant now i : ℕ) (ls : List CountResult) (s : Db db) (x : Result (Unit {0}) × Db db)
      → Completed db c tenant now i ls s x
      → KeepsOthers db tenant s.inventory x.1.inventory
  Completed-KeepsOthers tenant now i ls s (err e, s') h =
      rw h (KeepsOthers-refl db tenant s.inventory)
  Completed-KeepsOthers tenant now i ls s (ok u, s') (_, _, _, _, _, _, _, _, keeps) = keeps

module _ (db : Prisma) (strict : Bool) (c : IsClient db) where
  Step-IsNonneg :
      {tenant : ℕ} {s s' : Db db}
      → Step db strict tenant s s'
      → IsNonneg db s.inventory
      → IsNonneg db s'.inventory
  Step-IsNonneg {tenant} (adjust s now p) n =
      (apply_inventory_adjustment-IsNonneg db c tenant now p s n).0
  Step-IsNonneg {tenant} (increase s now p) n =
      Increased-IsNonneg db tenant p s _ (increase_stock-Increased db c tenant now p s) n
  Step-IsNonneg {tenant} (count s now task ls) n =
      submit_cycle_count-IsNonneg db c tenant now task ls s n
  Step-IsNonneg {tenant} (confirm s now receipt dto) n =
      (Confirmed-stock db c tenant now receipt s _
          (confirm_receipt-Confirmed db c tenant now receipt strict dto s)).0
        n
  Step-IsNonneg {tenant} (receive s now receipt dto) n =
      (Delivered-stock db c tenant now receipt dto.line_id s _
          (receive_legacy_line-Delivered db c tenant now receipt strict dto s)).0
        n
  Step-IsNonneg {tenant} (release s now order) n =
      release_outbound_order-stock db c tenant now order s n
  Step-IsNonneg {tenant} (pick s now task results) n =
      (confirm_picking_task-IsNonneg db c tenant now task results s n).1
  Step-IsNonneg (other s s' e) n = rw e n

  Step-KeepsOthers :
      {tenant : ℕ} {s s' : Db db}
      → Step db strict tenant s s'
      → KeepsOthers db tenant s.inventory s'.inventory
  Step-KeepsOthers {tenant} (adjust s now p) =
      Adjusted-KeepsOthers db tenant p s _ (apply_inventory_adjustment-Adjusted db c tenant now p s)
  Step-KeepsOthers {tenant} (increase s now p) =
      Increased-KeepsOthers db tenant p s _ (increase_stock-Increased db c tenant now p s)
  Step-KeepsOthers {tenant} (count s now task ls) =
      Completed-KeepsOthers db c tenant now task ls s _
        (submit_cycle_count-Completed db c tenant now task ls s)
  Step-KeepsOthers {tenant} (confirm s now receipt dto) =
      (Confirmed-stock db c tenant now receipt s _
        (confirm_receipt-Confirmed db c tenant now receipt strict dto s)).1
  Step-KeepsOthers {tenant} (receive s now receipt dto) =
      (Delivered-stock db c tenant now receipt dto.line_id s _
        (receive_legacy_line-Delivered db c tenant now receipt strict dto s)).1
  Step-KeepsOthers {tenant} (release s now order) =
      Released-KeepsOthers db c tenant order s _
        (release_outbound_order-Released db c tenant now order s)
  Step-KeepsOthers {tenant} (pick s now task results) =
      confirm_picking_task-KeepsOthers db c tenant now task results s
  Step-KeepsOthers {tenant} (other s s' e) = rw e (KeepsOthers-refl db tenant s.inventory)

  different : (among : ℕ → Bool) (a b : ℕ) → among a ≡ false → among b ≡ true → a ≢ b
  different among a b h k e = ground (arith, e, h, k)

  -- In any sequence of calls, by any tenants and however they end, of applyInventoryAdjustment,
  -- increaseStock, submitCycleCount, confirmReceipt, receiveLegacyLine, releaseOutboundOrder and
  -- confirmPickingTask, and of anything that leaves the stock as it is (transfers between locations, the
  -- moves of slotting and AdjustStockUseCase are not among the calls): stock that was nowhere negative
  -- in the first state is nowhere negative in any state reached.
  pub Reach-IsNonneg :
      (among : ℕ → Bool) (s s' : Db db)
      → Reach db strict among s s'
      → IsNonneg db s.inventory
      → IsNonneg db s'.inventory
  Reach-IsNonneg among s _ here n = n
  Reach-IsNonneg among s _ (next tenant run a step) n =
      Step-IsNonneg step (Reach-IsNonneg among s _ run n)

  -- In any sequence of calls by other tenants, however they end, of applyInventoryAdjustment,
  -- increaseStock, submitCycleCount, confirmReceipt, receiveLegacyLine, releaseOutboundOrder and
  -- confirmPickingTask, and of anything that leaves the stock as it is (transfers between locations, the
  -- moves of slotting and AdjustStockUseCase are not among the calls), a tenant's stock is the same in
  -- the state reached as in the first: it has a row with some content under an identifier in the one if
  -- and only if it has it in the other.
  pub Reach-isolated :
      (among : ℕ → Bool) (s s' : Db db) (i : ℕ) (r : Inventory)
      → Reach db strict among s s'
      → among r.tenant_id ≡ false
      → (db.get s.inventory i ≡ some r) ↔ (db.get s'.inventory i ≡ some r)
  Reach-isolated among s _ i r here outside = (λ g. g, λ g. g)
  Reach-isolated among s _ i r (next tenant run a step) outside =
      let kept = Step-KeepsOthers step in
      let before = Reach-isolated among s _ i r run outside in
      let other_tenant = different among r.tenant_id tenant outside a in
      (λ g. kept.0 i r (before.0 g) other_tenant, λ g. before.1 (kept.1 i r g other_tenant))
