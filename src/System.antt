-- ===== src/System.antt =====
-- The services together: calls of any tenants in any order, one after the other.
pub mod Safety
use awmsom.Base.{ℕ, Bool, true, ◌≡◌, Option, List}
use awmsom.Prisma.{Prisma}
use awmsom.Schema.{Db}
use awmsom.Inventory.Adjust.{AdjustmentParams, apply_inventory_adjustment}
use awmsom.Inventory.Increase.{IncreaseParams, increase_stock}
use awmsom.Inventory.CycleCount.Submit.{CountResult, submit_cycle_count}
use awmsom.Inbound.Confirm.{ConfirmInput, confirm_receipt}
use awmsom.Inbound.Legacy.{LegacyArrival, receive_legacy_line}
use awmsom.Outbound.Release.{release_outbound_order}
use awmsom.Outbound.Picking.{PickResult, confirm_picking_task}

module _ (db : Prisma) (strict : Bool) where
  -- One call of a tenant, with whatever arguments and however it ends. `other` stands for every call
  -- that does not write the stock table, and for what other programs do to the other tables.
  pub data Step (tenant : ℕ) : Db db → Db db → Type 0 where
    adjust :
        (s : Db db) (now : ℕ) (p : AdjustmentParams)
        → Step tenant s (apply_inventory_adjustment db tenant now p s).1
    increase :
        (s : Db db) (now : ℕ) (p : IncreaseParams)
        → Step tenant s (increase_stock db tenant now p s).1
    count :
        (s : Db db) (now task : ℕ) (ls : List CountResult)
        → Step tenant s (submit_cycle_count db tenant now task ls s).1
    confirm :
        (s : Db db) (now receipt : ℕ) (dto : ConfirmInput)
        → Step tenant s (confirm_receipt db strict tenant now receipt dto s).1
    receive :
        (s : Db db) (now receipt : ℕ) (dto : LegacyArrival)
        → Step tenant s (receive_legacy_line db strict tenant now receipt dto s).1
    release :
        (s : Db db) (now order : ℕ) → Step tenant s (release_outbound_order db tenant now order s).1
    pick :
        (s : Db db) (now task : ℕ) (results : List PickResult)
        → Step tenant s (confirm_picking_task db tenant now task results s).1
    other : (s s' : Db db) → s'.inventory ≡ s.inventory → Step tenant s s'

  -- The states after some calls of the tenants that `among` admits.
  pub data Reach (among : ℕ → Bool) (s : Db db) : Db db → Type 0 where
    here : Reach among s s
    next :
        {t u : Db db} (tenant : ℕ)
        → Reach among s t
        → among tenant ≡ true
        → Step tenant t u
        → Reach among s u
