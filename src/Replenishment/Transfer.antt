-- ===== src/Replenishment/Transfer.antt =====
-- The loop of createTransferOrderFromSuggestions over the lines of the order, once its two locations
-- are found.
pub mod Laws
use awmsom.Base.{
  ℕ, Bool, true, Option, none, some, List, ℤ, pos, ◌+ℤ◌, ◌-ℤ◌, ◌==◌, ◌&&◌, Action, pure, gets,
  for_each, ◌>>=◌, ◌>>◌,
}
use awmsom.Prisma.{Prisma}
use awmsom.Schema.{Db, Inventory, MovementLine, available, same_status}
use awmsom.Inventory.Tables.{create_movement_line, create_inventory, update_inventory}

-- A line of the order. The quantity is a whole number of units, here in ten-thousandths as all are.
pub record TransferLine : Type 0 where
  pub product_id : ℕ
  pub quantity : ℤ

-- The text 'EA'.
abbrev pub each_unit : ℕ
each_unit = 2

-- `where: { tenantId, productId, locationId, stockStatus: AVAILABLE, uom }`, whatever the batch is.
abbrev pub is_stock_at : ℕ → ℕ → ℕ → ℕ → Inventory → Bool
is_stock_at tenant product location uom r =
    r.tenant_id == tenant
    && (r.product_id == product
        && (r.location_id == location && (same_status r.stock_status available && r.uom == uom)))

abbrev pub transfer_movement : ℕ → ℕ → ℕ → ℕ → TransferLine → ℕ → MovementLine
transfer_movement tenant header source destination line uom = record {
  tenant_id = tenant;
  movement_header_id = header;
  product_id = line.product_id;
  batch_id = none;
  from_location_id = some source;
  to_location_id = some destination;
  quantity = line.quantity;
  uom = uom;
}

-- The row that is created at the destination where there is none.
abbrev pub transferred_row : ℕ → ℕ → ℕ → TransferLine → ℕ → Inventory
transferred_row tenant now destination line uom = record {
  tenant_id = tenant;
  product_id = line.product_id;
  batch_id = none;
  location_id = destination;
  quantity = pos 0 +ℤ line.quantity;
  uom = uom;
  stock_status = available;
  created_at = now;
}

module _ (db : Prisma) where
  -- `product?.defaultUom ?? 'EA'`
  abbrev pub uom_of : ℕ → Db db → ℕ
  uom_of product s = elim (db.get s.products product) [ none ↦ each_unit | some p ↦ p.default_uom ]

  abbrev pub stock_at : ℕ → ℕ → ℕ → ℕ → Db db → Option (ℕ × Inventory)
  stock_at tenant product location uom s =
      db.find_first (λ i r. is_stock_at tenant product location uom r) s.inventory

  -- `if (sourceInventory)`
  abbrev pub take_from : Option (ℕ × Inventory) → ℤ → Action (Db db) (Unit {0})
  take_from none q = pure tt
  take_from (some x) q =
      update_inventory db x.0 (λ r. true) (λ r. record r { quantity = x.1.quantity -ℤ q })

  -- `if (destinationInventory)`, with the quantity as it was read before the source was written.
  abbrev pub put_to :
      Option (ℕ × Inventory) → ℕ → ℕ → ℕ → TransferLine → ℕ → Action (Db db) (Unit {0})
  put_to (some x) tenant now destination line uom =
      update_inventory db x.0 (λ r. true)
        (λ r. record r { quantity = x.1.quantity +ℤ line.quantity })
  put_to none tenant now destination line uom =
      create_inventory db (transferred_row tenant now destination line uom) >> pure tt

  -- One round of the loop.
  unfoldable pub transfer_line : ℕ → ℕ → ℕ → ℕ → ℕ → TransferLine → Action (Db db) (Unit {0})
  transfer_line tenant now header source destination line = do
    uom ← gets (uom_of line.product_id)
    create_movement_line db (transfer_movement tenant header source destination line uom)
    from ← gets (stock_at tenant line.product_id source uom)
    to ← gets (stock_at tenant line.product_id destination uom)
    take_from from line.quantity
    put_to to tenant now destination line uom
