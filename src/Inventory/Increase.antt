-- ===== src/Inventory/Increase.antt =====
-- increaseStock: add a positive quantity to one stock position.
pub mod Laws
use awmsom.Base.{
  ℕ, Option, none, some, ℤ, pos, ◌+ℤ◌, leb_ℤ, ◌==◌, not, Action, pure, gets, raise_if, or_raise,
  ◌>>=◌, ◌>>◌, not_found, bad_request, product_not_found, location_not_found,
  location_not_in_warehouse, quantity_not_positive,
}
use awmsom.Prisma.{Prisma, find_by_id}
use awmsom.Schema.{Db, Inventory, StockStatus}
use awmsom.Inventory.Tables.{has_key, update_inventory, create_inventory, require_batch}

pub record IncreaseParams : Type 0 where
  pub warehouse_id : ℕ
  pub product_id : ℕ
  pub batch_id : Option ℕ
  pub location_id : ℕ
  pub quantity : ℤ
  pub uom : ℕ
  pub stock_status : StockStatus

-- The row that is created where there is none.
abbrev pub increase_row : ℕ → ℕ → IncreaseParams → Inventory
increase_row tenant now p = record {
  tenant_id = tenant;
  product_id = p.product_id;
  batch_id = p.batch_id;
  location_id = p.location_id;
  quantity = p.quantity;
  uom = p.uom;
  stock_status = p.stock_status;
  created_at = now;
}

module _ (db : Prisma) where
  pub increase_checks : ℕ → IncreaseParams → Action (Db db) (Unit {0})
  increase_checks tenant p = do
    or_raise (← gets (λ s. find_by_id db p.product_id (λ r. r.tenant_id == tenant) s.products))
        (not_found product_not_found)
    require_batch db tenant p.batch_id
    location ←
        or_raise
          (← gets (λ s. find_by_id db p.location_id (λ r. r.tenant_id == tenant) s.locations))
          (not_found location_not_found)
    raise_if (not (location.1.warehouse_id == p.warehouse_id))
        (bad_request location_not_in_warehouse)
    raise_if (leb_ℤ p.quantity (pos 0)) (bad_request quantity_not_positive)

  pub increase_position :
      ℕ → ℕ → IncreaseParams → Option (ℕ × Inventory) → Action (Db db) (ℕ × Inventory)
  increase_position tenant now p (some (i, r)) = do
    update_inventory db i (λ x. x.tenant_id == tenant)
        (λ x. record x { quantity = r.quantity +ℤ p.quantity })
    pure (i, record r { quantity = r.quantity +ℤ p.quantity })
  increase_position tenant now p none =
      create_inventory db (increase_row tenant now p) >>= λ i. pure (i, increase_row tenant now p)

  unfoldable pub increase_stock : ℕ → ℕ → IncreaseParams → Action (Db db) (ℕ × Inventory)
  unfolding increase_checks increase_position
  increase_stock tenant now p = do
    increase_checks tenant p
    existing ← gets (λ s.
        db.find_first
          (λ i r. has_key tenant p.product_id p.batch_id p.location_id p.uom p.stock_status r)
          s.inventory)
    increase_position tenant now p existing
