-- ===== src/Inventory/Domain/Stock.antt =====
-- StockItem and AdjustStockUseCase. Quantities are decimals of four places, as in the tables.
use awmsom.Base.{
  ℕ, Option, none, some, ℤ, pos, ◌+ℤ◌, ltb_ℤ, if◌then◌else◌, Action, pure, raise, ◌>>=◌,
  plain_error, stock_below_zero,
}
use awmsom.Schema.{StockStatus, available}

-- The fields of a StockItem; `StockState` has the cases of `StockStatus`.
pub record StockItem : Type 0 where
  pub product_id : ℕ
  pub quantity : ℤ
  pub uom : ℕ
  pub location_id : ℕ
  pub lot_code : Option ℕ
  pub expiration_date : Option ℕ
  pub stock_state : StockStatus
  pub id : Option ℕ
  pub created_at : Option ℕ
  pub updated_at : Option ℕ
  pub created_by : Option ℕ
  pub updated_by : Option ℕ

module _ {S : Type 0} where
  -- The constructor refuses a negative quantity.
  abbrev pub new_stock_item : StockItem → Action S StockItem
  new_stock_item item =
      if ltb_ℤ item.quantity (pos 0) then raise (plain_error stock_below_zero) else pure item

  abbrev pub with_quantity : ℤ → StockItem → Action S StockItem
  with_quantity quantity item = new_stock_item (record item { quantity = quantity })

-- What the use cases call of an InventoryRepository.
pub record InventoryRepository (S : Type 0) : Type 0 where
  pub find_by_product_lot_and_location :
      ℕ → Option ℕ → ℕ → Option StockStatus → Action S (Option StockItem)
  pub save : StockItem → Action S StockItem

pub record AdjustStockInput : Type 0 where
  pub product_id : ℕ
  pub location_id : ℕ
  pub lot_code : Option ℕ
  pub expiration_date : Option ℕ
  pub quantity_delta : ℤ
  pub uom : ℕ
  pub stock_state : Option StockStatus
  pub created_by : Option ℕ
  pub updated_by : Option ℕ

-- `current?.quantity ?? 0`
abbrev pub current_quantity : Option StockItem → ℤ
current_quantity none = pos 0
current_quantity (some item) = item.quantity

-- The item that is created where there is none.
abbrev pub empty_item : AdjustStockInput → StockItem
empty_item input = record {
  product_id = input.product_id;
  quantity = pos 0;
  uom = input.uom;
  location_id = input.location_id;
  lot_code = input.lot_code;
  expiration_date = input.expiration_date;
  stock_state = elim input.stock_state [ none ↦ available | some x ↦ x ];
  id = none;
  created_at = none;
  updated_at = none;
  created_by = input.created_by;
  updated_by = input.updated_by;
}

-- `current ?? new StockItem(...)`
abbrev pub current_or_empty :
    {S : Type 0} → AdjustStockInput → Option StockItem → Action S StockItem
current_or_empty input none = new_stock_item (empty_item input)
current_or_empty input (some item) = pure item

unfoldable pub adjust_stock :
    {S : Type 0} → InventoryRepository S → AdjustStockInput → Action S StockItem
adjust_stock repository input = do
  current ←
      repository.find_by_product_lot_and_location input.product_id input.lot_code input.location_id
        input.stock_state
  let quantity = current_quantity current +ℤ input.quantity_delta
  if ltb_ℤ quantity (pos 0) then raise (plain_error stock_below_zero) else do
    item ← current_or_empty input current
    stock ← with_quantity quantity item
    repository.save stock
