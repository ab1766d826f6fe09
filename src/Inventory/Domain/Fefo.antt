-- ===== src/Inventory/Domain/Fefo.antt =====
-- SelectFefoLotUseCase: the lot that expires first.
pub mod Laws
use awmsom.Base.{
  ℕ, zero, suc, Bool, true, false, Option, none, some, List, [], ◌∷◌, ltb, ◌&&◌, if◌then◌else◌,
  keep, Result, ok, err, plain_error, no_fefo_lot,
}
use awmsom.Schema.{available, same_status}
use awmsom.Inventory.Domain.Stock.{StockItem}

-- `!!item.lotCode`: the text 0 is the empty one.
abbrev pub has_lot : Option ℕ → Bool
has_lot none = false
has_lot (some zero) = false
has_lot (some (suc n)) = true

abbrev pub is_eligible : StockItem → Bool
is_eligible item = same_status item.stock_state available && has_lot item.lot_code

-- Whether the comparison of creation dates answers a negative number.
abbrev pub created_before : Option ℕ → Option ℕ → Bool
created_before (some a) (some b) = ltb a b
created_before (some a) none = false
created_before none b = false

-- Whether the function given to `sort` answers a negative number: first by expiration, a missing date
-- last, and by creation where neither expires.
abbrev pub sorts_before : Option ℕ → Option ℕ → Option ℕ → Option ℕ → Bool
sorts_before (some a) (some b) ca cb = ltb a b
sorts_before none (some b) ca cb = false
sorts_before (some a) none ca cb = true
sorts_before none none ca cb = created_before ca cb

abbrev pub expires_before : StockItem → StockItem → Bool
expires_before a b = sorts_before a.expiration_date b.expiration_date a.created_at b.created_at

-- `Array.prototype.sort`, which is stable
unfoldable pub place_lot : StockItem → List StockItem → List StockItem
place_lot x [] = x ∷ []
place_lot x (y ∷ ys) =
    let rest = place_lot x ys in if expires_before y x then y ∷ rest else x ∷ y ∷ ys

unfoldable pub sort_lots : List StockItem → List StockItem
unfolding place_lot
sort_lots [] = []
sort_lots (x ∷ xs) = place_lot x (sort_lots xs)

-- `eligible[0]`
abbrev pub first_of : List StockItem → Result StockItem
first_of [] = err (plain_error no_fefo_lot)
first_of (x ∷ xs) = ok x

-- `lots` is what the repository lists for the product.
unfoldable pub select_fefo_lot : List StockItem → Result StockItem
unfolding sort_lots
select_fefo_lot lots = first_of (sort_lots (keep is_eligible lots))
