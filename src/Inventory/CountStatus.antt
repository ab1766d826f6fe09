-- ===== src/Inventory/CountStatus.antt =====
-- determineCountStockStatus: the status under which a counted quantity is booked.
pub mod Laws
use awmsom.Base.{
  ℕ, Bool, Option, none, some, List, [], ◌∷◌, ℤ, pos, ltb_ℤ, ◌==◌, ◌&&◌, same_id, if◌then◌else◌,
  find,
}
use awmsom.Prisma.{Prisma}
use awmsom.Schema.{Db, Inventory, StockStatus, available, same_status}

-- One step of the `reduce` that looks for the predominant status.
unfoldable pub prefer : Option (StockStatus × ℤ) → StockStatus × ℤ → Option (StockStatus × ℤ)
prefer none g = some g
prefer (some c) g = if ltb_ℤ c.1 g.1 then some g else some c

unfoldable pub predominant :
    Option (StockStatus × ℤ) → List (StockStatus × ℤ) → Option (StockStatus × ℤ)
unfolding prefer
predominant current [] = current
predominant current (g ∷ gs) = predominant (prefer current g) gs

-- The choice among the sums by status.
unfoldable pub choose_status : List (StockStatus × ℤ) → StockStatus
unfolding predominant
choose_status groups = elim (find (λ g. same_status g.0 available && ltb_ℤ (pos 0) g.1) groups) [
  | some _ ↦ available
  | none ↦ elim (predominant none groups) [ some g ↦ g.0 | none ↦ available ]
]

module _ (db : Prisma) where
  unfoldable pub determine_count_stock_status : ℕ → ℕ → Option ℕ → ℕ → ℕ → Db db → StockStatus
  unfolding choose_status
  determine_count_stock_status tenant product batch location uom s = choose_status (
      db.group_by
        (λ i r.
          r.tenant_id == tenant
          && (r.product_id == product
              && (same_id r.batch_id batch && (r.location_id == location && r.uom == uom))))
        same_status (λ r. r.stock_status) (λ r. r.quantity) s.inventory)
