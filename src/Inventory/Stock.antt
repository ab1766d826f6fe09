-- ===== src/Inventory/Stock.antt =====
-- Predicates on the stock table that several handlers keep.
use awmsom.Base.{ℕ, ◌≡◌, ◌≢◌, inl, inr, ◌⊎◌, none, some, ℤ, pos, ◌≤ℤ◌, ◌==◌, if◌then◌else◌, arith}
use awmsom.Prisma.{Prisma}
use awmsom.Schema.{Inventory}

module _ (db : Prisma) where
  -- No stock is negative.
  abbrev pub IsNonneg : db.Table Inventory → Type 0
  IsNonneg t = (i : ℕ) (r : Inventory) → db.get t i ≡ some r → pos 0 ≤ℤ r.quantity

  -- Each row of another tenant in the one table stands in the other as well.
  abbrev pub Keeps : ℕ → db.Table Inventory → db.Table Inventory → Type 0
  Keeps tenant t t' =
      (i : ℕ) (r : Inventory) → db.get t i ≡ some r → r.tenant_id ≢ tenant → db.get t' i ≡ some r

  -- The rows of the other tenants are the same in both tables: none is changed, and none is new.
  abbrev pub KeepsOthers : ℕ → db.Table Inventory → db.Table Inventory → Type 0
  KeepsOthers tenant t t' = Keeps tenant t t' × Keeps tenant t' t

  pub KeepsOthers-refl : (tenant : ℕ) (t : db.Table Inventory) → KeepsOthers tenant t t
  KeepsOthers-refl tenant t = (λ i r g ne. g, λ i r g ne. g)

  pub KeepsOthers-trans :
      {tenant : ℕ} {t t₁ t₂ : db.Table Inventory}
      → KeepsOthers tenant t t₁
      → KeepsOthers tenant t₁ t₂
      → KeepsOthers tenant t t₂
  KeepsOthers-trans m n =
      (λ i r g ne. n.0 i r (m.0 i r g ne) ne, λ i r g ne. m.1 i r (n.1 i r g ne) ne)

  -- One row was written.
  abbrev pub Writes : ℕ → Inventory → db.Table Inventory → db.Table Inventory → Type 0
  Writes i r t t' = (j : ℕ) → db.get t' j ≡ (if i == j then some r else db.get t j)

  -- What stood under the identifier before: nothing, or the same row with another quantity.
  abbrev pub Before : ℕ → Inventory → db.Table Inventory → Type 0
  Before i r t = (db.get t i ≡ none) ⊎ ((q : ℤ) × (db.get t i ≡ some (record r { quantity = q })))

  pub Writes-IsNonneg :
      (i : ℕ) (r : Inventory) (t t' : db.Table Inventory)
      → Writes i r t t'
      → pos 0 ≤ℤ r.quantity
      → IsNonneg t
      → IsNonneg t'
  Writes-IsNonneg i r t t' w h n j x g = ground (arith, w j, n j x)

  pub Writes-KeepsOthers :
      (i tenant : ℕ) (r : Inventory) (t t' : db.Table Inventory)
      → Writes i r t t'
      → Before i r t
      → r.tenant_id ≡ tenant
      → KeepsOthers tenant t t'
  Writes-KeepsOthers i tenant r t t' w (inl b) e =
      (λ j x g ne. ground (arith, w j), λ j x g ne. ground (arith, w j))
  Writes-KeepsOthers i tenant r t t' w (inr (q, b)) e =
      (λ j x g ne. ground (arith, w j), λ j x g ne. ground (arith, w j))
