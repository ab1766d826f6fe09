-- ===== src/Inventory/Safety.antt =====
-- The two stock operations keep the stock from becoming negative, and never touch another tenant.
use awmsom.Base.{
  ℕ, ◌≡◌, refl, inl, inr, Option, none, some, ℤ, pos, ◌+ℤ◌, ◌≤ℤ◌, int_laws, ok, err, Result,
  Result-cases,
}
use awmsom.Prisma.{Prisma, IsClient}
use awmsom.Schema.{Db, Inventory}
use awmsom.Inventory.Stock.{
  IsNonneg, KeepsOthers, KeepsOthers-refl, Writes-IsNonneg, Writes-KeepsOthers,
}
use awmsom.Inventory.Adjust.{AdjustmentParams, adjustment_checks, apply_inventory_adjustment}
use awmsom.Inventory.Adjust.Steps.{adjustment_checks-nonneg}
use awmsom.Inventory.Adjust.Laws.{
  Adjusted, apply_inventory_adjustment-Adjusted, apply_inventory_adjustment-raises,
}
use awmsom.Inventory.Increase.{IncreaseParams}
use awmsom.Inventory.Increase.Laws.{Increased, quantity_or_zero}

module _ (db : Prisma) where
  Adjusted-IsNonneg :
      (tenant : ℕ) (p : AdjustmentParams) (s : Db db) (x : Result (Option (ℕ × Inventory)) × Db db)
      → Adjusted db tenant p s x
      → pos 0 ≤ℤ p.new_qty
      → IsNonneg db s.inventory
      → IsNonneg db x.1.inventory
  Adjusted-IsNonneg tenant p s (err e, s') (same, _) h n = rw same n
  Adjusted-IsNonneg tenant p s (ok none, s') (same, _, _) h n = rw same n
  Adjusted-IsNonneg tenant p s (ok (some (i, r)), s') (q, at, old, w, _) h n =
      Writes-IsNonneg db i r s.inventory s'.inventory w (rw q h) n

  pub Adjusted-KeepsOthers :
      (tenant : ℕ) (p : AdjustmentParams) (s : Db db) (x : Result (Option (ℕ × Inventory)) × Db db)
      → Adjusted db tenant p s x
      → KeepsOthers db tenant s.inventory x.1.inventory
  Adjusted-KeepsOthers tenant p s (err e, s') (same, _) =
      rw same (KeepsOthers-refl db tenant s.inventory)
  Adjusted-KeepsOthers tenant p s (ok none, s') (same, _, _) =
      rw same (KeepsOthers-refl db tenant s.inventory)
  Adjusted-KeepsOthers tenant p s (ok (some (i, r)), s') (q, at, old, w, _) =
      Writes-KeepsOthers db i tenant r s.inventory s'.inventory w old at.0

  grown_nonneg :
      (i : ℕ) (t : db.Table Inventory) (q : ℤ)
      → IsNonneg db t
      → pos 1 ≤ℤ q
      → pos 0 ≤ℤ quantity_or_zero (db.get t i) +ℤ q
  grown_nonneg i t q n h = go (db.get t i) refl
    where
      go : (o : Option Inventory) → db.get t i ≡ o → pos 0 ≤ℤ quantity_or_zero o +ℤ q
      go none e = grind int_laws
      go (some r) e = grind (int_laws, n i r e)

  pub Increased-IsNonneg :
      (tenant : ℕ) (p : IncreaseParams) (s : Db db) (x : Result (ℕ × Inventory) × Db db)
      → Increased db tenant p s x
      → IsNonneg db s.inventory
      → IsNonneg db x.1.inventory
  Increased-IsNonneg tenant p s (err e, s') (same, _) n = rw same n
  Increased-IsNonneg tenant p s (ok (i, r), s') (h, q, at, old, w, _) n =
      Writes-IsNonneg db i r s.inventory s'.inventory w
        (rw q (grown_nonneg i s.inventory p.quantity n h)) n

  pub Increased-KeepsOthers :
      (tenant : ℕ) (p : IncreaseParams) (s : Db db) (x : Result (ℕ × Inventory) × Db db)
      → Increased db tenant p s x
      → KeepsOthers db tenant s.inventory x.1.inventory
  Increased-KeepsOthers tenant p s (err e, s') (same, _) =
      rw same (KeepsOthers-refl db tenant s.inventory)
  Increased-KeepsOthers tenant p s (ok (i, r), s') (h, q, at, old, w, _) =
      Writes-KeepsOthers db i tenant r s.inventory s'.inventory w old at.0

module _ (db : Prisma) (c : IsClient db) where
  -- However an adjustment ends, stock that was nowhere negative is nowhere negative, and the stock
  -- rows of every other tenant are as they were.
  pub apply_inventory_adjustment-IsNonneg :
      (tenant now : ℕ) (p : AdjustmentParams) (s : Db db)
      → IsNonneg db s.inventory
      → let s' = (apply_inventory_adjustment db tenant now p s).1 in
        IsNonneg db s'.inventory × KeepsOthers db tenant s.inventory s'.inventory
  apply_inventory_adjustment-IsNonneg tenant now p s n =
      let outcome = apply_inventory_adjustment-Adjusted db c tenant now p s in
      elim (Result-cases (adjustment_checks db tenant p s).0) [
        | inr (e, h) ↦
            rw (apply_inventory_adjustment-raises db c tenant now p s e h)
              (n, KeepsOthers-refl db tenant s.inventory)
        | inl (u, h) ↦ (
          Adjusted-IsNonneg db tenant p s _ outcome (adjustment_checks-nonneg db c tenant p s h) n,
          Adjusted-KeepsOthers db tenant p s _ outcome,
        )
      ]
