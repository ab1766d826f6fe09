-- ===== src/Inventory/CycleCount/Submit/Booking.antt =====
-- The loop of submitCycleCount that adjusts the stock.
use awmsom.Base.{
  ℕ, ◌≡◌, refl, ◌∙◌, inl, inr, Option, none, some, List, [], ◌∷◌, pos, ◌+ℤ◌, eqb_ℤ, ◌==◌, int_laws,
  ok, err, Result, for_each, Bool-cases, Option-cases, >>=-relates, pure,
}
use awmsom.Prisma.{Prisma, IsClient, find_by_id}
use awmsom.Schema.{Db, Inventory, CycleCountTask}
use awmsom.Inventory.Stock.{IsNonneg, KeepsOthers, KeepsOthers-refl, KeepsOthers-trans}
use awmsom.Inventory.Adjust.{AdjustmentParams, apply_inventory_adjustment}
use awmsom.Inventory.Adjust.Laws.{
  Adjusted, stock_total, adjustment_total, apply_inventory_adjustment-Adjusted,
  apply_inventory_adjustment-counts,
}
use awmsom.Inventory.Safety.{apply_inventory_adjustment-IsNonneg, Adjusted-KeepsOthers}
use awmsom.Inventory.CycleCount.Submit.{Submitted, book_line, line_adjustment}

module _ (db : Prisma) where
  -- The stock has changed as the adjustments say, is nowhere negative if it was not before, and is
  -- the same for the other tenants; the cycle counts are as they were.
  pub record Booked (tenant : ℕ) (s s' : Db db) : Type 0 where
    pub balanced :
        stock_total db s' +ℤ adjustment_total db s ≡ stock_total db s +ℤ adjustment_total db s'
    pub nonneg : IsNonneg db s.inventory → IsNonneg db s'.inventory
    pub others : KeepsOthers db tenant s.inventory s'.inventory
    pub lines : s'.cycle_count_lines ≡ s.cycle_count_lines
    pub tasks : s'.cycle_count_tasks ≡ s.cycle_count_tasks

  pub Booked-refl : (tenant : ℕ) (s : Db db) → Booked tenant s s
  Booked-refl tenant s = record {
    balanced = refl;
    nonneg = λ n. n;
    others = KeepsOthers-refl db tenant s.inventory;
    lines = refl;
    tasks = refl;
  }

  pub Booked-trans :
      {tenant : ℕ} {s s₁ s₂ : Db db} → Booked tenant s s₁ → Booked tenant s₁ s₂ → Booked tenant s s₂
  Booked-trans b d = record {
    balanced = grind (int_laws, b.balanced, d.balanced);
    nonneg = λ n. d.nonneg (b.nonneg n);
    others = KeepsOthers-trans db b.others d.others;
    lines = d.lines ∙ b.lines;
    tasks = d.tasks ∙ b.tasks;
  }

  balanced_of :
      (tenant : ℕ) (p : AdjustmentParams) (s : Db db) (x : Result (Option (ℕ × Inventory)) × Db db)
      → Adjusted db tenant p s x
      → stock_total db x.1 +ℤ adjustment_total db s ≡ stock_total db s +ℤ adjustment_total db x.1
  balanced_of tenant p s (err e, s') (same, _) = rw same refl
  balanced_of tenant p s (ok none, s') (same, _, _) = rw same refl
  balanced_of tenant p s (ok (some (i, r)), s') (q, at, old, w, b) = b

module _ (db : Prisma) (c : IsClient db) where
  pub apply_inventory_adjustment-Booked :
      (tenant now : ℕ) (p : AdjustmentParams) (s : Db db)
      → Booked db tenant s (apply_inventory_adjustment db tenant now p s).1
  apply_inventory_adjustment-Booked tenant now p s =
      let outcome = apply_inventory_adjustment-Adjusted db c tenant now p s in
      let (lines, tasks) = apply_inventory_adjustment-counts db c tenant now p s in
      record {
        balanced = balanced_of db tenant p s _ outcome;
        nonneg = λ n. (apply_inventory_adjustment-IsNonneg db c tenant now p s n).0;
        others = Adjusted-KeepsOthers db tenant p s _ outcome;
        lines = lines;
        tasks = tasks;
      }

  book_line-Booked :
      (tenant now i : ℕ) (task : CycleCountTask) (x : Submitted) (s : Db db)
      → Booked db tenant s (book_line db tenant now i task x s).1
  unfolding book_line
  book_line-Booked tenant now i task x s = elim (Bool-cases (eqb_ℤ x.difference_qty (pos 0))) [
    | inl same ↦ rw same (Booked-refl db tenant s)
    | inr differs ↦
        elim (Option-cases
          (find_by_id db x.line_id (λ r. r.tenant_id == tenant) s.cycle_count_lines)) [
            | inl missing ↦ rw (differs, missing) (Booked-refl db tenant s)
            | inr ((j, line), e) ↦
                rw (differs, e)
                  (>>=-relates (Booked db tenant)
                    (apply_inventory_adjustment db tenant now
                      (line_adjustment db tenant i task x line s))
                    (λ y. pure tt) s (λ s₁ s₂ b d. Booked-trans db b d)
                    (apply_inventory_adjustment-Booked tenant now
                      (line_adjustment db tenant i task x line s) s)
                    (λ y s₁. Booked-refl db tenant s₁))
          ]
  ]

  -- The whole loop, however it ends.
  pub book_lines-Booked :
      (tenant now i : ℕ) (task : CycleCountTask) (xs : List Submitted) (s : Db db)
      → Booked db tenant s (for_each xs (book_line db tenant now i task) s).1
  unfolding for_each
  book_lines-Booked tenant now i task [] s = Booked-refl db tenant s
  book_lines-Booked tenant now i task (x ∷ xs) s =
      >>=-relates (Booked db tenant) (book_line db tenant now i task x)
        (λ u. for_each xs (book_line db tenant now i task)) s (λ s₁ s₂ b d. Booked-trans db b d)
        (book_line-Booked tenant now i task x s) (λ u s₁. book_lines-Booked tenant now i task xs s₁)
