-- ===== src/Outbound/Picking/Laws.antt =====
-- What confirmPickingTask does to the stock.
use mathlib.Core.Path.{subst}
use awmsom.Base.{
  ℕ, ◌≡◌, refl, ◌∙◌, ap, Option, none, some, List, [], ◌∷◌, ℤ, pos, ◌+ℤ◌, ◌-ℤ◌, ◌≤ℤ◌, ◌==◌, find,
  arith, int_laws, ok, for_each, >>=-ok,
}
use awmsom.Prisma.{Prisma, IsClient}
use awmsom.Schema.{Db, Inventory, PickingTaskLine, reserved}
use awmsom.Inventory.Tables.{has_key}
use awmsom.Inventory.Stock.{IsNonneg, KeepsOthers, KeepsOthers-refl, KeepsOthers-trans}
use awmsom.Outbound.Picking.{PickResult, pick_movement, take_reserved, confirm_line}

module _ (db : Prisma) where
  -- What has left the stock stands in the movement lines, and stock is not negative if it was not.
  pub record Picked (tenant : ℕ) (s s' : Db db) : Type 0 where
    pub balanced :
        db.sum (λ i r. r.quantity) s'.inventory +ℤ db.sum (λ i m. m.quantity) s'.movement_lines
        ≡ db.sum (λ i r. r.quantity) s.inventory +ℤ db.sum (λ i m. m.quantity) s.movement_lines
    pub nonneg : IsNonneg db s.inventory → IsNonneg db s'.inventory
    pub others : KeepsOthers db tenant s.inventory s'.inventory

  take_reserved-ok :
      (tenant header i j : ℕ) (line : PickingTaskLine) (q : ℤ) (r : Inventory) (s s' : Db db)
      → take_reserved db tenant header (i, line) q (j, r) s ≡ (ok tt, s')
      → db.get s.inventory j ≡ some r
      → (s'.inventory ≡ db.write j (record r { quantity = r.quantity -ℤ q }) s.inventory)
        × (s'.movement_lines ≡ (db.create (pick_movement tenant header line q) s.movement_lines).1)
  unfolding take_reserved
  take_reserved-ok tenant header i j line q r s s' h e = (ground arith, ground arith)

  confirm_line-ok :
      (tenant header : ℕ) (lines : List (ℕ × PickingTaskLine)) (dto : PickResult) (s s' : Db db)
      → confirm_line db tenant header lines dto s ≡ (ok tt, s')
      → (x : ℕ × PickingTaskLine) × (y : ℕ × Inventory) × (db.find_first
            (λ i r.
              has_key tenant x.1.product_id x.1.batch_id x.1.from_location_id x.1.uom reserved r)
            s.inventory
          ≡ some y)
        × (dto.quantity_picked ≤ℤ y.1.quantity)
        × (take_reserved db tenant header x dto.quantity_picked y s ≡ (ok tt, s'))
  unfolding confirm_line
  confirm_line-ok tenant header lines dto s s' h =
      found_line (find (λ x. x.0 == dto.picking_task_line_id) lines) refl
    where
      stock : ℕ × PickingTaskLine → Option (ℕ × Inventory)
      stock x =
          db.find_first
            (λ i r.
              has_key tenant x.1.product_id x.1.batch_id x.1.from_location_id x.1.uom reserved r)
            s.inventory

      found_stock :
          (x : ℕ × PickingTaskLine) (o : Option (ℕ × Inventory))
          → find (λ x. x.0 == dto.picking_task_line_id) lines ≡ some x
          → stock x ≡ o
          → (x : ℕ × PickingTaskLine) × (y : ℕ × Inventory) × (stock x ≡ some y)
            × (dto.quantity_picked ≤ℤ y.1.quantity)
            × (take_reserved db tenant header x dto.quantity_picked y s ≡ (ok tt, s'))
      found_stock x none e k = absurd (ground arith)
      found_stock x (some y) e k = (x, y, k, ground arith, ground arith)

      found_line :
          (o : Option (ℕ × PickingTaskLine))
          → find (λ x. x.0 == dto.picking_task_line_id) lines ≡ o
          → (x : ℕ × PickingTaskLine) × (y : ℕ × Inventory) × (stock x ≡ some y)
            × (dto.quantity_picked ≤ℤ y.1.quantity)
            × (take_reserved db tenant header x dto.quantity_picked y s ≡ (ok tt, s'))
      found_line none e = absurd (ground arith)
      found_line (some x) e = found_stock x (stock x) e refl

left_nonneg : (a q : ℤ) → q ≤ℤ a → pos 0 ≤ℤ a -ℤ q
left_nonneg a q h = omega int_laws

moved_out : (new old a q m m' : ℤ) → new +ℤ a ≡ old +ℤ (a -ℤ q) → m' ≡ m +ℤ q → new +ℤ m' ≡ old +ℤ m
moved_out new old a q m m' h k = grind int_laws

module _ (db : Prisma) (c : IsClient db) where
  take_reserved-Picked :
      (tenant header i j : ℕ) (line : PickingTaskLine) (q : ℤ) (r : Inventory) (s s' : Db db)
      → take_reserved db tenant header (i, line) q (j, r) s ≡ (ok tt, s')
      → db.get s.inventory j ≡ some r
      → q ≤ℤ r.quantity
      → r.tenant_id ≡ tenant
      → Picked db tenant s s'
  take_reserved-Picked tenant header i j line q r s s' h e le own =
      let (stock, log) = take_reserved-ok db tenant header i j line q r s s' h e in
      let r' : Inventory = record r { quantity = r.quantity -ℤ q } in
      record {
        balanced =
            rw (stock, log)
              (moved_out _ _ r.quantity q _ _ (c.sum-write (λ i r. r.quantity) j r' r s.inventory e)
                (c.sum-create (λ i m. m.quantity) (pick_movement tenant header line q)
                  s.movement_lines));
        nonneg = λ n k x g.
            ground (
              arith,
              stock,
              c.get-write j r' r s.inventory k e,
              n k x,
              left_nonneg r.quantity q le,
            );
        others = (
          λ k x g ne. ground (arith, stock, c.get-write j r' r s.inventory k e, own),
          λ k x g ne. ground (arith, stock, c.get-write j r' r s.inventory k e, own),
        );
      }

  confirm_line-Picked :
      (tenant header : ℕ) (lines : List (ℕ × PickingTaskLine)) (dto : PickResult) (s s' : Db db)
      → confirm_line db tenant header lines dto s ≡ (ok tt, s')
      → Picked db tenant s s'
  confirm_line-Picked tenant header lines dto s s' h =
      let ((i, line), (j, r), e, le, run) = confirm_line-ok db tenant header lines dto s s' h in
      take_reserved-Picked tenant header i j line dto.quantity_picked r s s' run
        (c.found _ s.inventory j r e).0 le (ground (arith, (c.found _ s.inventory j r e).1))

  pub confirm_lines-Picked :
      (tenant header : ℕ) (lines : List (ℕ × PickingTaskLine)) (results : List PickResult)
      (s s' : Db db)
      → for_each results (confirm_line db tenant header lines) s ≡ (ok tt, s')
      → Picked db tenant s s'
  unfolding for_each
  confirm_lines-Picked tenant header lines [] s s' h =
      subst (Picked db tenant s) (ap (λ x. x.1) h) (record {
        balanced = refl;
        nonneg = λ n. n;
        others = KeepsOthers-refl db tenant s.inventory;
      })
  confirm_lines-Picked tenant header lines (x ∷ results) s s' h =
      let (u, s₁, first, rest) =
        >>=-ok (confirm_line db tenant header lines x)
          (λ u. for_each results (confirm_line db tenant header lines)) s s' tt h in
      let m = confirm_line-Picked tenant header lines x s s₁ first in
      let n = confirm_lines-Picked tenant header lines results s₁ s' rest in
      record {
        balanced = n.balanced ∙ m.balanced;
        nonneg = λ h. n.nonneg (m.nonneg h);
        others = KeepsOthers-trans db m.others n.others;
      }
