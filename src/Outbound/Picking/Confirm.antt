-- ===== src/Outbound/Picking/Confirm.antt =====
-- What confirmPickingTask guarantees on every path.
use mathlib.Core.Path.{subst}
use awmsom.Base.{
  ℕ, ◌≡◌, refl, ◌∙◌, List, ◌+ℤ◌, ◌==◌, not, arith, ok, err, Result, Action, ◌>>=◌, ◌>>◌, for_each,
  >>=-ok, raise_if, raise_if-ok, or_raise, or_raise-ok, gets, transaction, transaction-ok, Atomic,
  >>=-Atomic, gets-Atomic, or_raise-Reads, or_raise-Atomic, raise_if-Reads, raise_if-Atomic,
  transaction-Atomic, not_found, bad_request, picking_task_not_found, order_not_found,
  picking_not_in_progress,
}
use awmsom.Prisma.{Prisma, IsClient, find_by_id}
use awmsom.Schema.{Db, OutboundOrder, PickingTask, PickingTaskLine, is_picking}
use awmsom.Inventory.Stock.{IsNonneg, KeepsOthers, KeepsOthers-refl}
use awmsom.Outbound.Picking.{
  PickResult, pick_header, confirm_line, conclude_picking, confirm_body, confirm_picking_task,
  lines_of_task, order_of_task,
}
use awmsom.Outbound.Picking.Laws.{Picked, confirm_lines-Picked}

module _ (db : Prisma) where
  conclude_picking-stock :
      (tenant now i : ℕ) (task : PickingTask) (order_id : ℕ) (order : OutboundOrder) (s s' : Db db)
      → conclude_picking db tenant now i task order_id order s ≡ (ok tt, s')
      → (s'.inventory ≡ s.inventory) × (s'.movement_lines ≡ s.movement_lines)
  unfolding conclude_picking
  conclude_picking-stock tenant now i task order_id order s s' h = (ground arith, ground arith)

  confirm_picking_task-Atomic :
      (tenant now i : ℕ) (results : List PickResult)
      → Atomic (confirm_picking_task db tenant now i results)
  unfolding confirm_picking_task
  confirm_picking_task-Atomic tenant now i results =
      let body =
        λ (t : ℕ × PickingTask) (lines : List (ℕ × PickingTaskLine)) (o : ℕ × OutboundOrder).
          transaction (confirm_body db tenant now i t.1 lines o.0 o.1 results) in
      let check = λ (t : ℕ × PickingTask).
        raise_if {S = Db db} (not (is_picking t.1.status)) (bad_request picking_not_in_progress) in
      let fourth =
        λ (t : ℕ × PickingTask) (lines : List (ℕ × PickingTaskLine)) (o : ℕ × OutboundOrder).
          check t >> body t lines o in
      let third = λ (t : ℕ × PickingTask) (lines : List (ℕ × PickingTaskLine)).
        gets (order_of_task db t.1) >>= λ o.
        or_raise o (bad_request order_not_found) >>= fourth t lines in
      let second = λ (t : ℕ × PickingTask). gets (lines_of_task db i) >>= third t in
      gets-Atomic (λ s. find_by_id db i (λ r. r.tenant_id == tenant) s.picking_tasks)
        (λ t. or_raise t (not_found picking_task_not_found) >>= second)
        λ t.
          >>=-Atomic (or_raise t (not_found picking_task_not_found)) second (or_raise-Reads t _)
            (or_raise-Atomic t _)
            λ t. gets-Atomic (lines_of_task db i) (third t) λ lines.
              gets-Atomic (order_of_task db t.1)
                (λ o. or_raise o (bad_request order_not_found) >>= fourth t lines)
                λ o.
                  >>=-Atomic (or_raise o (bad_request order_not_found)) (fourth t lines)
                    (or_raise-Reads o _) (or_raise-Atomic o _)
                    λ o.
                      >>=-Atomic (check t) (λ u. body t lines o) (raise_if-Reads _ _)
                        (raise_if-Atomic _ _)
                        (λ u.
                          transaction-Atomic
                            (confirm_body db tenant now i t.1 lines o.0 o.1 results))

module _ (db : Prisma) (c : IsClient db) where
  confirm_body-Picked :
      (tenant now i : ℕ) (task : PickingTask) (lines : List (ℕ × PickingTaskLine)) (order_id : ℕ)
      (order : OutboundOrder) (results : List PickResult) (s s' : Db db)
      → confirm_body db tenant now i task lines order_id order results s ≡ (ok tt, s')
      → Picked db tenant s s'
  unfolding confirm_body
  confirm_body-Picked tenant now i task lines order_id order results s s' h =
      let (header, t) = db.create (pick_header tenant task) s.movement_headers in
      let s₁ : Db db = record s { movement_headers = t } in
      let (u, s₂, run, close) =
        >>=-ok (for_each results (confirm_line db tenant header lines))
          (λ u. conclude_picking db tenant now i task order_id order) s₁ s' tt h in
      let m = confirm_lines-Picked db c tenant header lines results s₁ s₂ run in
      let (stock, log) = conclude_picking-stock db tenant now i task order_id order s₂ s' close in
      record {
        balanced = rw (stock, log) m.balanced;
        nonneg = λ n. rw stock (m.nonneg n);
        others = rw stock m.others;
      }

  confirm_picking_task-ok :
      (tenant now i : ℕ) (results : List PickResult) (s s' : Db db)
      → confirm_picking_task db tenant now i results s ≡ (ok tt, s')
      → Picked db tenant s s'
  unfolding confirm_picking_task
  confirm_picking_task-ok tenant now i results s s' h =
      let row = find_by_id db i (λ r. r.tenant_id == tenant) s.picking_tasks in
      let body =
        λ (t : ℕ × PickingTask) (lines : List (ℕ × PickingTaskLine)) (o : ℕ × OutboundOrder).
          transaction (confirm_body db tenant now i t.1 lines o.0 o.1 results) in
      let check = λ (t : ℕ × PickingTask).
        raise_if {S = Db db} (not (is_picking t.1.status)) (bad_request picking_not_in_progress) in
      let third : ℕ × PickingTask → Db db → ℕ × OutboundOrder → Action (Db db) (Unit {0}) =
        λ t x o. check t >> body t (lines_of_task db i x) o in
      let second : ℕ × PickingTask → Action (Db db) (Unit {0}) =
        λ t x. (or_raise (order_of_task db t.1 x) (bad_request order_not_found) >>= third t x) x in
      let (t, s₁, h₁, k₁) =
        >>=-ok (or_raise row (not_found picking_task_not_found)) second s s' tt h in
      let e₁ = (or_raise-ok row (not_found picking_task_not_found) s s₁ t h₁).1 in
      let (o, s₂, h₂, k₂) =
        >>=-ok (or_raise (order_of_task db t.1 s₁) (bad_request order_not_found)) (third t s₁) s₁ s'
          tt k₁ in
      let e₂ = (or_raise-ok (order_of_task db t.1 s₁) (bad_request order_not_found) s₁ s₂ o h₂).1 in
      let lines = lines_of_task db i s₁ in
      let (u, s₃, h₃, k₃) = >>=-ok (check t) (λ u. body t lines o) s₂ s' tt k₂ in
      let e₃ = (raise_if-ok _ (bad_request picking_not_in_progress) s₂ s₃ u h₃).1 in
      confirm_body-Picked tenant now i t.1 lines o.0 o.1 results s s' (
        transaction-ok (confirm_body db tenant now i t.1 lines o.0 o.1 results) s s' tt
          (subst (λ x. body t lines o x ≡ (ok tt, s')) (e₃ ∙ e₂ ∙ e₁) k₃))

  -- However a confirmation ends, the stock of other tenants is as it was.
  pub confirm_picking_task-KeepsOthers :
      (tenant now i : ℕ) (results : List PickResult) (s : Db db)
      → KeepsOthers db tenant s.inventory
          (confirm_picking_task db tenant now i results s).1.inventory
  confirm_picking_task-KeepsOthers tenant now i results s =
      go (confirm_picking_task db tenant now i results s) refl
    where
      go :
          (x : Result (Unit {0}) × Db db)
          → confirm_picking_task db tenant now i results s ≡ x
          → KeepsOthers db tenant s.inventory x.1.inventory
      go (err e, s') h =
          rw (confirm_picking_task-Atomic db tenant now i results s s' e h)
            (KeepsOthers-refl db tenant s.inventory)
      go (ok tt, s') h = (confirm_picking_task-ok tenant now i results s s' h).others

  -- However a confirmation ends, the sum of all stock and of the quantities of all movement lines is
  -- as before, so that what has left the stock is logged, and stock that was nowhere negative is
  -- nowhere negative.
  pub confirm_picking_task-IsNonneg :
      (tenant now i : ℕ) (results : List PickResult) (s : Db db)
      → IsNonneg db s.inventory
      → let s' = (confirm_picking_task db tenant now i results s).1 in
        (db.sum (λ j r. r.quantity) s'.inventory +ℤ db.sum (λ j m. m.quantity) s'.movement_lines
          ≡ db.sum (λ j r. r.quantity) s.inventory +ℤ db.sum (λ j m. m.quantity) s.movement_lines)
        × IsNonneg db s'.inventory
  confirm_picking_task-IsNonneg tenant now i results s n =
      go (confirm_picking_task db tenant now i results s) refl
    where
      go :
          (x : Result (Unit {0}) × Db db)
          → confirm_picking_task db tenant now i results s ≡ x
          → (db.sum (λ j r. r.quantity) x.1.inventory
                +ℤ db.sum (λ j m. m.quantity) x.1.movement_lines
              ≡ db.sum (λ j r. r.quantity) s.inventory
                +ℤ db.sum (λ j m. m.quantity) s.movement_lines)
            × IsNonneg db x.1.inventory
      go (err e, s') h = rw (confirm_picking_task-Atomic db tenant now i results s s' e h) (refl, n)
      go (ok tt, s') h =
          let m = confirm_picking_task-ok tenant now i results s s' h in (m.balanced, m.nonneg n)
