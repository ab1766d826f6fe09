-- ===== src/Inbound/Confirm/Line.antt =====
-- One round of the loop of confirmReceipt.
use mathlib.Core.Path.{subst}
use awmsom.Base.{
  ℕ, ◌≡◌, ◌∙◌, ap, Bool, false, Option, none, some, List, ℤ, pos, ◌+ℤ◌, leb_ℤ, ◌==◌, find, arith,
  ok, Action, ◌>>◌, >>=-ok, or_raise, or_raise-ok, pure, not_found, receipt_line_not_found,
}
use awmsom.Prisma.{Prisma}
use awmsom.Schema.{Db, Inventory, InboundReceiptLine}
use awmsom.Inventory.Increase.{increase_stock}
use awmsom.Inbound.Tables.{or_else, update_inbound_receipt_line}
use awmsom.Inbound.Policy.{max_over_pct, exceeds, resolve_inventory_policy}
use awmsom.Inbound.Confirm.{
  ReceivedLine, Arrival, receive_qty, arrival_params, received_line, batch_for, receive_checks,
  receive_writes, receive_line,
}

module _ (db : Prisma) (strict : Bool) where
  batch_for-frame :
      (tenant : ℕ) (line : InboundReceiptLine) (code expiry : Option ℕ) (s s' : Db db)
      (b : Option ℕ)
      → batch_for db strict tenant line code expiry s ≡ (ok b, s')
      → s' ≡ record s { batches = s'.batches }
  batch_for-frame tenant line none expiry s s' b h = ground arith
  batch_for-frame tenant line (some code) expiry s s' b h = ground arith

  pub receive_checks-ok :
      (tenant warehouse : ℕ) (line : InboundReceiptLine) (q : ℤ) (code expiry : Option ℕ)
      (s s' : Db db)
      → receive_checks db strict tenant warehouse line q code expiry s ≡ (ok tt, s')
      → (s' ≡ s)
        × (leb_ℤ q (pos 0) ≡ false)
        × (exceeds line.expected_qty
              (line.received_qty +ℤ q)
              (max_over_pct (resolve_inventory_policy db tenant warehouse line.product_id s))
            ≡ false)
  unfolding receive_checks
  receive_checks-ok tenant warehouse line q code expiry s s' h =
      (ground arith, ground arith, ground arith)

  pub update_line-ok :
      (i : ℕ) (f : InboundReceiptLine → InboundReceiptLine) (l : InboundReceiptLine) (s s' : Db db)
      (u : Unit {0})
      → update_inbound_receipt_line db i f s ≡ (ok u, s')
      → db.get s.inbound_receipt_lines i ≡ some l
      → s' ≡ record s { inbound_receipt_lines = db.write i (f l) s.inbound_receipt_lines }
  update_line-ok i f l s s' u h g = ground arith

  -- The tables between the writes of a successful round.
  pub receive_writes-ok :
      (tenant now warehouse location i : ℕ) (line : InboundReceiptLine) (q : ℤ)
      (code expiry : Option ℕ) (s s' : Db db) (a : Arrival)
      → receive_writes db strict tenant now warehouse location (i, line) q code expiry s
        ≡ (ok a, s')
      → db.get s.inbound_receipt_lines i ≡ some line
      → (batch : Option ℕ) × (s₁ : Db db) × (r : ℕ × Inventory) × (s₁ ≡ record s {
        batches = s₁.batches;
        inbound_receipt_lines =
            db.write i (received_line line q code expiry batch) s.inbound_receipt_lines;
      })
        × (increase_stock db tenant now (arrival_params warehouse location line batch q) s₁
            ≡ (ok r, s'))
        × (a.quantity ≡ q)
  unfolding receive_writes
  receive_writes-ok tenant now warehouse location i line q code expiry s s' a h g =
      let booked : Option ℕ → InboundReceiptLine → InboundReceiptLine = λ b l. record l {
        received_qty = line.received_qty +ℤ q;
        batch_code = code;
        expiry_date = expiry;
        batch_id = or_else b l.batch_id;
      } in
      let arrival : Option ℕ → Arrival = λ b. record {
        product_id = line.product_id;
        batch_id = b;
        to_location_id = location;
        quantity = q;
        uom = line.uom;
      } in
      let increase = λ (b : Option ℕ).
        increase_stock db tenant now (arrival_params warehouse location line b q) in
      let second : Option ℕ → Action (Db db) Arrival = λ b. increase b >> pure (arrival b) in
      let (b, s₁, h₁, k₁) =
        >>=-ok (batch_for db strict tenant line code expiry)
          (λ b. update_inbound_receipt_line db i (booked b) >> second b) s s' a h in
      let e₁ = batch_for-frame tenant line code expiry s s₁ b h₁ in
      let (u, s₂, h₂, k₂) =
        >>=-ok (update_inbound_receipt_line db i (booked b)) (λ u. second b) s₁ s' a k₁ in
      let g₁ : db.get s₁.inbound_receipt_lines i ≡ some line =
        ap (λ x. db.get x.inbound_receipt_lines i) e₁ ∙ g in
      let e₂ = update_line-ok i (booked b) line s₁ s₂ u h₂ g₁ in
      let (r, s₃, h₃, k₃) = >>=-ok (increase b) (λ r. pure (arrival b)) s₂ s' a k₂ in
      (b, s₂, r, ground (arith, e₁, e₂), ground (arith, h₃, k₃), ground (arith, k₃))

  pub receive_line-ok :
      (tenant now warehouse location : ℕ) (lines : List (ℕ × InboundReceiptLine))
      (payload : ReceivedLine) (s s' : Db db) (a : Arrival)
      → receive_line db strict tenant now warehouse location lines payload s ≡ (ok a, s')
      → (x : ℕ × InboundReceiptLine) × (code : Option ℕ) × (expiry : Option ℕ) × (find
            (λ x. x.0 == payload.line_id)
            lines
          ≡ some x)
        × (receive_checks db strict tenant warehouse x.1 (receive_qty payload x.1) code expiry s
            ≡ (ok tt, s))
        × (receive_writes db strict tenant now warehouse location x
              (receive_qty payload x.1)
              code
              expiry
              s
            ≡ (ok a, s'))
  unfolding receive_line
  receive_line-ok tenant now warehouse location lines payload s s' a h =
      let row = find (λ x. x.0 == payload.line_id) lines in
      let code = λ (x : ℕ × InboundReceiptLine). or_else payload.batch_code x.1.batch_code in
      let expiry = λ (x : ℕ × InboundReceiptLine). or_else payload.expiry_date x.1.expiry_date in
      let check = λ (x : ℕ × InboundReceiptLine).
        receive_checks db strict tenant warehouse x.1 (receive_qty payload x.1) (code x)
          (expiry x) in
      let write = λ (x : ℕ × InboundReceiptLine).
        receive_writes db strict tenant now warehouse location x (receive_qty payload x.1) (code x)
          (expiry x) in
      let (x, s₁, h₁, k₁) =
        >>=-ok (or_raise row (not_found receipt_line_not_found)) (λ x. check x >> write x) s s' a
          h in
      let (found, e₁) = or_raise-ok row (not_found receipt_line_not_found) s s₁ x h₁ in
      let (u, s₂, h₂, k₂) = >>=-ok (check x) (λ u. write x) s₁ s' a k₁ in
      let e₂ =
        (receive_checks-ok tenant warehouse x.1 (receive_qty payload x.1) (code x) (expiry x) s₁ s₂
          h₂).0 in
      (
        x,
        code x,
        expiry x,
        found,
        subst (λ y. check x y ≡ (ok tt, y)) e₁ (subst (λ y. check x s₁ ≡ (ok tt, y)) e₂ h₂),
        subst (λ y. write x y ≡ (ok a, s')) (e₂ ∙ e₁) k₂,
      )
