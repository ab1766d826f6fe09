-- ===== src/Inbound/Confirm/End.antt =====
-- The end of confirmReceipt: the movement and the status.
use awmsom.Base.{
  ℕ, ◌≡◌, refl, sym, ◌∙◌, ap, Bool, true, false, some, ◌⊎◌, inl, inr, List, [], ◌∷◌, ℤ, ◌+ℤ◌, ◌==◌,
  if◌then◌else◌, every, arith, int_laws, +ℤ_zero, ok, for_each, pure, ◌>>◌,
}
use awmsom.Prisma.{Prisma, IsClient}
use awmsom.Schema.{
  Db, InboundReceiptStatus, is_confirmable, is_settled, InboundReceipt, MovementLine,
}
use awmsom.Inventory.Tables.{create_movement_line}
use awmsom.Inventory.CycleCount.Tasks.{get_tenant_config}
use awmsom.Inbound.Tables.{
  is_received, receipt_status, received_date, receipt_header, tenant_lines_of_receipt,
}
use awmsom.Inbound.Confirm.{Arrival, arrival_movement, conclude_receipt}
use awmsom.Inbound.Confirm.Loop.{arrived}

-- The receipt's row after a confirmation, as the code writes it.
abbrev pub written_receipt : ℕ → Bool → InboundReceipt → InboundReceipt
written_receipt now all receipt = record receipt {
  status = receipt_status all;
  received_at = received_date all now receipt.received_at;
}

-- A receipt of which all has arrived is received, now; else it is partially received.
abbrev pub concluded : ℕ → Bool → InboundReceipt → InboundReceipt
concluded now true receipt = record receipt {
  status = InboundReceiptStatus.received;
  received_at = some now;
}
concluded now false receipt = record receipt { status = InboundReceiptStatus.partially_received }

pub written_receipt-concluded :
    (now : ℕ) (all : Bool) (receipt : InboundReceipt)
    → written_receipt now all receipt ≡ concluded now all receipt
written_receipt-concluded now true receipt = refl
written_receipt-concluded now false receipt = refl

-- A receipt that is not received yet, in whole or in part.
abbrev pub IsOpen : InboundReceiptStatus → Type 0
IsOpen status =
    (status ≡ InboundReceiptStatus.draft) ⊎ (status ≡ InboundReceiptStatus.partially_received)

pub is_confirmable-IsOpen : (x : InboundReceiptStatus) → is_confirmable x ≡ true → IsOpen x
is_confirmable-IsOpen InboundReceiptStatus.draft h = inl refl
is_confirmable-IsOpen InboundReceiptStatus.partially_received h = inr refl
is_confirmable-IsOpen _ h = cc

pub is_settled-IsOpen : (x : InboundReceiptStatus) → is_settled x ≡ false → IsOpen x
is_settled-IsOpen InboundReceiptStatus.draft h = inl refl
is_settled-IsOpen InboundReceiptStatus.partially_received h = inr refl
is_settled-IsOpen _ h = cc

module _ (db : Prisma) where
  abbrev pub logged_total : Db db → ℤ
  logged_total s = db.sum (λ i m. m.quantity) s.movement_lines

  for_each-nil :
      (tenant header : ℕ) (s : Db db)
      → for_each [] (λ x. create_movement_line db (arrival_movement tenant header x) >> pure tt) s
        ≡ (ok tt, s)
  unfolding for_each
  for_each-nil tenant header s = refl

  for_each-cons :
      (tenant header : ℕ) (x : Arrival) (xs : List Arrival) (s : Db db)
      → for_each
          (x ∷ xs)
          (λ x. create_movement_line db (arrival_movement tenant header x) >> pure tt)
          s
        ≡ for_each xs
            (λ x. create_movement_line db (arrival_movement tenant header x) >> pure tt)
            (record s {
              movement_lines = (db.create (arrival_movement tenant header x) s.movement_lines).1;
            })
  unfolding for_each
  for_each-cons tenant header x xs s = refl

  pub get_tenant_config-frame :
      (tenant : ℕ) (s : Db db)
      → (get_tenant_config db tenant s).1
        ≡ record s { tenant_configs = (get_tenant_config db tenant s).1.tenant_configs }
  unfolding get_tenant_config
  get_tenant_config-frame tenant s = ground arith

logged_more : (a b c q d : ℤ) → b ≡ a +ℤ q → c ≡ b +ℤ d → c ≡ a +ℤ (q +ℤ d)
logged_more a b c q d h k = grind int_laws

module _ (db : Prisma) (c : IsClient db) where
  pub log_arrivals :
      (tenant header : ℕ) (xs : List Arrival) (s : Db db)
      → (t : db.Table MovementLine) × (for_each xs
            (λ x. create_movement_line db (arrival_movement tenant header x) >> pure tt)
            s
          ≡ (ok tt, record s { movement_lines = t }))
        × (db.sum (λ i m. m.quantity) t ≡ logged_total db s +ℤ arrived xs)
  log_arrivals tenant header [] s =
      (s.movement_lines, for_each-nil db tenant header s, sym (+ℤ_zero _))
  log_arrivals tenant header (x ∷ xs) s =
      let row = arrival_movement tenant header x in
      let s₁ : Db db = record s { movement_lines = (db.create row s.movement_lines).1 } in
      let (t, run, total) = log_arrivals tenant header xs s₁ in
      (
        t,
        for_each-cons db tenant header x xs s ∙ run,
        logged_more _ _ _ x.quantity (arrived xs)
            (c.sum-create (λ i m. m.quantity) row s.movement_lines) total,
      )

  -- What the end of a confirmation does to the tables.
  pub record Concludes (tenant now id : ℕ) (receipt : InboundReceipt) (d : ℤ) (all : Bool)
      (s s' : Db db) : Type 0 where
    pub stock : s'.inventory ≡ s.inventory
    pub lines : s'.inbound_receipt_lines ≡ s.inbound_receipt_lines
    pub logged : logged_total db s' ≡ logged_total db s +ℤ d
    pub receipts :
        (j : ℕ)
        → db.get s'.inbound_receipts j
          ≡ (if id == j then some (concluded now all receipt) else db.get s.inbound_receipts j)
    pub status : all ≡ every (λ x. is_received x.1) (tenant_lines_of_receipt db tenant id s)

  pub conclude_receipt-ok :
      (tenant now id : ℕ) (strict : Bool) (receipt : InboundReceipt) (xs : List Arrival)
      (s s' : Db db) (all : Bool)
      → conclude_receipt db strict tenant now id receipt xs s ≡ (ok all, s')
      → db.get s.inbound_receipts id ≡ some receipt
      → Concludes tenant now id receipt (arrived xs) all s s'
  unfolding conclude_receipt
  conclude_receipt-ok tenant now id strict receipt xs s s' all h g =
      let (header, headers) =
        db.create (receipt_header tenant receipt.warehouse_id id) s.movement_headers in
      let s₁ : Db db = record s { movement_headers = headers } in
      let (t, run, total) = log_arrivals tenant header xs s₁ in
      let r = written_receipt now all receipt in
      let same : all ≡ every (λ x. is_received x.1) (tenant_lines_of_receipt db tenant id s) =
        ground (arith, h, run) in
      let e' : s'
          ≡ record s₁ { movement_lines = t; inbound_receipts = db.write id r s.inbound_receipts } =
        ground (arith, h, run, g) in
      record {
        stock = ap (λ x. x.inventory) e';
        lines = ap (λ x. x.inbound_receipt_lines) e';
        logged = rw e' total;
        receipts = λ j.
            rw e' (c.get-write id r receipt s.inbound_receipts j g)
            ∙ ap (λ x. if id == j then some x else db.get s.inbound_receipts j)
                (written_receipt-concluded now all receipt);
        status = same;
      }
