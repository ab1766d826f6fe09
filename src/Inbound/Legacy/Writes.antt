-- ===== src/Inbound/Legacy/Writes.antt =====
-- What the writes of receiveLegacyLine do.
use mathlib.Core.Path.{subst}
use awmsom.Base.{
  ℕ, ◌≡◌, refl, sym, ◌∙◌, ap, Bool, true, false, Option, none, some, List, [], ◌∷◌, map, ℤ, pos,
  ◌+ℤ◌, ◌-ℤ◌, ◌≤ℤ◌, leb_ℤ, ◌==◌, if◌then◌else◌, every, includes, Bool-cases, inl, inr, All, arith,
  int_laws, ok, Action, pure, ◌>>=◌, ◌>>◌, >>=-ok, ==_iff,
}
use awmsom.Prisma.{Prisma, IsClient, find_many-found}
use awmsom.Schema.{Db, Inventory, InboundReceipt, InboundReceiptLine, Product, is_settled}
use awmsom.Inventory.Tables.{create_movement_header, create_movement_line}
use awmsom.Inventory.Stock.{IsNonneg, KeepsOthers}
use awmsom.Inventory.Increase.{increase_stock}
use awmsom.Inventory.Increase.Laws.{increase_stock-Frames}
use awmsom.Inbound.Tables.{
  or_else, is_received, receipt_status, received_date, receipt_header, lines_of_receipt,
  update_inbound_receipt, update_inbound_receipt_line,
}
use awmsom.Inbound.Confirm.{Arrival, arrival_params, arrival_movement}
use awmsom.Inbound.Confirm.Line.{update_line-ok}
use awmsom.Inbound.Confirm.Loop.{
  stock_total, received_total, IsReceivedWithin, arrived-Received, written-IsReceivedWithin,
}
use awmsom.Inbound.Confirm.End.{
  logged_total, concluded, written_receipt, written_receipt-concluded, IsOpen, is_settled-IsOpen,
}
use awmsom.Inbound.Legacy.{
  final_received, delta_qty, with_received, legacy_arrival, legacy_batch, legacy_writes,
}

-- The row of the line after a delivery.
abbrev legacy_row : InboundReceiptLine → ℤ → Option ℕ → Option ℕ → InboundReceiptLine
legacy_row line quantity code batch = record line {
  received_qty = final_received line quantity;
  batch_code = code;
  batch_id = or_else (or_else batch line.batch_id) line.batch_id;
}

final_received-capped :
    (line : InboundReceiptLine) (quantity : ℤ) → final_received line quantity ≤ℤ line.expected_qty
final_received-capped line quantity = ground arith

delta_back : (a b : ℤ) → a ≡ b +ℤ (a -ℤ b)
delta_back a b = grind int_laws

module _ (db : Prisma) (strict : Bool) where
  legacy_batch-frame :
      (tenant product_id : ℕ) (product : Product) (code : Option ℕ) (s s' : Db db) (b : Option ℕ)
      → legacy_batch db strict tenant product_id product code s ≡ (ok b, s')
      → s' ≡ record s { batches = s'.batches }
  legacy_batch-frame tenant product_id product none s s' b h = ground arith
  legacy_batch-frame tenant product_id product (some code) s s' b h = ground arith

  -- The tables after the movement and the status, from those after the increase.
  abbrev legacy_end : ℕ → ℕ → ℕ × InboundReceipt → Arrival → Bool → Action (Db db) Bool
  legacy_end tenant now receipt x all = do
    header ← create_movement_header db (receipt_header tenant receipt.1.warehouse_id receipt.0)
    create_movement_line db (arrival_movement tenant header x)
    update_inbound_receipt db receipt.0 (λ r. record r {
      status = receipt_status all;
      received_at = received_date all now receipt.1.received_at;
    })
    pure all

  -- What the writes do.
  legacy_writes-ok :
      (tenant now i location : ℕ) (receipt : ℕ × InboundReceipt)
      (lines : List (ℕ × InboundReceiptLine)) (line : InboundReceiptLine) (product : Product)
      (quantity : ℤ) (code : Option ℕ) (s s' : Db db) (all : Bool)
      → legacy_writes db strict tenant now receipt lines (i, line) location product quantity code s
        ≡ (ok all, s')
      → db.get s.inbound_receipt_lines i ≡ some line
      → (batch : Option ℕ) × (s₁ : Db db) × (s₂ : Db db) × (r : ℕ × Inventory) × (s₁ ≡ record s {
        batches = s₁.batches;
        inbound_receipt_lines =
            db.write i (legacy_row line quantity code batch) s.inbound_receipt_lines;
      })
        × (increase_stock db tenant now
              (arrival_params receipt.1.warehouse_id location line batch (delta_qty line quantity))
              s₁
            ≡ (ok r, s₂))
        × (legacy_end tenant now receipt
              (legacy_arrival location line batch (delta_qty line quantity))
              (every
                (λ x. is_received x.1)
                (map (with_received i (final_received line quantity)) lines))
              s₂
            ≡ (ok all, s'))
  unfolding legacy_writes
  legacy_writes-ok tenant now i location receipt lines line product quantity code s s' all h g =
      let q = delta_qty line quantity in
      let done =
        every (λ x. is_received x.1) (map (with_received i (final_received line quantity)) lines) in
      let booked : Option ℕ → InboundReceiptLine → InboundReceiptLine = λ b l. record l {
        received_qty = final_received line quantity;
        batch_code = code;
        batch_id = or_else (or_else b line.batch_id) l.batch_id;
      } in
      let increase = λ (b : Option ℕ).
        increase_stock db tenant now (arrival_params receipt.1.warehouse_id location line b q) in
      let end =
        λ (b : Option ℕ). legacy_end tenant now receipt (legacy_arrival location line b q) done in
      let (b, s₁, h₁, k₁) =
        >>=-ok (legacy_batch db strict tenant line.product_id product code)
          (λ b. update_inbound_receipt_line db i (booked b) >> (increase b >> end b)) s s' all h in
      let e₁ = legacy_batch-frame tenant line.product_id product code s s₁ b h₁ in
      let (u, s₂, h₂, k₂) =
        >>=-ok (update_inbound_receipt_line db i (booked b)) (λ u. increase b >> end b) s₁ s' all
          k₁ in
      let g₁ : db.get s₁.inbound_receipt_lines i ≡ some line =
        ap (λ x. db.get x.inbound_receipt_lines i) e₁ ∙ g in
      let e₂ = update_line-ok db strict i (booked b) line s₁ s₂ u h₂ g₁ in
      let (r, s₃, h₃, k₃) = >>=-ok (increase b) (λ r. end b) s₂ s' all k₂ in
      (b, s₂, s₃, r, ground (arith, e₁, e₂), h₃, k₃)

module _ (db : Prisma) (c : IsClient db) where
  -- Each line that was read is received once the new quantity is booked.
  each_received :
      (i k : ℕ) (q : ℤ) (l : InboundReceiptLine) (t : db.Table InboundReceiptLine)
      (lines : List (ℕ × InboundReceiptLine))
      → every (λ x. is_received x.1) (map (with_received i q) lines) ≡ true
      → includes (map (λ x. x.0) lines) k ≡ true
      → All (λ x. db.get t x.0 ≡ some x.1) lines
      → db.get t k ≡ some l
      → is_received (with_received i q (k, l)).1 ≡ true
  each_received i k q l t [] h inside there g = cc
  each_received i k q l t ((j, x) ∷ lines) h inside (e, there) g = elim (Bool-cases (j == k)) [
    | inl hit ↦
        let same : j ≡ k = (==_iff j k).0 hit in
        let same_row : x ≡ l = ground (arith, e, g, same) in
        rw (sym same, sym same_row) (ground (arith, h))
    | inr miss ↦
        each_received i k q l t lines (ground (arith, h)) (ground (arith, inside, miss)) there g
  ]

  -- A delivery that succeeded: `d` has arrived on a receipt of the tenant.
  pub record Delivered (tenant now id line_id : ℕ) (all : Bool) (s s' : Db db) : Type 0 where
    pub receipt : InboundReceipt
    pub line : InboundReceiptLine
    pub d : ℤ
    pub was : db.get s.inbound_receipts id ≡ some receipt
    pub owner : receipt.tenant_id ≡ tenant
    pub open_before : IsOpen receipt.status
    pub line_was : db.get s.inbound_receipt_lines line_id ≡ some line
    pub positive : pos 1 ≤ℤ d
    pub capped : line.received_qty +ℤ d ≤ℤ line.expected_qty
    pub stock : stock_total db s' ≡ stock_total db s +ℤ d
    pub booked : received_total db s' ≡ received_total db s +ℤ d
    pub logged : logged_total db s' ≡ logged_total db s +ℤ d
    pub receipts :
        (j : ℕ)
        → db.get s'.inbound_receipts j
          ≡ (if id == j then some (concluded now all receipt) else db.get s.inbound_receipts j)
    pub complete :
        all ≡ true
        → (k : ℕ) (l : InboundReceiptLine) → db.get s'.inbound_receipt_lines k ≡ some l
        → l.inbound_receipt_id ≡ id
        → l.expected_qty ≤ℤ l.received_qty
    pub others : KeepsOthers db tenant s.inventory s'.inventory
    pub nonneg : IsNonneg db s.inventory → IsNonneg db s'.inventory
    pub within :
        IsReceivedWithin db s.inbound_receipt_lines → IsReceivedWithin db s'.inbound_receipt_lines

  -- What the movement and the status change.
  legacy_end-ok :
      (tenant now id : ℕ) (strict : Bool) (receipt : InboundReceipt) (x : Arrival) (done all : Bool)
      (s s' : Db db)
      → legacy_end db strict tenant now (id, receipt) x done s ≡ (ok all, s')
      → db.get s.inbound_receipts id ≡ some receipt
      → (all ≡ done)
        × (s' ≡ record s {
          movement_headers = s'.movement_headers;
          movement_lines =
              (db.create
                (arrival_movement tenant
                  (db.create (receipt_header tenant receipt.warehouse_id id) s.movement_headers).0
                  x)
                s.movement_lines).1;
          inbound_receipts = db.write id (written_receipt now done receipt) s.inbound_receipts;
        })
  legacy_end-ok tenant now id strict receipt x done all s s' h g = (ground arith, ground arith)

  delta-positive : (q : ℤ) → leb_ℤ q (pos 0) ≡ false → pos 1 ≤ℤ q
  delta-positive q h = ground arith

  -- After the write each line of the receipt is received, if each is with the new quantity.
  written_complete :
      (i id : ℕ) (line x : InboundReceiptLine) (q : ℤ) (s : Db db)
      → db.get s.inbound_receipt_lines i ≡ some line
      → x.received_qty ≡ q
      → x.expected_qty ≡ line.expected_qty
      → x.inbound_receipt_id ≡ line.inbound_receipt_id
      → every (λ x. is_received x.1) (map (with_received i q) (lines_of_receipt db id s)) ≡ true
      → (k : ℕ) (l : InboundReceiptLine) → db.get (db.write i x s.inbound_receipt_lines) k ≡ some l
      → l.inbound_receipt_id ≡ id
      → l.expected_qty ≤ℤ l.received_qty
  written_complete i id line x q s g hq he hr done k l here of = elim (Bool-cases (i == k)) [
    | inl hit ↦
        let same : i ≡ k = (==_iff i k).0 hit in
        let now_x : x ≡ l = ground (arith, written, here, hit) in
        let read =
          each_received i i q line s.inbound_receipt_lines lines done
            (inside i line g (ground (arith, of, now_x, hr))) there g in
        ground (arith, read, now_x, hq, he)
    | inr miss ↦
        let kept : db.get s.inbound_receipt_lines k ≡ some l =
          ground (arith, written, here, miss) in
        let read =
          each_received i k q l s.inbound_receipt_lines lines done (inside k l kept of) there
            kept in
        ground (arith, read, miss)
  ]
    where
      lines : List (ℕ × InboundReceiptLine)
      lines = lines_of_receipt db id s

      written :
          db.get (db.write i x s.inbound_receipt_lines) k
          ≡ (if i == k then some x else db.get s.inbound_receipt_lines k)
      written = c.get-write i x line s.inbound_receipt_lines k g

      there : All (λ x. db.get s.inbound_receipt_lines x.0 ≡ some x.1) lines
      there = find_many-found db c _ _ s.inbound_receipt_lines

      inside :
          (j : ℕ) (y : InboundReceiptLine)
          → db.get s.inbound_receipt_lines j ≡ some y
          → y.inbound_receipt_id ≡ id
          → includes (map (λ x. x.0) lines) j ≡ true
      inside j y e of_id =
          c.many_complete (λ i r. r.inbound_receipt_id == id) (λ a b. false) s.inbound_receipt_lines
            j y e ((==_iff _ _).1 of_id)

  pub legacy_writes-Delivered :
      (tenant now i id location : ℕ) (strict : Bool) (receipt : InboundReceipt)
      (line : InboundReceiptLine) (product : Product) (quantity : ℤ) (code : Option ℕ)
      (s s' : Db db) (all : Bool)
      → legacy_writes db strict tenant now
          (id, receipt)
          (lines_of_receipt db id s)
          (i, line)
          location
          product
          quantity
          code
          s
        ≡ (ok all, s')
      → db.get s.inbound_receipts id ≡ some receipt
      → receipt.tenant_id ≡ tenant
      → is_settled receipt.status ≡ false
      → db.get s.inbound_receipt_lines i ≡ some line
      → leb_ℤ (delta_qty line quantity) (pos 0) ≡ false
      → Delivered tenant now id i all s s'
  legacy_writes-Delivered tenant now i id location strict receipt line product quantity code s s'
        all h was owner opened g low =
      let q = delta_qty line quantity in
      let lines = lines_of_receipt db id s in
      let (batch, s₁, s₂, r, e, run, close) =
        legacy_writes-ok db strict tenant now i location (id, receipt) lines line product quantity
          code s s' all h g in
      let x = legacy_row line quantity code batch in
      let m =
        arrived-Received db c tenant now i line x q
          (arrival_params receipt.warehouse_id location line batch q) r s s₁ s₂ g
          (delta_back (final_received line quantity) line.received_qty)
          (λ _. final_received-capped line quantity) e run refl in
      let arrival = legacy_arrival location line batch q in
      let was₂ : db.get s₂.inbound_receipts id ≡ some receipt =
        ap (λ y. db.get y.inbound_receipts id) m.frame ∙ was in
      let (same, end) =
        legacy_end-ok tenant now id strict receipt arrival
          (every (λ x. is_received x.1)
            (map (with_received i (final_received line quantity)) lines))
          all s₂ s' close was₂ in
      let frame : s₂ ≡ record s₁ { inventory = s₂.inventory } =
        subst (λ y. y.1 ≡ record s₁ { inventory = y.1.inventory }) run
          (increase_stock-Frames db c tenant now
            (arrival_params receipt.warehouse_id location line batch q) s₁) in
      let rows : s'.inbound_receipt_lines ≡ db.write i x s.inbound_receipt_lines =
        ap (λ y. y.inbound_receipt_lines) end
        ∙ ap (λ y. y.inbound_receipt_lines) frame
        ∙ ap (λ y. y.inbound_receipt_lines) e in
      record {
        receipt = receipt;
        line = line;
        d = q;
        was = was;
        owner = owner;
        open_before = is_settled-IsOpen receipt.status opened;
        line_was = g;
        positive = delta-positive q low;
        capped =
            subst (λ a. a ≤ℤ line.expected_qty)
              (delta_back (final_received line quantity) line.received_qty)
              (final_received-capped line quantity);
        stock = ap (stock_total db) end ∙ m.stock;
        booked = ap (received_total db) end ∙ m.booked;
        logged =
            ap (logged_total db) end
            ∙ c.sum-create (λ i m. m.quantity) _ s₂.movement_lines
            ∙ ap (λ y. logged_total db y +ℤ q) m.frame;
        receipts = λ j.
            rw (same, sym (ap (λ y. db.get y.inbound_receipts j) m.frame))
              (ap (λ y. db.get y.inbound_receipts j) end
                ∙ c.get-write id (written_receipt now _ receipt) receipt s₂.inbound_receipts j was₂
                ∙ ap (λ y. if id == j then some y else db.get s₂.inbound_receipts j)
                    (written_receipt-concluded now _ receipt));
        complete = λ yes_all k l k_here of.
            written_complete i id line x (final_received line quantity) s g refl refl refl
              (sym same ∙ yes_all) k l (rw rows at k_here) of;
        others =
            subst (λ t. KeepsOthers db tenant s.inventory t) (sym (ap (λ y. y.inventory) end))
              m.others;
        nonneg = λ n. subst (IsNonneg db) (sym (ap (λ y. y.inventory) end)) (m.nonneg n);
        within = λ n. rw rows (
            written-IsReceivedWithin db c i line x s.inbound_receipt_lines g
              (final_received-capped line quantity) n);
      }
