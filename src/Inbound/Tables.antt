-- ===== src/Inbound/Tables.antt =====
-- The writes to one table that the handlers of InboundService make, and what several of them share.
use awmsom.Base.{
  ℕ, zero, suc, Bool, true, false, Option, none, some, List, ◌==◌, ◌&&◌, leb_ℤ, Action, ok, err,
  gets, modify, or_raise, raise_if, ◌>>=◌, ◌>>◌, record_not_found, invalid_data,
}
use awmsom.Prisma.{Prisma, updated}
use awmsom.Schema.{
  Db, Batch, InboundReceipt, InboundReceiptLine, InboundReceiptStatus, MovementHeader, MovementType,
  MovementStatus,
}

-- `!batchCode`: 0 is the empty text.
abbrev pub is_blank : Option ℕ → Bool
is_blank none = true
is_blank (some zero) = true
is_blank (some (suc _)) = false

-- `a ?? b`
abbrev pub or_else : Option ℕ → Option ℕ → Option ℕ
or_else none b = b
or_else (some a) b = some a

abbrev pub is_received : InboundReceiptLine → Bool
is_received line = leb_ℤ line.expected_qty line.received_qty

-- `allReceived ? RECEIVED : PARTIALLY_RECEIVED`
abbrev pub receipt_status : Bool → InboundReceiptStatus
receipt_status true = InboundReceiptStatus.received
receipt_status false = InboundReceiptStatus.partially_received

-- `receivedAt: allReceived ? new Date() : receipt.receivedAt`
abbrev pub received_date : Bool → ℕ → Option ℕ → Option ℕ
received_date true now old = some now
received_date false now old = old

abbrev pub receipt_header : ℕ → ℕ → ℕ → MovementHeader
receipt_header tenant warehouse receipt_id = record {
  tenant_id = tenant;
  movement_type = MovementType.inbound_receipt;
  warehouse_id = warehouse;
  reference = some receipt_id;
  status = MovementStatus.completed;
  created_by = none;
}

module _ (db : Prisma) where
  abbrev pub create_inbound_receipt : InboundReceipt → Action (Db db) ℕ
  create_inbound_receipt r s =
      let (i, t) = db.create r s.inbound_receipts in (ok i, record s { inbound_receipts = t })

  abbrev pub create_inbound_receipt_line : InboundReceiptLine → Action (Db db) ℕ
  create_inbound_receipt_line r s =
      let (i, t) = db.create r s.inbound_receipt_lines in
      (ok i, record s { inbound_receipt_lines = t })

  abbrev pub update_inbound_receipt :
      ℕ → (InboundReceipt → InboundReceipt) → Action (Db db) (Unit {0})
  update_inbound_receipt i f = do
    t ← or_raise (← gets (λ s. updated db i (λ r. true) f s.inbound_receipts)) record_not_found
    modify (λ s. record s { inbound_receipts = t })

  abbrev pub update_inbound_receipt_line :
      ℕ → (InboundReceiptLine → InboundReceiptLine) → Action (Db db) (Unit {0})
  update_inbound_receipt_line i f = do
    t ← or_raise (← gets (λ s. updated db i (λ r. true) f s.inbound_receipt_lines)) record_not_found
    modify (λ s. record s { inbound_receipt_lines = t })

  abbrev pub create_batch : Batch → Action (Db db) ℕ
  create_batch r s = let (i, t) = db.create r s.batches in (ok i, record s { batches = t })

  -- `include: { lines: { where: { tenantId } } }`
  abbrev pub tenant_lines_of_receipt : ℕ → ℕ → Db db → List (ℕ × InboundReceiptLine)
  tenant_lines_of_receipt tenant receipt_id s =
      db.find_many (λ i r. r.inbound_receipt_id == receipt_id && r.tenant_id == tenant)
        (λ a b. false) s.inbound_receipt_lines

  -- `include: { lines: true }`
  abbrev pub lines_of_receipt : ℕ → Db db → List (ℕ × InboundReceiptLine)
  lines_of_receipt receipt_id s =
      db.find_many (λ i r. r.inbound_receipt_id == receipt_id) (λ a b. false)
        s.inbound_receipt_lines

  -- `product.requiresBatch` and `product.requiresExpiryDate` of the product of a line, which no
  -- handler here writes.
  abbrev pub requires_batch : ℕ → Db db → Bool
  requires_batch product s = elim (db.get s.products product) [
    | none ↦ false
    | some p ↦ p.requires_batch
  ]

  abbrev pub requires_expiry : ℕ → Db db → Bool
  requires_expiry product s = elim (db.get s.products product) [
    | none ↦ false
    | some p ↦ p.requires_expiry_date
  ]

  -- The batch under the code, or a new one. The data of a new batch has no `code`, which the schema
  -- requires and `as any` hides from the compiler: a client that is `strict` refuses it.
  -- Without a code the handlers have thrown before they come here.
  abbrev pub find_or_create_batch : Bool → ℕ → ℕ → Option ℕ → Option ℕ → Action (Db db) ℕ
  find_or_create_batch strict tenant product none expiry s = (err invalid_data, s)
  find_or_create_batch strict tenant product (some code) expiry s =
      elim (db.find_first
        (λ i r. r.product_id == product && (r.batch_code == code && r.tenant_id == tenant))
        s.batches) [
          | some x ↦ (ok x.0, s)
          | none ↦
              (raise_if strict invalid_data
                  >> create_batch (record {
                    tenant_id = tenant;
                    product_id = product;
                    batch_code = code;
                    expiry_date = expiry;
                  }))
                s
        ]
