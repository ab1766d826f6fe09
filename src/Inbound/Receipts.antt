-- ===== src/Inbound/Receipts.antt =====
-- createReceipt, addLine and createLegacyReceipt.
use awmsom.Base.{
  ℕ, Option, none, List, ℤ, pos, ◌==◌, ◌&&◌, not, Action, pure, gets, raise_if, or_raise, for_each,
  ◌>>=◌, ◌>>◌, not_found, bad_request, warehouse_not_found, product_not_found,
  inbound_receipt_not_found, receipt_not_draft, batch_required, expiry_required,
}
use awmsom.Prisma.{Prisma, find_by_id}
use awmsom.Schema.{Db, InboundReceipt, InboundReceiptLine, InboundReceiptStatus, is_draft_receipt}
use awmsom.Inventory.CycleCount.Submit.{is_null}
use awmsom.Inbound.Tables.{is_blank, create_inbound_receipt, create_inbound_receipt_line}

-- CreateInboundReceiptDto
pub record ReceiptInput : Type 0 where
  pub warehouse_id : ℕ
  pub external_ref : Option ℕ

-- AddInboundReceiptLineDto
pub record ReceiptLineInput : Type 0 where
  pub product_id : ℕ
  pub expected_qty : ℤ
  pub uom : ℕ
  pub batch_code : Option ℕ
  pub expiry_date : Option ℕ
  pub source_document_line_ref : Option ℕ

-- CreateInboundLegacyLineDto and CreateInboundLegacyDto
pub record LegacyLineInput : Type 0 where
  pub sku : ℕ
  pub expected_qty : ℤ
  pub uom : ℕ

pub record LegacyInput : Type 0 where
  pub supplier : Option ℕ
  pub warehouse_id : ℕ
  pub lines : List LegacyLineInput

abbrev pub draft_receipt : ℕ → ReceiptInput → InboundReceipt
draft_receipt tenant dto = record {
  tenant_id = tenant;
  warehouse_id = dto.warehouse_id;
  external_ref = dto.external_ref;
  status = InboundReceiptStatus.draft;
  received_at = none;
}

-- Nothing is received yet: `@default(0)`.
abbrev pub receipt_line : ℕ → ℕ → ReceiptLineInput → InboundReceiptLine
receipt_line tenant receipt_id dto = record {
  tenant_id = tenant;
  inbound_receipt_id = receipt_id;
  product_id = dto.product_id;
  expected_qty = dto.expected_qty;
  received_qty = pos 0;
  uom = dto.uom;
  batch_code = dto.batch_code;
  expiry_date = dto.expiry_date;
  source_document_line_ref = dto.source_document_line_ref;
  batch_id = none;
}

abbrev pub legacy_line : ℕ → LegacyLineInput → ReceiptLineInput
legacy_line product line = record {
  product_id = product;
  expected_qty = line.expected_qty;
  uom = line.uom;
  batch_code = none;
  expiry_date = none;
  source_document_line_ref = none;
}

module _ (db : Prisma) where
  unfoldable pub create_receipt : ℕ → ReceiptInput → Action (Db db) ℕ
  create_receipt tenant dto = do
    or_raise
        (← gets (λ s. find_by_id db dto.warehouse_id (λ r. r.tenant_id == tenant) s.warehouses))
        (not_found warehouse_not_found)
    create_inbound_receipt db (draft_receipt tenant dto)

  unfoldable pub add_line : ℕ → ℕ → ReceiptLineInput → Action (Db db) ℕ
  add_line tenant receipt_id dto = do
    receipt ←
        or_raise
          (← gets (λ s. find_by_id db receipt_id (λ r. r.tenant_id == tenant) s.inbound_receipts))
          (not_found inbound_receipt_not_found)
    raise_if (not (is_draft_receipt receipt.1.status)) (bad_request receipt_not_draft)
    product ←
        or_raise
          (← gets (λ s. find_by_id db dto.product_id (λ r. r.tenant_id == tenant) s.products))
          (not_found product_not_found)
    raise_if (product.1.requires_batch && is_blank dto.batch_code) (bad_request batch_required)
    raise_if (product.1.requires_expiry_date && is_null dto.expiry_date)
        (bad_request expiry_required)
    create_inbound_receipt_line db (receipt_line tenant receipt.0 dto)

  -- One round of the loop of createLegacyReceipt.
  pub add_legacy_line : ℕ → ℕ → LegacyLineInput → Action (Db db) (Unit {0})
  unfolding add_line
  add_legacy_line tenant receipt_id line = do
    product ←
        or_raise
          (← gets
            (λ s. db.find_first (λ i r. r.tenant_id == tenant && r.sku == line.sku) s.products))
          (not_found product_not_found)
    add_line tenant receipt_id (legacy_line product.0 line)
    pure tt

  -- No transaction: what was created before a line fails stays. The answer is the receipt that is
  -- read again, with the error if it is gone.
  unfoldable pub create_legacy_receipt : ℕ → LegacyInput → Action (Db db) ℕ
  unfolding create_receipt add_legacy_line for_each
  create_legacy_receipt tenant dto = do
    receipt_id ←
        create_receipt tenant
          (record { warehouse_id = dto.warehouse_id; external_ref = dto.supplier })
    for_each dto.lines (add_legacy_line tenant receipt_id)
    or_raise
        (← gets (λ s. find_by_id db receipt_id (λ r. r.tenant_id == tenant) s.inbound_receipts))
        (not_found inbound_receipt_not_found)
    pure receipt_id
