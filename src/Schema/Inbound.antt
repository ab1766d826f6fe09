-- ===== src/Schema/Inbound.antt =====
-- Inbound receipts and their lines.
use awmsom.Base.{ℕ, Option, ℤ}
use awmsom.Schema.Enums.{InboundReceiptStatus}

pub record InboundReceipt : Type 0 where
  pub tenant_id : ℕ
  pub warehouse_id : ℕ
  pub external_ref : Option ℕ
  pub status : InboundReceiptStatus
  pub received_at : Option ℕ

pub record InboundReceiptLine : Type 0 where
  pub tenant_id : ℕ
  pub inbound_receipt_id : ℕ
  pub product_id : ℕ
  pub expected_qty : ℤ
  pub received_qty : ℤ
  pub uom : ℕ
  pub batch_code : Option ℕ
  pub expiry_date : Option ℕ
  pub source_document_line_ref : Option ℕ
  pub batch_id : Option ℕ
