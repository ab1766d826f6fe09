-- ===== src/Inbound/Legacy.antt =====
-- receiveLegacyLine and completeLegacyReceipt.
pub mod Writes
pub mod Laws
use awmsom.Base.{
  ℕ, zero, suc, Bool, true, false, Option, none, some, List, [], ◌∷◌, map, ℤ, pos, ◌+ℤ◌, ◌-ℤ◌,
  ltb_ℤ, leb_ℤ, ◌==◌, ◌&&◌, ◌||◌, not, if◌then◌else◌, find, keep, every, Action, pure, gets, raise,
  raise_if, or_raise, transaction, ◌>>=◌, ◌>>◌, not_found, bad_request, inbound_receipt_not_found,
  receipt_settled, receipt_line_not_found, destination_required, destination_not_found,
  product_not_found, received_not_positive, batch_required, lines_not_received,
}
use awmsom.Prisma.{Prisma, find_by_id}
use awmsom.Schema.{
  Db, InboundReceipt, InboundReceiptLine, InboundReceiptStatus, Location, Product, available,
  is_settled,
}
use awmsom.Inventory.Tables.{create_movement_header, create_movement_line}
use awmsom.Inventory.Increase.{increase_stock}
use awmsom.Inbound.Tables.{
  is_blank, or_else, is_received, receipt_status, received_date, receipt_header,
  update_inbound_receipt, update_inbound_receipt_line, lines_of_receipt, find_or_create_batch,
}
use awmsom.Inbound.Confirm.{Arrival, arrival_params, arrival_movement, is_empty}

-- ReceiveInboundLineDto; `location` is trimmed, and 0 is the empty text.
pub record LegacyArrival : Type 0 where
  pub line_id : ℕ
  pub quantity : ℤ
  pub batch : Option ℕ
  pub location : Option ℕ

-- `received.gt(expected) ? expected : received`
abbrev pub final_received : InboundReceiptLine → ℤ → ℤ
final_received line quantity =
    if ltb_ℤ line.expected_qty (line.received_qty +ℤ quantity)
    then line.expected_qty
    else line.received_qty +ℤ quantity

abbrev pub delta_qty : InboundReceiptLine → ℤ → ℤ
delta_qty line quantity = final_received line quantity -ℤ line.received_qty

-- The lines as they were read, with the new quantity on one of them.
abbrev pub with_received : ℕ → ℤ → ℕ × InboundReceiptLine → ℕ × InboundReceiptLine
with_received i q (j, l) = if j == i then (j, record l { received_qty = q }) else (j, l)

abbrev pub legacy_arrival : ℕ → InboundReceiptLine → Option ℕ → ℤ → Arrival
legacy_arrival location line batch q = record {
  product_id = line.product_id;
  batch_id = batch;
  to_location_id = location;
  quantity = q;
  uom = line.uom;
}

module _ (db : Prisma) (strict : Bool) where
  abbrev pub require_text : Option ℕ → Action (Db db) ℕ
  require_text none = raise (bad_request destination_required)
  require_text (some zero) = raise (bad_request destination_required)
  require_text (some (suc n)) = pure (suc n)

  -- `if (product.requiresBatch && batchCode)`
  abbrev pub legacy_batch : ℕ → ℕ → Product → Option ℕ → Action (Db db) (Option ℕ)
  legacy_batch tenant product_id product code =
      if product.requires_batch && not (is_blank code)
      then (find_or_create_batch db strict tenant product_id code none >>= λ b. pure (some b))
      else pure none

  -- The writes once all is checked; the result says whether all lines of the receipt are received.
  pub legacy_writes :
      ℕ
      → ℕ
      → ℕ × InboundReceipt
      → List (ℕ × InboundReceiptLine)
      → ℕ × InboundReceiptLine
      → ℕ
      → Product
      → ℤ
      → Option ℕ
      → Action (Db db) Bool
  legacy_writes tenant now receipt lines line location product quantity code = do
    batch ← legacy_batch tenant line.1.product_id product code
    update_inbound_receipt_line db line.0 (λ l. record l {
      received_qty = final_received line.1 quantity;
      batch_code = code;
      batch_id = or_else (or_else batch line.1.batch_id) l.batch_id;
    })
    increase_stock db tenant now
        (arrival_params receipt.1.warehouse_id location line.1 batch (delta_qty line.1 quantity))
    header ← create_movement_header db (receipt_header tenant receipt.1.warehouse_id receipt.0)
    create_movement_line db (
        arrival_movement tenant header
          (legacy_arrival location line.1 batch (delta_qty line.1 quantity)))
    let all_received =
        every (λ x. is_received x.1)
          (map (with_received line.0 (final_received line.1 quantity)) lines)
    update_inbound_receipt db receipt.0 (λ r. record r {
      status = receipt_status all_received;
      received_at = received_date all_received now receipt.1.received_at;
    })
    pure all_received

  pub receive_legacy_body : ℕ → ℕ → ℕ → LegacyArrival → Action (Db db) Bool
  unfolding legacy_writes
  receive_legacy_body tenant now receipt_id dto = do
    receipt ←
        or_raise
          (← gets (λ s. find_by_id db receipt_id (λ r. r.tenant_id == tenant) s.inbound_receipts))
          (not_found inbound_receipt_not_found)
    lines ← gets (lines_of_receipt db receipt.0)
    raise_if (is_settled receipt.1.status) (bad_request receipt_settled)
    line ← or_raise (find (λ x. x.0 == dto.line_id) lines) (not_found receipt_line_not_found)
    text ← require_text dto.location
    location ←
        or_raise
          (← gets (λ s.
            db.find_first
              (λ i r.
                r.tenant_id == tenant
                && (r.warehouse_id == receipt.1.warehouse_id && (i == text || r.code == text)))
              s.locations))
          (not_found destination_not_found)
    product ←
        or_raise
          (← gets (λ s. find_by_id db line.1.product_id (λ r. r.tenant_id == tenant) s.products))
          (not_found product_not_found)
    raise_if (leb_ℤ (delta_qty line.1 dto.quantity) (pos 0)) (bad_request received_not_positive)
    let code = or_else dto.batch line.1.batch_code
    raise_if (product.1.requires_batch && is_blank code) (bad_request batch_required)
    all ← legacy_writes tenant now receipt lines line location.0 product.1 dto.quantity code
    or_raise
        (← gets (λ s. find_by_id db receipt_id (λ r. r.tenant_id == tenant) s.inbound_receipts))
        (not_found inbound_receipt_not_found)
    pure all

  unfoldable pub receive_legacy_line : ℕ → ℕ → ℕ → LegacyArrival → Action (Db db) Bool
  unfolding receive_legacy_body
  receive_legacy_line tenant now receipt_id dto =
      transaction (receive_legacy_body tenant now receipt_id dto)

module _ (db : Prisma) where
  pub complete_legacy_body : ℕ → ℕ → ℕ → Action (Db db) (Unit {0})
  complete_legacy_body tenant now receipt_id = do
    receipt ←
        or_raise
          (← gets (λ s. find_by_id db receipt_id (λ r. r.tenant_id == tenant) s.inbound_receipts))
          (not_found inbound_receipt_not_found)
    lines ← gets (lines_of_receipt db receipt.0)
    raise_if (not (is_empty (keep (λ x. not (is_received x.1)) lines)))
        (bad_request lines_not_received)
    update_inbound_receipt db receipt_id
        (λ r. record r { status = InboundReceiptStatus.received; received_at = some now })
    or_raise
        (← gets (λ s. find_by_id db receipt_id (λ r. r.tenant_id == tenant) s.inbound_receipts))
        (not_found inbound_receipt_not_found)
    pure tt

  unfoldable pub complete_legacy_receipt : ℕ → ℕ → ℕ → Action (Db db) (Unit {0})
  unfolding complete_legacy_body
  complete_legacy_receipt tenant now receipt_id =
      transaction (complete_legacy_body tenant now receipt_id)
