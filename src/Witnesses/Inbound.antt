-- ===== src/Witnesses/Inbound.antt =====
-- Runs of the inbound handlers on the tables in memory.
use awmsom.Base.{◌≡◌, refl, false, none, some, [], ◌∷◌, pos, ◌+ℤ◌, ◌-ℤ◌}
use awmsom.Prisma.{memory}
use awmsom.Prisma.Memory.Laws.{memory-IsClient}
use awmsom.Schema.{Db, InboundReceipt, InboundReceiptLine, InboundReceiptStatus}
use awmsom.Inbound.Confirm.{ConfirmInput, confirm_receipt}
use awmsom.Inbound.Confirm.Laws.{ConfirmOutcome, confirm_receipt-Confirmed}
use awmsom.Inventory.Increase.{increase_stock}
use awmsom.Inbound.Policy.{resolve_inventory_policy}
use awmsom.Inbound.Legacy.{LegacyArrival, receive_legacy_line}
use awmsom.Inbound.Status.{resolve_legacy_status, resolve_legacy_status-map_legacy_status}
use awmsom.Witnesses.{tables}

abbrev arriving : InboundReceipt
arriving = record {
  tenant_id = 1;
  warehouse_id = 0;
  external_ref = none;
  status = InboundReceiptStatus.draft;
  received_at = none;
}

abbrev expected : InboundReceiptLine
expected = record {
  tenant_id = 1;
  inbound_receipt_id = 0;
  product_id = 0;
  expected_qty = pos 80000;
  received_qty = pos 0;
  uom = 7;
  batch_code = none;
  expiry_date = none;
  source_document_line_ref = none;
  batch_id = none;
}

-- A draft receipt expects 8 units.
inbound_tables : Db memory
unfolding memory tables
inbound_tables = record tables {
  inbound_receipts = arriving ∷ [];
  inbound_receipt_lines = expected ∷ [];
}

abbrev all_lines : ConfirmInput
all_lines = record { to_location_id = 0; lines = none }

abbrev three_units : LegacyArrival
three_units = record { line_id = 0; quantity = pos 30000; batch = none; location = some 11 }

confirm_receipt_test :
    memory.get (confirm_receipt memory false 1 5 0 all_lines inbound_tables).1.inbound_receipts 0
    ≡ some (record arriving { status = InboundReceiptStatus.received; received_at = some 5 })
unfolding confirm_receipt resolve_inventory_policy increase_stock memory inbound_tables tables ◌+ℤ◌
    ◌-ℤ◌
confirm_receipt_test = refl

receive_legacy_line_test :
    memory.get
      (receive_legacy_line memory false 1 5 0 three_units inbound_tables).1.inbound_receipt_lines
      0
    ≡ some (record expected { received_qty = pos 30000 })
unfolding receive_legacy_line increase_stock memory inbound_tables tables ◌+ℤ◌ ◌-ℤ◌
receive_legacy_line_test = refl

confirm_receipt-Confirmed_example :
    ConfirmOutcome memory memory-IsClient 1 5 0 inbound_tables
      (confirm_receipt memory false 1 5 0 all_lines inbound_tables)
confirm_receipt-Confirmed_example =
    confirm_receipt-Confirmed memory memory-IsClient 1 5 0 false all_lines inbound_tables

resolve_legacy_status-map_legacy_status_example :
    resolve_legacy_status (λ t. t) (some "IN_PROGRESS")
    ≡ some InboundReceiptStatus.partially_received
resolve_legacy_status-map_legacy_status_example =
    resolve_legacy_status-map_legacy_status (λ t. t) refl refl refl
      InboundReceiptStatus.partially_received
