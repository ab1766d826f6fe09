-- ===== src/Inbound/Confirm.antt =====
-- confirmReceipt: book what arrived on the lines of a receipt.
pub mod Line
pub mod Loop
pub mod End
pub mod Laws
use awmsom.Base.{
  ℕ, Bool, true, false, Option, none, some, List, [], ◌∷◌, map, ℤ, pos, ◌+ℤ◌, ◌-ℤ◌, leb_ℤ, ◌==◌,
  ◌&&◌, ◌||◌, not, if◌then◌else◌, find, every, includes, Action, pure, gets, raise_if, or_raise,
  transaction, for_each, ◌>>=◌, ◌>>◌, not_found, bad_request, invalid_data,
  inbound_receipt_not_found, receipt_not_confirmable, receipt_without_lines, destination_not_found,
  destination_in_other_warehouse, no_receipt_lines_given, duplicate_receipt_lines,
  nothing_to_process, receipt_line_not_found, received_not_positive, batch_required,
  expiry_required, over_tolerance, under_tolerance, movement_without_lines,
}
use awmsom.Prisma.{Prisma, find_by_id}
use awmsom.Schema.{
  Db, InboundReceipt, InboundReceiptLine, MovementLine, InventoryPolicy, available, is_confirmable,
}
use awmsom.Inventory.Tables.{create_movement_header, create_movement_line}
use awmsom.Inventory.Increase.{IncreaseParams, increase_stock}
use awmsom.Inventory.CycleCount.Tasks.{get_tenant_config}
use awmsom.Inventory.CycleCount.Submit.{is_null}
use awmsom.Inbound.Tables.{
  is_blank, or_else, is_received, receipt_status, received_date, receipt_header,
  update_inbound_receipt, update_inbound_receipt_line, tenant_lines_of_receipt, requires_batch,
  requires_expiry, find_or_create_batch,
}
use awmsom.Inbound.Policy.{
  max_over_pct, max_under_pct, exceeds, falls_short, resolve_inventory_policy,
}

-- ConfirmInboundReceiptLineDto and ConfirmInboundReceiptDto
pub record ReceivedLine : Type 0 where
  pub line_id : ℕ
  pub received_qty : Option ℤ
  pub batch_code : Option ℕ
  pub expiry_date : Option ℕ

pub record ConfirmInput : Type 0 where
  pub to_location_id : ℕ
  pub lines : Option (List ReceivedLine)

-- What one line adds to the movement.
pub record Arrival : Type 0 where
  pub product_id : ℕ
  pub batch_id : Option ℕ
  pub to_location_id : ℕ
  pub quantity : ℤ
  pub uom : ℕ

-- `lineIds.has(line.lineId)` for some line
abbrev pub repeats : List ReceivedLine → Bool
repeats [] = false
repeats (l ∷ ls) = includes (map (λ x. x.line_id) ls) l.line_id || repeats ls

-- The two checks on `dto.lines`, if they are given.
abbrev pub is_empty : {A : Type 0} → List A → Bool
is_empty [] = true
is_empty (x ∷ xs) = false

abbrev pub given_empty : Option (List ReceivedLine) → Bool
given_empty none = false
given_empty (some ls) = is_empty ls

abbrev pub given_repeats : Option (List ReceivedLine) → Bool
given_repeats none = false
given_repeats (some ls) = repeats ls

-- `dto.lines ?? receipt.lines.map((line) => ({ lineId: line.id }))`
abbrev pub line_payloads :
    Option (List ReceivedLine) → List (ℕ × InboundReceiptLine) → List ReceivedLine
line_payloads (some ls) lines = ls
line_payloads none lines =
    map (λ x. record { line_id = x.0; received_qty = none; batch_code = none; expiry_date = none })
      lines

-- What was asked for, or what is pending.
abbrev pub receive_qty : ReceivedLine → InboundReceiptLine → ℤ
receive_qty payload line = elim payload.received_qty [
  | none ↦ line.expected_qty -ℤ line.received_qty
  | some q ↦ q
]

abbrev pub arrival_params : ℕ → ℕ → InboundReceiptLine → Option ℕ → ℤ → IncreaseParams
arrival_params warehouse location line batch q = record {
  warehouse_id = warehouse;
  product_id = line.product_id;
  batch_id = batch;
  location_id = location;
  quantity = q;
  uom = line.uom;
  stock_status = available;
}

abbrev pub arrival_movement : ℕ → ℕ → Arrival → MovementLine
arrival_movement tenant header x = record {
  tenant_id = tenant;
  movement_header_id = header;
  product_id = x.product_id;
  batch_id = x.batch_id;
  from_location_id = none;
  to_location_id = some x.to_location_id;
  quantity = x.quantity;
  uom = x.uom;
}

abbrev pub received_line :
    InboundReceiptLine → ℤ → Option ℕ → Option ℕ → Option ℕ → InboundReceiptLine
received_line line q code expiry batch = record line {
  received_qty = line.received_qty +ℤ q;
  batch_code = code;
  expiry_date = expiry;
  batch_id = or_else batch line.batch_id;
}

module _ (db : Prisma) (strict : Bool) where
  abbrev pub batch_for : ℕ → InboundReceiptLine → Option ℕ → Option ℕ → Action (Db db) (Option ℕ)
  batch_for tenant line code expiry s =
      if requires_batch db line.product_id s
      then (find_or_create_batch db strict tenant line.product_id code expiry >>= λ b.
            pure (some b))
          s
      else pure none s

  -- The checks of one round, which read only.
  pub receive_checks :
      ℕ → ℕ → InboundReceiptLine → ℤ → Option ℕ → Option ℕ → Action (Db db) (Unit {0})
  receive_checks tenant warehouse line q code expiry = do
    raise_if (leb_ℤ q (pos 0)) (bad_request received_not_positive)
    batch_needed ← gets (requires_batch db line.product_id)
    raise_if (batch_needed && is_blank code) (bad_request batch_required)
    expiry_needed ← gets (requires_expiry db line.product_id)
    raise_if (expiry_needed && is_null expiry) (bad_request expiry_required)
    policy ← gets (resolve_inventory_policy db tenant warehouse line.product_id)
    raise_if (exceeds line.expected_qty (line.received_qty +ℤ q) (max_over_pct policy))
        (bad_request over_tolerance)
    raise_if (falls_short line.expected_qty (line.received_qty +ℤ q) (max_under_pct policy))
        (bad_request under_tolerance)

  -- The writes of one round.
  pub receive_writes :
      ℕ → ℕ → ℕ → ℕ → ℕ × InboundReceiptLine → ℤ → Option ℕ → Option ℕ → Action (Db db) Arrival
  receive_writes tenant now warehouse location (i, line) q code expiry = do
    batch ← batch_for tenant line code expiry
    update_inbound_receipt_line db i (λ l. record l {
      received_qty = line.received_qty +ℤ q;
      batch_code = code;
      expiry_date = expiry;
      batch_id = or_else batch l.batch_id;
    })
    increase_stock db tenant now (arrival_params warehouse location line batch q)
    pure (record {
      product_id = line.product_id;
      batch_id = batch;
      to_location_id = location;
      quantity = q;
      uom = line.uom;
    })

  -- One round of the loop over the payloads, with the lines as they were read before it.
  pub receive_line :
      ℕ → ℕ → ℕ → ℕ → List (ℕ × InboundReceiptLine) → ReceivedLine → Action (Db db) Arrival
  unfolding receive_checks receive_writes
  receive_line tenant now warehouse location lines payload = do
    x ← or_raise (find (λ x. x.0 == payload.line_id) lines) (not_found receipt_line_not_found)
    let q = receive_qty payload x.1
    let code = or_else payload.batch_code x.1.batch_code
    let expiry = or_else payload.expiry_date x.1.expiry_date
    receive_checks tenant warehouse x.1 q code expiry
    receive_writes tenant now warehouse location x q code expiry

  pub receive_lines :
      ℕ
      → ℕ
      → ℕ
      → ℕ
      → List (ℕ × InboundReceiptLine)
      → List ReceivedLine
      → Action (Db db) (List Arrival)
  unfolding receive_line
  receive_lines tenant now warehouse location lines [] = pure []
  receive_lines tenant now warehouse location lines (p ∷ ps) = do
    x ← receive_line tenant now warehouse location lines p
    xs ← receive_lines tenant now warehouse location lines ps
    pure (x ∷ xs)

  -- The movement and the receipt's status.
  pub conclude_receipt : ℕ → ℕ → ℕ → InboundReceipt → List Arrival → Action (Db db) Bool
  unfolding for_each
  conclude_receipt tenant now receipt_id receipt arrivals = do
    updated_lines ← gets (tenant_lines_of_receipt db tenant receipt_id)
    let all_received = every (λ x. is_received x.1) updated_lines
    header ← create_movement_header db (receipt_header tenant receipt.warehouse_id receipt_id)
    for_each arrivals (λ x. create_movement_line db (arrival_movement tenant header x) >> pure tt)
    update_inbound_receipt db receipt_id (λ r. record r {
      status = receipt_status all_received;
      received_at = received_date all_received now receipt.received_at;
    })
    pure all_received

  pub confirm_receipt_body : ℕ → ℕ → ℕ → ConfirmInput → Action (Db db) Bool
  unfolding receive_lines conclude_receipt
  confirm_receipt_body tenant now id dto = do
    receipt ←
        or_raise (← gets (λ s. find_by_id db id (λ r. r.tenant_id == tenant) s.inbound_receipts))
          (not_found inbound_receipt_not_found)
    lines ← gets (tenant_lines_of_receipt db tenant receipt.0)
    raise_if (not (is_confirmable receipt.1.status)) (bad_request receipt_not_confirmable)
    raise_if (is_empty lines) (bad_request receipt_without_lines)
    location ←
        or_raise
          (← gets (λ s. find_by_id db dto.to_location_id (λ r. r.tenant_id == tenant) s.locations))
          (not_found destination_not_found)
    raise_if (not (location.1.warehouse_id == receipt.1.warehouse_id))
        (bad_request destination_in_other_warehouse)
    raise_if (given_empty dto.lines) (bad_request no_receipt_lines_given)
    raise_if (given_repeats dto.lines) (bad_request duplicate_receipt_lines)
    let payloads = line_payloads dto.lines lines
    raise_if (is_empty payloads) (bad_request nothing_to_process)
    arrivals ← receive_lines tenant now receipt.1.warehouse_id location.0 lines payloads
    raise_if (is_empty arrivals) (bad_request movement_without_lines)
    conclude_receipt tenant now receipt.0 receipt.1 arrivals

  -- The tenant's configuration is read, and created if there is none, before the transaction. The
  -- result says whether all is received.
  unfoldable pub confirm_receipt : ℕ → ℕ → ℕ → ConfirmInput → Action (Db db) Bool
  unfolding get_tenant_config confirm_receipt_body
  confirm_receipt tenant now id dto = do
    get_tenant_config db tenant
    transaction (confirm_receipt_body tenant now id dto)
