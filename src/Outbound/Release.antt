-- ===== src/Outbound/Release.antt =====
-- releaseOutboundOrder: allocate the available stock to the lines of a draft order.
pub mod Reserve
pub mod Allocate
pub mod Rows
pub mod Lines
pub mod Body
pub mod Laws
use awmsom.Base.{
  ℕ, Bool, true, false, Option, none, some, List, [], ◌∷◌, ℤ, pos, ◌+ℤ◌, ◌-ℤ◌, ltb, ltb_ℤ, leb_ℤ,
  eqb_ℤ, ◌==◌, ◌&&◌, ◌||◌, not, same_id, if◌then◌else◌, every, any, Action, pure, gets, raise_if,
  or_raise, transaction, for_each, ◌>>=◌, ◌>>◌, not_found, bad_request, order_not_found,
  only_draft_released, full_allocation, partial_disabled,
}
use awmsom.Prisma.{Prisma, find_by_id}
use awmsom.Schema.{
  Db, Inventory, OutboundOrder, OutboundOrderLine, OutboundOrderStatus, OutboundRule, available,
  reserved, same_status, is_draft,
}
use awmsom.Inventory.Tables.{has_key, update_inventory, create_inventory}
use awmsom.Outbound.Tables.{
  update_outbound_order, update_outbound_order_line, lines_of_order, stands_in,
}

-- The reserved row that is created where there is none.
abbrev pub reserved_row : ℕ → ℕ → Inventory → ℤ → Inventory
reserved_row tenant now r quantity = record {
  tenant_id = tenant;
  product_id = r.product_id;
  batch_id = r.batch_id;
  location_id = r.location_id;
  quantity = quantity;
  uom = r.uom;
  stock_status = reserved;
  created_at = now;
}

-- How much one row gives: what it has, but no more than is still missing.
abbrev pub allocate_qty : ℤ → ℤ → ℤ
allocate_qty available_qty remaining =
    if ltb_ℤ available_qty remaining then available_qty else remaining

-- What is allocated to the line so far, and what is still missing.
pub record Progress : Type 0 where
  pub allocated : ℤ
  pub remaining : ℤ

-- `asc` on a nullable date: PostgreSQL puts a missing date last.
pub earlier : Option ℕ → Option ℕ → Bool
earlier none b = false
earlier (some a) none = true
earlier (some a) (some b) = ltb a b

-- The order's status from what its lines have got.
pub allocation_status : Bool → Bool → OutboundOrderStatus
allocation_status all_allocated any_allocated =
    if all_allocated
    then OutboundOrderStatus.fully_allocated
    else if any_allocated
    then OutboundOrderStatus.partially_allocated
    else OutboundOrderStatus.released

abbrev pub is_fully_allocated : OutboundOrderLine → Bool
is_fully_allocated line = eqb_ℤ line.allocated_qty line.requested_qty

abbrev pub has_allocation : OutboundOrderLine → Bool
has_allocation line = ltb_ℤ (pos 0) line.allocated_qty

-- `outboundRule?.enforceFullAllocation` and `outboundRule?.allowPartialShipments === false`
abbrev pub enforces_full : Option OutboundRule → Bool
enforces_full none = false
enforces_full (some rule) = rule.enforce_full_allocation

abbrev pub forbids_partial : Option OutboundRule → Bool
forbids_partial none = false
forbids_partial (some rule) = not rule.allow_partial_shipments

module _ (db : Prisma) where
  -- ConfigService.getOutboundRule: the warehouse's rule, or the tenant's.
  pub get_outbound_rule : ℕ → ℕ → Db db → Option OutboundRule
  get_outbound_rule tenant warehouse s =
      elim (db.find_first (λ i r. r.tenant_id == tenant && same_id r.warehouse_id (some warehouse))
        s.outbound_rules) [
          | some x ↦ some x.1
          | none ↦
              elim (db.find_first (λ i r. r.tenant_id == tenant && same_id r.warehouse_id none)
                s.outbound_rules) [ some x ↦ some x.1 | none ↦ none ]
        ]

  -- Add to the reserved row of the same position, or create it.
  pub reserve : ℕ → ℕ → Inventory → ℤ → Action (Db db) (Unit {0})
  reserve tenant now r quantity s =
      elim (db.find_first
        (λ i x. has_key tenant r.product_id r.batch_id r.location_id r.uom reserved x)
        s.inventory) [
          | some x ↦
              update_inventory db x.0 (λ y. y.tenant_id == tenant)
                (λ y. record y { quantity = x.1.quantity +ℤ quantity }) s
          | none ↦ (create_inventory db (reserved_row tenant now r quantity) >> pure tt) s
        ]

  -- One round of the loop over the stock rows. After the `break` the rounds that the loop leaves
  -- out would do nothing, since nothing is missing any more.
  pub allocate_row : ℕ → ℕ → ℕ × Inventory → Progress → Action (Db db) Progress
  unfolding reserve
  allocate_row tenant now (i, r) g =
      if leb_ℤ g.remaining (pos 0) || leb_ℤ r.quantity (pos 0)
      then pure g
      else let q = allocate_qty r.quantity g.remaining in
        do
          update_inventory db i (λ y. y.tenant_id == tenant)
              (λ y. record y { quantity = r.quantity -ℤ q })
          reserve tenant now r q
          pure (record { allocated = g.allocated +ℤ q; remaining = g.remaining -ℤ q })

  pub allocate_rows : ℕ → ℕ → List (ℕ × Inventory) → Progress → Action (Db db) Progress
  unfolding allocate_row
  allocate_rows tenant now [] g = pure g
  allocate_rows tenant now (x ∷ xs) g =
      allocate_row tenant now x g >>= λ g'. allocate_rows tenant now xs g'

  abbrev pub expiry_of : Db db → Inventory → Option ℕ
  expiry_of s r = elim r.batch_id [
    | none ↦ none
    | some b ↦ elim (db.get s.batches b) [ none ↦ none | some batch ↦ batch.expiry_date ]
  ]

  -- `product.requiresExpiryDate`
  abbrev pub requires_expiry : ℕ → Db db → Bool
  requires_expiry product s = elim (db.get s.products product) [
    | none ↦ false
    | some p ↦ p.requires_expiry_date
  ]

  -- First expired first out where the product expires, then first in first out.
  pub allocates_first : Db db → ℕ → Inventory → Inventory → Bool
  unfolding earlier
  allocates_first s product a b =
      if requires_expiry product s
      then earlier (expiry_of s a) (expiry_of s b)
        || not (earlier (expiry_of s b) (expiry_of s a)) && ltb a.created_at b.created_at
      else ltb a.created_at b.created_at

  -- The available stock of a product in the warehouse.
  pub candidates : ℕ → ℕ → ℕ → Db db → List (ℕ × Inventory)
  unfolding allocates_first
  candidates tenant warehouse product s =
      db.find_many
        (λ i r.
          r.product_id == product
          && (r.tenant_id == tenant
              && (same_status r.stock_status available
                  && stands_in db tenant warehouse r.location_id s)))
        (allocates_first s product) s.inventory

  pub allocate_line : ℕ → ℕ → ℕ → ℕ × OutboundOrderLine → Action (Db db) (Unit {0})
  unfolding candidates allocate_rows
  allocate_line tenant now warehouse (i, line) =
      let missing = line.requested_qty -ℤ line.allocated_qty in
      if leb_ℤ missing (pos 0) then pure tt else do
        rows ← gets (candidates tenant warehouse line.product_id)
        g ←
            allocate_rows tenant now rows
              (record { allocated = line.allocated_qty; remaining = missing })
        update_outbound_order_line db i (λ l. l.tenant_id == tenant)
            (λ l. record l { allocated_qty = g.allocated })

  abbrev pub tenant_lines_of_order : ℕ → ℕ → Db db → List (ℕ × OutboundOrderLine)
  tenant_lines_of_order tenant order_id s =
      db.find_many (λ i r. r.outbound_order_id == order_id && r.tenant_id == tenant) (λ a b. false)
        s.order_lines

  pub release_body :
      ℕ
      → ℕ
      → ℕ
      → OutboundOrder
      → List (ℕ × OutboundOrderLine)
      → Option OutboundRule
      → Action (Db db) (Unit {0})
  unfolding allocate_line for_each allocation_status
  release_body tenant now order_id order lines rule = do
    update_outbound_order db order_id (λ o. true)
        (λ o. record o { status = OutboundOrderStatus.released })
    for_each lines (allocate_line tenant now order.warehouse_id)
    updated_lines ← gets (tenant_lines_of_order tenant order_id)
    let all_allocated = every (λ x. is_fully_allocated x.1) updated_lines
    raise_if (enforces_full rule && not all_allocated) (bad_request full_allocation)
    raise_if (forbids_partial rule && not all_allocated) (bad_request partial_disabled)
    update_outbound_order db order_id (λ o. o.tenant_id == tenant)
        (λ o. record o {
          status = allocation_status all_allocated (any (λ x. has_allocation x.1) updated_lines);
        })

  unfoldable pub release_outbound_order : ℕ → ℕ → ℕ → Action (Db db) (Unit {0})
  unfolding get_outbound_rule release_body
  release_outbound_order tenant now order_id = do
    order ←
        or_raise (← gets (λ s. find_by_id db order_id (λ r. r.tenant_id == tenant) s.orders))
          (not_found order_not_found)
    lines ← gets (lines_of_order db order_id)
    raise_if (not (is_draft order.1.status)) (bad_request only_draft_released)
    rule ← gets (get_outbound_rule tenant order.1.warehouse_id)
    transaction (release_body tenant now order_id order.1 lines rule)
