-- ===== src/Outbound/Orders.antt =====
-- createOutboundOrder: an order in DRAFT with its lines.
use awmsom.Base.{
  ℕ, Option, none, some, List, [], ◌∷◌, ℤ, pos, ◌==◌, Action, pure, gets, raise, or_raise, for_each,
  ◌>>=◌, ◌>>◌, not_found, bad_request, warehouse_not_found, product_not_found, no_lines,
}
use awmsom.Prisma.{Prisma, find_by_id}
use awmsom.Schema.{Db, OutboundOrder, OutboundOrderLine, OutboundOrderStatus}
use awmsom.Outbound.Tables.{create_outbound_order, create_outbound_order_line}

-- OutboundOrderLineInputDto and CreateOutboundOrderDto
pub record OrderLineInput : Type 0 where
  pub product_id : ℕ
  pub requested_qty : ℤ
  pub uom : ℕ

pub record OrderInput : Type 0 where
  pub warehouse_id : ℕ
  pub external_ref : Option ℕ
  pub customer_ref : Option ℕ
  pub requested_ship_date : Option ℕ
  pub lines : List OrderLineInput

-- The row of a new order.
abbrev pub draft_order : ℕ → OrderInput → OutboundOrder
draft_order tenant dto = record {
  tenant_id = tenant;
  warehouse_id = dto.warehouse_id;
  external_ref = dto.external_ref;
  customer_ref = dto.customer_ref;
  route_code = none;
  carrier_code = none;
  zone_code = none;
  priority = some (pos 0);
  requested_ship_date = dto.requested_ship_date;
  status = OutboundOrderStatus.draft;
}

-- The row of a new line; nothing is allocated or picked yet.
abbrev pub draft_line : ℕ → ℕ → OrderLineInput → OutboundOrderLine
draft_line tenant order_id line = record {
  tenant_id = tenant;
  outbound_order_id = order_id;
  product_id = line.product_id;
  requested_qty = line.requested_qty;
  allocated_qty = pos 0;
  picked_qty = pos 0;
  uom = line.uom;
}

module _ (db : Prisma) where
  -- `if (!dto.lines?.length) throw`
  abbrev pub require_lines : List OrderLineInput → Action (Db db) (Unit {0})
  require_lines [] = raise (bad_request no_lines)
  require_lines (l ∷ ls) = pure tt

  abbrev pub require_product : ℕ → OrderLineInput → Action (Db db) (Unit {0})
  require_product tenant line = do
    or_raise (← gets (λ s. find_by_id db line.product_id (λ r. r.tenant_id == tenant) s.products))
        (bad_request product_not_found)
    pure tt

  unfoldable pub create_order : ℕ → OrderInput → Action (Db db) ℕ
  unfolding for_each
  create_order tenant dto = do
    or_raise
        (← gets (λ s. find_by_id db dto.warehouse_id (λ r. r.tenant_id == tenant) s.warehouses))
        (not_found warehouse_not_found)
    require_lines dto.lines
    for_each dto.lines (require_product tenant)
    order_id ← create_outbound_order db (draft_order tenant dto)
    for_each dto.lines
        (λ line. create_outbound_order_line db (draft_line tenant order_id line) >> pure tt)
    pure order_id
