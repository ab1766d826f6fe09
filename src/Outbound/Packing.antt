-- ===== src/Outbound/Packing.antt =====
-- createHandlingUnit and addItemsToHandlingUnit.
pub mod Laws
use awmsom.Base.{
  ℕ, Option, none, some, List, ℤ, pos, ◌+ℤ◌, ltb_ℤ, leb_ℤ, ◌==◌, ◌&&◌, not, if◌then◌else◌, find,
  Action, pure, gets, raise_if, or_raise, transaction, for_each, ◌>>=◌, ◌>>◌, not_found,
  bad_request, warehouse_not_found, handling_unit_not_found, order_not_found, warehouse_mismatch,
  order_line_not_found, product_mismatch, quantity_not_positive, pack_over_picked,
}
use awmsom.Prisma.{Prisma, find_by_id}
use awmsom.Schema.{Db, OutboundOrderLine, HandlingUnitLine, HandlingUnitType, box}
use awmsom.Outbound.Tables.{create_handling_unit, create_handling_unit_line, lines_of_order}

-- HandlingUnitItemDto
pub record PackItem : Type 0 where
  pub order_line_id : ℕ
  pub product_id : ℕ
  pub batch_id : Option ℕ
  pub quantity : ℤ
  pub uom : ℕ

abbrev pub packed_row : ℕ → ℕ → ℕ → PackItem → HandlingUnitLine
packed_row tenant unit_id order_id item = record {
  tenant_id = tenant;
  handling_unit_id = unit_id;
  outbound_order_id = order_id;
  outbound_order_line_id = item.order_line_id;
  product_id = item.product_id;
  batch_id = item.batch_id;
  quantity = item.quantity;
  uom = item.uom;
}

module _ (db : Prisma) where
  -- `generated` is what generateHandlingUnitCode returns, a date and a random number.
  unfoldable pub create_unit : ℕ → ℕ → Option HandlingUnitType → Option ℕ → ℕ → Action (Db db) ℕ
  create_unit tenant warehouse unit_type code generated = do
    or_raise (← gets (λ s. find_by_id db warehouse (λ r. r.tenant_id == tenant) s.warehouses))
        (not_found warehouse_not_found)
    create_handling_unit db (record {
      tenant_id = tenant;
      warehouse_id = warehouse;
      handling_unit_type = elim unit_type [ some t ↦ t | none ↦ box ];
      code = elim code [ some c ↦ c | none ↦ generated ];
    })

  -- `aggregate({ where: { outboundOrderLineId, tenantId }, _sum: { quantity } })`
  abbrev pub packed_total : ℕ → ℕ → db.Table HandlingUnitLine → ℤ
  packed_total tenant line_id t =
      db.sum
        (λ i r.
          if r.outbound_order_line_id == line_id && r.tenant_id == tenant
          then r.quantity
          else pos 0)
        t

  -- One round of the loop over the items; the order lines are those read before.
  pub pack_item : ℕ → ℕ → ℕ → List (ℕ × OutboundOrderLine) → PackItem → Action (Db db) (Unit {0})
  pack_item tenant unit_id order_id lines item = do
    line ← or_raise (find (λ x. x.0 == item.order_line_id) lines) (bad_request order_line_not_found)
    raise_if (not (line.1.product_id == item.product_id)) (bad_request product_mismatch)
    already_packed ← gets (λ s. packed_total tenant item.order_line_id s.handling_unit_lines)
    raise_if (leb_ℤ item.quantity (pos 0)) (bad_request quantity_not_positive)
    raise_if (ltb_ℤ line.1.picked_qty (already_packed +ℤ item.quantity))
        (bad_request pack_over_picked)
    create_handling_unit_line db (packed_row tenant unit_id order_id item)
    pure tt

  unfoldable pub add_items : ℕ → ℕ → ℕ → List PackItem → Action (Db db) (Unit {0})
  unfolding pack_item for_each
  add_items tenant unit_id order_id items = do
    unit ←
        or_raise (← gets (λ s. find_by_id db unit_id (λ r. r.tenant_id == tenant) s.handling_units))
          (not_found handling_unit_not_found)
    order ←
        or_raise (← gets (λ s. find_by_id db order_id (λ r. r.tenant_id == tenant) s.orders))
          (not_found order_not_found)
    lines ← gets (lines_of_order db order_id)
    raise_if (not (order.1.warehouse_id == unit.1.warehouse_id)) (bad_request warehouse_mismatch)
    transaction (for_each items (pack_item tenant unit_id order_id lines))
