-- ===== src/Witnesses/Shipping.antt =====
-- Runs of a dispatch.
use awmsom.Base.{◌≡◌, refl, none, some, [], ◌∷◌, Error, ok, err}
use awmsom.Prisma.{memory}
use awmsom.Prisma.Memory.Laws.{memory-IsClient}
use awmsom.Schema.{Db, Shipment, ShipmentStatus}
use awmsom.Outbound.Shipping.{dispatch_shipment}
use awmsom.Outbound.Shipping.Laws.{
  Dispatched, dispatch_shipment-Dispatched, dispatch_shipment-twice,
}
use awmsom.Witnesses.{tables}

abbrev planned_shipment : Shipment
planned_shipment = record {
  tenant_id = 1;
  warehouse_id = 0;
  carrier_ref = none;
  vehicle_ref = none;
  route_ref = none;
  status = ShipmentStatus.planned;
  scheduled_departure = none;
  actual_departure = none;
}

shipment_tables : Db memory
unfolding memory tables
shipment_tables = record tables {
  shipments = planned_shipment ∷ [];
  shipment_handling_units =
      record { tenant_id = 1; shipment_id = 0; handling_unit_id = 0; outbound_order_id = 0 } ∷ [];
}

dispatch_runs :
    dispatch_shipment memory 1 50 0 none shipment_tables
    ≡ (ok tt, (dispatch_shipment memory 1 50 0 none shipment_tables).1)
unfolding dispatch_shipment memory shipment_tables tables
dispatch_runs = refl

dispatch_shipment-Dispatched_example :
    Dispatched memory 1 50 0 none shipment_tables
      (dispatch_shipment memory 1 50 0 none shipment_tables)
dispatch_shipment-Dispatched_example =
    dispatch_shipment-Dispatched memory memory-IsClient 1 50 0 none shipment_tables

dispatch_shipment-twice_example :
    (e : Error) × (dispatch_shipment memory 1 60 0
        (some 70)
        (dispatch_shipment memory 1 50 0 none shipment_tables).1
      ≡ (err e, (dispatch_shipment memory 1 50 0 none shipment_tables).1))
dispatch_shipment-twice_example =
    dispatch_shipment-twice memory memory-IsClient 1 50 60 0 none (some 70) shipment_tables
      (dispatch_shipment memory 1 50 0 none shipment_tables).1 dispatch_runs
