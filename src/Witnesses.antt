-- ===== src/Witnesses.antt =====
-- Runs of the modelled handlers on small tables in memory, which show that the theorems apply.
pub mod Release
pub mod Packing
pub mod Picking
pub mod Inbound
pub mod System
pub mod Waves
pub mod Replenishment
pub mod Slotting
pub mod Shipping
use awmsom.Base.{
  ℕ, zero, suc, ◌≡◌, refl, ◌≢◌, ◌⊎◌, false, Option, none, some, List, [], ◌∷◌, ℤ, pos, negsuc, ◌≤◌,
  ◌+◌, ◌≤ℤ◌, ◌-ℤ◌, arith, ok, err, plain_error, no_fefo_lot, keep, All,
}
use awmsom.Prisma.{memory}
use awmsom.Prisma.Memory.Laws.{memory-IsClient}
use awmsom.Schema.{
  Db, Inventory, Product, HandlingUnit, HandlingUnitType, OutboundOrder, OutboundOrderLine,
  OutboundOrderStatus, CycleCountTask, CycleCountLine, CycleCountStatus, StockStatus, available,
  reserved, quarantine,
}
use awmsom.Common.RateLimit.{RateWindow, check}
use awmsom.Common.RateLimit.Laws.{Before, allowed_requests, requests, min, check-remaining}
use awmsom.Common.Pagination.{build_pagination_params}
use awmsom.Common.Pagination.Laws.{build_pagination_params_lem}
use awmsom.Inventory.Stock.{IsNonneg, KeepsOthers}
use awmsom.Inventory.Adjust.{AdjustmentParams, apply_inventory_adjustment}
use awmsom.Inventory.Adjust.Laws.{Adjusted, apply_inventory_adjustment-Adjusted}
use awmsom.Inventory.Increase.{IncreaseParams, increase_stock}
use awmsom.Inventory.Increase.Laws.{Increased, increase_stock-Increased}
use awmsom.Inventory.Safety.{apply_inventory_adjustment-IsNonneg}
use awmsom.Inventory.CountStatus.{choose_status, determine_count_stock_status}
use awmsom.Inventory.CountStatus.Laws.{In, choose_status_lem}
use awmsom.Inventory.Domain.Stock.{StockItem}
use awmsom.Inventory.Domain.Fefo.{is_eligible, select_fefo_lot}
use awmsom.Inventory.Domain.Fefo.Laws.{LotIn, IsEligible, IsDueBy, HasCreation, select_fefo_lot_lem}
use awmsom.Inventory.CycleCount.Tasks.{start_cycle_count}
use awmsom.Inventory.CycleCount.Tasks.Laws.{Started, start_cycle_count-Started}
use awmsom.Inventory.CycleCount.Submit.{CountResult, submit_cycle_count}
use awmsom.Inventory.CycleCount.Submit.Laws.{
  Completed, submit_cycle_count-Completed, submit_cycle_count-IsNonneg,
}

abbrev pub stock_row : ℕ → StockStatus → ℤ → Inventory
stock_row tenant status quantity = record {
  tenant_id = tenant;
  product_id = 0;
  batch_id = none;
  location_id = 0;
  quantity = quantity;
  uom = 7;
  stock_status = status;
  created_at = 0;
}

abbrev task : CycleCountStatus → CycleCountTask
task status = record {
  tenant_id = 1;
  warehouse_id = 0;
  description = none;
  status = status;
  started_at = none;
  completed_at = none;
}

abbrev uncounted : CycleCountLine
uncounted = record {
  tenant_id = 1;
  cycle_count_task_id = 1;
  product_id = 0;
  batch_id = none;
  location_id = 0;
  uom = 7;
  expected_qty = pos 50000;
  counted_qty = none;
  difference_qty = none;
  counted_at = none;
  counted_by = none;
}

abbrev pub draft : OutboundOrder
draft = record {
  tenant_id = 1;
  warehouse_id = 0;
  external_ref = none;
  customer_ref = none;
  route_code = none;
  carrier_code = none;
  zone_code = none;
  priority = some (pos 0);
  requested_ship_date = none;
  status = OutboundOrderStatus.draft;
}

abbrev pub order_line : OutboundOrderLine
order_line = record {
  tenant_id = 1;
  outbound_order_id = 0;
  product_id = 0;
  requested_qty = pos 70000;
  allocated_qty = pos 0;
  picked_qty = pos 30000;
  uom = 7;
}

abbrev box_unit : HandlingUnit
box_unit = record {
  tenant_id = 1;
  warehouse_id = 0;
  handling_unit_type = HandlingUnitType.box;
  code = 77;
}

abbrev product_row : Product
product_row = record {
  tenant_id = 1;
  sku = 21;
  requires_batch = false;
  requires_expiry_date = false;
  default_uom = 7;
}

-- Tenant 1 has 5 units of product 0 at location 0, and tenant 2 has 9 of them. Task 0 is pending,
-- and task 1 is in progress. Order 0 is a draft and asks for 7 units, 3 of
-- which are taken as picked; a box is empty.
pub tables : Db memory
unfolding memory
tables = record {
  warehouses = record { tenant_id = 1 } ∷ [];
  products = product_row ∷ [];
  batches = [];
  locations = record { tenant_id = 1; warehouse_id = 0; code = 11 } ∷ [];
  inventory = stock_row 1 available (pos 50000) ∷ stock_row 2 available (pos 90000) ∷ [];
  movement_headers = [];
  movement_lines = [];
  cycle_count_tasks = task CycleCountStatus.pending ∷ task CycleCountStatus.in_progress ∷ [];
  cycle_count_lines = uncounted ∷ [];
  adjustments = [];
  inbound_receipts = [];
  inbound_receipt_lines = [];
  orders = draft ∷ [];
  order_lines = order_line ∷ [];
  picking_tasks = [];
  picking_task_lines = [];
  handling_units = box_unit ∷ [];
  handling_unit_lines = [];
  shipments = [];
  shipment_handling_units = [];
  waves = [];
  wave_orders = [];
  tenant_configs = [];
  inventory_policies = [];
  outbound_rules = [];
}

pub tables-IsNonneg : IsNonneg memory tables.inventory
unfolding memory tables
tables-IsNonneg zero r g = ground arith
tables-IsNonneg (suc zero) r g = ground arith
tables-IsNonneg (suc (suc i)) r g = ground arith

abbrev adjustment_params : AdjustmentParams
adjustment_params = record {
  warehouse_id = 0;
  product_id = 0;
  batch_id = none;
  location_id = 0;
  new_qty = pos 30000;
  uom = none;
  stock_status = none;
  reason = 1;
  reference = none;
  created_by = none;
}

abbrev increase_params : IncreaseParams
increase_params = record {
  warehouse_id = 0;
  product_id = 0;
  batch_id = none;
  location_id = 0;
  quantity = pos 20000;
  uom = 7;
  stock_status = quarantine;
}

abbrev pub counted : List CountResult
counted = record { line_id = 0; counted_qty = pos 42500 } ∷ []

apply_inventory_adjustment_test :
    (apply_inventory_adjustment memory 1 5 adjustment_params tables).0
    ≡ ok (some (0, stock_row 1 available (pos 30000)))
unfolding apply_inventory_adjustment memory tables determine_count_stock_status
apply_inventory_adjustment_test = refl

submit_cycle_count_test :
    memory.get (submit_cycle_count memory 1 5 1 counted tables).1.inventory 0
    ≡ some (stock_row 1 available (pos 42500))
unfolding submit_cycle_count memory tables determine_count_stock_status ◌-ℤ◌
    apply_inventory_adjustment
submit_cycle_count_test = refl

apply_inventory_adjustment-Adjusted_example :
    Adjusted memory 1 adjustment_params tables
      (apply_inventory_adjustment memory 1 5 adjustment_params tables)
apply_inventory_adjustment-Adjusted_example =
    apply_inventory_adjustment-Adjusted memory memory-IsClient 1 5 adjustment_params tables

increase_stock-Increased_example :
    Increased memory 1 increase_params tables (increase_stock memory 1 5 increase_params tables)
increase_stock-Increased_example =
    increase_stock-Increased memory memory-IsClient 1 5 increase_params tables

apply_inventory_adjustment-IsNonneg_example :
    IsNonneg memory (apply_inventory_adjustment memory 1 5 adjustment_params tables).1.inventory
    × KeepsOthers memory 1 tables.inventory
        (apply_inventory_adjustment memory 1 5 adjustment_params tables).1.inventory
apply_inventory_adjustment-IsNonneg_example =
    apply_inventory_adjustment-IsNonneg memory memory-IsClient 1 5 adjustment_params tables
      tables-IsNonneg

start_cycle_count-Started_example :
    Started memory 1 5 0 tables (start_cycle_count memory 1 5 0 tables)
start_cycle_count-Started_example = start_cycle_count-Started memory memory-IsClient 1 5 0 tables

submit_cycle_count-Completed_example :
    Completed memory memory-IsClient 1 5 1 counted tables
      (submit_cycle_count memory 1 5 1 counted tables)
submit_cycle_count-Completed_example =
    submit_cycle_count-Completed memory memory-IsClient 1 5 1 counted tables

submit_cycle_count-IsNonneg_example :
    IsNonneg memory (submit_cycle_count memory 1 5 1 counted tables).1.inventory
submit_cycle_count-IsNonneg_example =
    submit_cycle_count-IsNonneg memory memory-IsClient 1 5 1 counted tables tables-IsNonneg

abbrev sums : List (StockStatus × ℤ)
sums = (reserved, pos 3) ∷ (quarantine, pos 8) ∷ []

choose_status_example :
    ((choose_status sums ≡ available)
      × ((sums ≡ []) ⊎ ((g : StockStatus × ℤ) × In g sums × (g.0 ≡ available) × (pos 1 ≤ℤ g.1))))
    ⊎ (All (λ h. (h.0 ≢ available) ⊎ (h.1 ≤ℤ pos 0)) sums
        × ((g : StockStatus × ℤ) × In g sums
            × (choose_status sums ≡ g.0)
            × All (λ h. h.1 ≤ℤ g.1) sums))
choose_status_example = choose_status_lem sums

-- Key 3 has one request left in its window, and asks twice more; key 4 asks between.
abbrev windows : List (ℕ × RateWindow)
windows = (3, record { count = 58; reset_at = 60000 }) ∷ []

abbrev later_requests : List (ℕ × ℕ)
later_requests = (3, 200) ∷ (4, 300) ∷ (3, 400) ∷ []

later_requests-Before : Before (check 3 100 windows).0.reset_at later_requests
unfolding check
later_requests-Before = (ground arith, (ground arith, (ground arith, tt)))

check-remaining_example :
    allowed_requests 3 later_requests (check 3 100 windows).1
    ≡ min (check 3 100 windows).0.remaining (requests 3 later_requests)
check-remaining_example = check-remaining 3 100 windows later_requests later_requests-Before

build_pagination_params_example :
    (1 ≤ (build_pagination_params none (some (pos 500))).take)
    × ((build_pagination_params none (some (pos 500))).take ≤ 200)
    × ((build_pagination_params none (some (pos 500))).skip ≡ 0)
    × ((build_pagination_params (some (negsuc 2)) (some (pos 500))).skip ≡ 0)
    × ((build_pagination_params (some (pos (3 + 2))) (some (pos 500))).skip
        ≡ (build_pagination_params (some (pos (3 + 1))) (some (pos 500))).skip
          + (build_pagination_params (some (pos (3 + 1))) (some (pos 500))).take)
build_pagination_params_example =
    build_pagination_params_lem none (some (pos 500)) (negsuc 2) 3 (omega arith)

abbrev lot : ℕ → Option ℕ → ℕ → StockItem
lot code expiration created = record {
  product_id = 0;
  quantity = pos 10000;
  uom = 7;
  location_id = 0;
  lot_code = some code;
  expiration_date = expiration;
  stock_state = available;
  id = some code;
  created_at = some created;
  updated_at = none;
  created_by = none;
  updated_by = none;
}

abbrev lots : List StockItem
lots = lot 1 none 5 ∷ lot 2 (some 90) 8 ∷ lot 3 (some 40) 9 ∷ []

select_fefo_lot_test : select_fefo_lot lots ≡ ok (lot 3 (some 40) 9)
unfolding select_fefo_lot
select_fefo_lot_test = refl

lots-HasCreation : HasCreation lots
lots-HasCreation = (λ e. cc, (λ e. cc, (λ e. cc, tt)))

select_fefo_lot_example :
    (All (λ y. IsEligible y → ⊥) lots × (select_fefo_lot lots ≡ err (plain_error no_fefo_lot)))
    ⊎ ((x : StockItem) × (select_fefo_lot lots ≡ ok x)
        × LotIn x lots
        × IsEligible x
        × All (λ y. IsEligible y → IsDueBy x y) lots)
select_fefo_lot_example = select_fefo_lot_lem lots lots-HasCreation
