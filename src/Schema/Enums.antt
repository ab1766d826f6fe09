-- ===== src/Schema/Enums.antt =====
-- The enumerations of prisma/schema.prisma, with the tests that the services make on them.
use awmsom.Base.{ℕ, Bool, true, false, ◌==◌, ◌≡◌, refl, sym, ◌∙◌, ap, ==_iff, if◌then◌else◌}

pub data StockStatus : Type 0 where
  available reserved picking in_transit_internal quarantine scrap blocked : StockStatus

-- The position in the enumeration; two statuses are equal if their positions are.
abbrev pub rank : StockStatus → ℕ
rank available = 0
rank reserved = 1
rank picking = 2
rank in_transit_internal = 3
rank quarantine = 4
rank scrap = 5
rank blocked = 6

abbrev pub same_status : StockStatus → StockStatus → Bool
same_status a b = rank a == rank b

abbrev status_at : ℕ → StockStatus
status_at n =
    if n == 0
    then available
    else if n == 1
    then reserved
    else if n == 2
    then picking
    else if n == 3
    then in_transit_internal
    else if n == 4
    then quarantine
    else if n == 5
    then scrap
    else blocked

status_at-rank : (a : StockStatus) → status_at (rank a) ≡ a
status_at-rank available = refl
status_at-rank reserved = refl
status_at-rank picking = refl
status_at-rank in_transit_internal = refl
status_at-rank quarantine = refl
status_at-rank scrap = refl
status_at-rank blocked = refl

pub same_status-eq : (a b : StockStatus) → same_status a b ≡ true → a ≡ b
same_status-eq a b h =
    sym (status_at-rank a) ∙ ap status_at ((==_iff (rank a) (rank b)).0 h) ∙ status_at-rank b

pub same_status_refl : (a : StockStatus) → same_status a a ≡ true
same_status_refl a = (==_iff (rank a) (rank a)).1 refl

pub data AdjustmentType : Type 0 where
  gain loss correction : AdjustmentType

pub data InboundReceiptStatus : Type 0 where
  draft partially_received received cancelled : InboundReceiptStatus

pub data MovementType : Type 0 where
  inbound_receipt internal_transfer adjustment outbound_shipment : MovementType

pub data MovementStatus : Type 0 where
  pending completed cancelled : MovementStatus

pub data CycleCountStatus : Type 0 where
  pending in_progress completed cancelled : CycleCountStatus

pub data OutboundOrderStatus : Type 0 where
  draft released partially_allocated fully_allocated picking partially_picked picked cancelled :
      OutboundOrderStatus

pub data PickingTaskStatus : Type 0 where
  created assigned in_progress completed cancelled : PickingTaskStatus

pub data ShipmentStatus : Type 0 where
  planned loading dispatched cancelled : ShipmentStatus

pub data WavePickingStrategy : Type 0 where
  by_route by_carrier by_zone by_timewindow by_priority : WavePickingStrategy

pub data WaveStatus : Type 0 where
  created released in_progress completed cancelled : WaveStatus

pub data HandlingUnitType : Type 0 where
  box pallet parcel container other : HandlingUnitType

abbrev pub is_pending : CycleCountStatus → Bool
is_pending CycleCountStatus.pending = true
is_pending _ = false

abbrev pub is_in_progress : CycleCountStatus → Bool
is_in_progress CycleCountStatus.in_progress = true
is_in_progress _ = false

abbrev pub is_draft : OutboundOrderStatus → Bool
is_draft OutboundOrderStatus.draft = true
is_draft _ = false

abbrev pub is_draft_receipt : InboundReceiptStatus → Bool
is_draft_receipt InboundReceiptStatus.draft = true
is_draft_receipt _ = false

-- DRAFT or PARTIALLY_RECEIVED
abbrev pub is_confirmable : InboundReceiptStatus → Bool
is_confirmable InboundReceiptStatus.draft = true
is_confirmable InboundReceiptStatus.partially_received = true
is_confirmable _ = false

-- RECEIVED or CANCELLED
abbrev pub is_settled : InboundReceiptStatus → Bool
is_settled InboundReceiptStatus.received = true
is_settled InboundReceiptStatus.cancelled = true
is_settled _ = false

-- FULLY_ALLOCATED or PARTIALLY_ALLOCATED
abbrev pub is_allocated : OutboundOrderStatus → Bool
is_allocated OutboundOrderStatus.fully_allocated = true
is_allocated OutboundOrderStatus.partially_allocated = true
is_allocated _ = false

-- FULLY_ALLOCATED, RELEASED or PARTIALLY_ALLOCATED
abbrev pub is_waveable : OutboundOrderStatus → Bool
is_waveable OutboundOrderStatus.fully_allocated = true
is_waveable OutboundOrderStatus.released = true
is_waveable OutboundOrderStatus.partially_allocated = true
is_waveable _ = false

-- CREATED or ASSIGNED
abbrev pub is_startable : PickingTaskStatus → Bool
is_startable PickingTaskStatus.created = true
is_startable PickingTaskStatus.assigned = true
is_startable _ = false

abbrev pub is_picking : PickingTaskStatus → Bool
is_picking PickingTaskStatus.in_progress = true
is_picking _ = false

-- CANCELLED or DISPATCHED
abbrev pub is_closed : ShipmentStatus → Bool
is_closed ShipmentStatus.cancelled = true
is_closed ShipmentStatus.dispatched = true
is_closed _ = false

-- PLANNED or LOADING
abbrev pub is_dispatchable : ShipmentStatus → Bool
is_dispatchable ShipmentStatus.planned = true
is_dispatchable ShipmentStatus.loading = true
is_dispatchable _ = false

-- `shipment.status === PLANNED ? LOADING : shipment.status`
abbrev pub after_assignment : ShipmentStatus → ShipmentStatus
after_assignment ShipmentStatus.planned = ShipmentStatus.loading
after_assignment x = x
