-- ===== src/Inbound/Status.antt =====
-- resolveLegacyStatus and mapLegacyStatus: the statuses of a receipt under the names of the older
-- interface. `toUpperCase` is the runtime's.
use Prim.Native.String.{String}
use text.Mathlib.Text.{◌==◌ as str_eq}
use awmsom.Base.{Option, none, some, ◌≡◌, refl, if◌then◌else◌}
use awmsom.Schema.{InboundReceiptStatus}

abbrev pub map_legacy_status : InboundReceiptStatus → String
map_legacy_status InboundReceiptStatus.draft = "CREATED"
map_legacy_status InboundReceiptStatus.partially_received = "IN_PROGRESS"
map_legacy_status InboundReceiptStatus.received = "COMPLETED"
map_legacy_status InboundReceiptStatus.cancelled = "COMPLETED"

-- `InboundReceiptStatus[normalized]`
abbrev pub status_named : String → Option InboundReceiptStatus
status_named t =
    if str_eq t "DRAFT"
    then some InboundReceiptStatus.draft
    else if str_eq t "PARTIALLY_RECEIVED"
    then some InboundReceiptStatus.partially_received
    else if str_eq t "RECEIVED"
    then some InboundReceiptStatus.received
    else if str_eq t "CANCELLED"
    then some InboundReceiptStatus.cancelled
    else none

abbrev pub resolve_legacy_status : (String → String) → Option String → Option InboundReceiptStatus
resolve_legacy_status to_upper_case none = none
resolve_legacy_status to_upper_case (some t) =
    let n = to_upper_case t in
    if str_eq t ""
    then none
    else if str_eq n "CREATED"
    then some InboundReceiptStatus.draft
    else if str_eq n "IN_PROGRESS"
    then some InboundReceiptStatus.partially_received
    else if str_eq n "COMPLETED"
    then some InboundReceiptStatus.received
    else status_named n

-- The status under which a receipt is found again: a cancelled one is shown as completed.
abbrev pub shown_as : InboundReceiptStatus → InboundReceiptStatus
shown_as InboundReceiptStatus.cancelled = InboundReceiptStatus.received
shown_as x = x

-- Filtering by the status that a receipt is shown under finds the receipts of its status, but for a
-- cancelled one, which is shown as a received one and found as one; where `toUpperCase` leaves the
-- three names of the older interface as they are.
pub resolve_legacy_status-map_legacy_status :
    (to_upper_case : String → String)
    → to_upper_case "CREATED" ≡ "CREATED"
    → to_upper_case "IN_PROGRESS" ≡ "IN_PROGRESS"
    → to_upper_case "COMPLETED" ≡ "COMPLETED"
    → (x : InboundReceiptStatus)
    → resolve_legacy_status to_upper_case (some (map_legacy_status x)) ≡ some (shown_as x)
resolve_legacy_status-map_legacy_status up a b c InboundReceiptStatus.draft = rw a refl
resolve_legacy_status-map_legacy_status up a b c InboundReceiptStatus.partially_received = rw b refl
resolve_legacy_status-map_legacy_status up a b c InboundReceiptStatus.received = rw c refl
resolve_legacy_status-map_legacy_status up a b c InboundReceiptStatus.cancelled = rw c refl
