-- ===== src/Base/Monad.antt =====
-- A call of a service: state and exceptions. What was written stays written after a throw, unless
-- the writes stood in a `$transaction`, which rolls them back.
use mathlib.Core.Path.{◌≡◌, refl}
use mathlib.Core.Logic.{◌⊎◌, inl, inr}
use mathlib.Core.Bool.{Bool}
use mathlib.Core.Option.{Option, none, some}
use mathlib.Core.List.{List, [], ◌∷◌}
use awmsom.Base.Tests.{if◌then◌else◌}

-- The messages that the modelled handlers throw.
pub data Message : Type 0 where
  warehouse_not_found product_not_found batch_not_found location_not_found : Message
  cycle_count_task_not_found cycle_count_line_not_found : Message
  location_not_in_warehouse location_not_in_count_warehouse batch_not_of_product : Message
  negative_stock quantity_not_positive : Message
  counting_disabled task_closed duplicate_request_lines duplicate_task_lines : Message
  only_pending_start must_be_in_progress missing_lines already_counted : Message
  order_not_found no_lines only_draft_released full_allocation partial_disabled : Message
  order_not_allocated picking_task_not_found cannot_start_picking picking_not_in_progress : Message
  picking_line_not_found pick_over_reserved no_reserved_stock short_reserved_stock : Message
  handling_unit_not_found warehouse_mismatch order_line_not_found product_mismatch : Message
  pack_over_picked shipment_not_found shipment_closed handling_units_missing : Message
  handling_unit_empty shipment_not_dispatchable shipment_empty : Message
  inbound_receipt_not_found receipt_not_draft batch_required expiry_required : Message
  receipt_not_confirmable receipt_without_lines destination_not_found : Message
  destination_in_other_warehouse no_receipt_lines_given duplicate_receipt_lines : Message
  nothing_to_process receipt_line_not_found received_not_positive over_tolerance : Message
  under_tolerance movement_without_lines receipt_settled destination_required : Message
  lines_not_received : Message
  stock_below_zero lot_not_found no_fefo_lot : Message
  movement_not_positive movement_without_user movement_without_location : Message

-- The NestJS exception classes and a plain `Error`, with the message as a case, and Prisma's
-- `P2025` and its validation error.
pub data Error : Type 0 where
  not_found bad_request plain_error : Message → Error
  record_not_found : Error
  invalid_data : Error

pub data Result (A : Type 0) : Type 0 where
  ok : A → Result A
  err : Error → Result A

abbrev pub Action : Type 0 → Type 0 → Type 0
Action S A = S → Result A × S

module _ {A : Type 0} where
  pub Result-cases : (r : Result A) → ((a : A) × (r ≡ ok a)) ⊎ ((e : Error) × (r ≡ err e))
  Result-cases (ok a) = inl (a, refl)
  Result-cases (err e) = inr (e, refl)

module _ {S A : Type 0} where
  abbrev pub pure : A → Action S A
  pure a s = (ok a, s)

  abbrev pub raise : Error → Action S A
  raise e s = (err e, s)

  abbrev pub gets : (S → A) → Action S A
  gets f s = (ok (f s), s)

  abbrev pub or_raise : Option A → Error → Action S A
  or_raise none e = raise e
  or_raise (some a) e = pure a

  -- `prisma.$transaction(body)`
  abbrev pub transaction : Action S A → Action S A
  transaction m s = let (r, s') = m s in elim r [ ok a ↦ (ok a, s') | err e ↦ (err e, s) ]

-- The rest of a call, after a step that ended so.
abbrev pub resume : {S A B : Type 0} → (A → Action S B) → Result A × S → Result B × S
resume f (ok a, s) = f a s
resume f (err e, s) = (err e, s)

infixl 5 ◌>>=◌ ◌>>◌
abbrev pub ◌>>=◌ : {S A B : Type 0} → Action S A → (A → Action S B) → Action S B
m >>= f = λ s. resume f (m s)

abbrev pub ◌>>◌ : {S A B : Type 0} → Action S A → Action S B → Action S B
m >> k = m >>= λ _. k

module _ {S : Type 0} where
  -- `if (c) throw e`
  abbrev pub raise_if : Bool → Error → Action S (Unit {0})
  raise_if c e s = (if c then err e else ok tt, s)

  abbrev pub modify : (S → S) → Action S (Unit {0})
  modify f s = (ok tt, f s)

  -- `for (const x of xs) await body(x)`
  unfoldable pub for_each : {A : Type 0} → List A → (A → Action S (Unit {0})) → Action S (Unit {0})
  for_each [] body = pure tt
  for_each (x ∷ xs) body = body x >> for_each xs body
