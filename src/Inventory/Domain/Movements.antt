-- ===== src/Inventory/Domain/Movements.antt =====
-- InventoryMovement and RegisterInventoryMovementUseCase.
use awmsom.Base.{
  ℕ, Bool, true, false, Option, none, some, ℤ, pos, leb_ℤ, ◌||◌, if◌then◌else◌, Action, pure,
  raise_if, ◌>>=◌, ◌>>◌, plain_error, movement_not_positive, movement_without_user,
  movement_without_location,
}

pub record InventoryMovement : Type 0 where
  pub product_id : ℕ
  pub quantity : ℤ
  pub uom : ℕ
  pub from_location_id : Option ℕ
  pub to_location_id : Option ℕ
  pub lot_code : Option ℕ
  pub created_at : Option ℕ
  pub created_by : Option ℕ
  pub reason_id : Option ℕ
  pub notes : Option ℕ
  pub id : Option ℕ

-- `!x`, where `none` is a text that is missing or empty
abbrev pub is_missing : Option ℕ → Bool
is_missing none = true
is_missing (some _) = false

module _ {S : Type 0} where
  -- The checks of the constructor.
  abbrev pub new_movement : InventoryMovement → Action S InventoryMovement
  new_movement m = do
    raise_if (leb_ℤ m.quantity (pos 0)) (plain_error movement_not_positive)
    raise_if (is_missing m.created_by) (plain_error movement_without_user)
    raise_if (is_missing m.from_location_id || is_missing m.to_location_id)
        (plain_error movement_without_location)
    pure m

  abbrev pub with_timestamp : ℕ → InventoryMovement → Action S InventoryMovement
  with_timestamp date m = new_movement (record m { created_at = some date })

  -- `log` is the call of the InventoryMovementRepository.
  unfoldable pub register_movement :
      (InventoryMovement → Action S InventoryMovement)
      → ℕ
      → InventoryMovement
      → Action S InventoryMovement
  register_movement log now input = do
    timestamped ← new_movement (record input { id = none })
    movement ←
        if is_missing timestamped.created_at
        then with_timestamp now timestamped
        else pure timestamped
    log movement
