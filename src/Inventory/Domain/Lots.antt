-- ===== src/Inventory/Domain/Lots.antt =====
-- Lot and BlockLotUseCase.
use awmsom.Base.{
  ℕ, Bool, true, false, Option, none, some, if◌then◌else◌, Action, pure, or_raise, ◌>>=◌,
  plain_error, lot_not_found,
}

pub data LotState : Type 0 where
  normal blocked recall under_investigation : LotState

pub record Lot : Type 0 where
  pub product_id : ℕ
  pub code : ℕ
  pub expiration_date : Option ℕ
  pub state : LotState
  pub id : Option ℕ
  pub created_at : Option ℕ
  pub updated_at : Option ℕ
  pub created_by : Option ℕ
  pub updated_by : Option ℕ

-- `updatedBy ?? this.updatedBy`
abbrev pub block : Option ℕ → Lot → Lot
block updated_by lot = record lot {
  state = LotState.blocked;
  updated_by = elim updated_by [ none ↦ lot.updated_by | some u ↦ some u ];
}

abbrev pub is_blocked : LotState → Bool
is_blocked LotState.blocked = true
is_blocked _ = false

-- What the use case calls of a LotRepository.
pub record LotRepository (S : Type 0) : Type 0 where
  pub find_by_product_and_code : ℕ → ℕ → Action S (Option Lot)
  pub save : Lot → Action S Lot

unfoldable pub block_lot : {S : Type 0} → LotRepository S → ℕ → ℕ → Option ℕ → Action S Lot
block_lot repository product_id code updated_by = do
  found ← repository.find_by_product_and_code product_id code
  lot ← or_raise found (plain_error lot_not_found)
  if is_blocked lot.state then pure lot else repository.save (block updated_by lot)
