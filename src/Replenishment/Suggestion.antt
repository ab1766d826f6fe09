-- ===== src/Replenishment/Suggestion.antt =====
-- computeSuggestion: how much of a product to order, by the method of its policy. A quantity is a whole
-- number of units of less than 2 ^ 53, for which the numbers of the source are exact; stock of a
-- fraction of a unit is not modelled. What the runtime's doubles make of the consumption per day times
-- the days of supply, less the stock, rounded up, is a parameter. The reason, which is the name of the
-- method, is left out.
pub mod Laws
use awmsom.Base.{
  ℕ, ◌+◌, ◌*◌, ◌/◌, ◌≤◌, ◌<◌, ◌≡◌, refl, ◌⊎◌, inl, inr, Bool, true, false, Option, none, some, ℤ,
  pos, negsuc, pos_part, neg_part, ◌+ℤ◌, ◌-ℤ◌, ◌*ℤ◌, ◌≤ℤ◌, ltb_ℤ, if◌then◌else◌, arith, int_laws,
  Bool-cases,
}

pub data ReplenishmentMethod : Type 0 where
  fixed min_max eoq dos : ReplenishmentMethod

pub record ReplenishmentPolicy : Type 0 where
  pub method : ReplenishmentMethod
  pub fixed_qty : Option ℤ
  pub min_qty : Option ℤ
  pub max_qty : Option ℤ
  pub eoq_qty : Option ℤ
  pub days_of_supply : Option ℤ

-- `x ?? 0`
abbrev pub or_zero : Option ℤ → ℤ
or_zero none = pos 0
or_zero (some q) = q

-- `Math.max(0, q)`
abbrev pub at_least_zero : ℤ → ℤ
at_least_zero (pos n) = pos n
at_least_zero (negsuc n) = pos 0

module _ (shortfall : ℤ → ℤ → ℤ) where
  -- The parameter is `Math.ceil(consumptionPerDay * targetDays - stockActual)`, of the days of supply and
  -- the stock, for a consumption per day that is given.
  unfoldable pub compute_suggestion : ReplenishmentPolicy → ℤ → ℤ
  compute_suggestion policy stock = elim policy.method [
    | fixed ↦ or_zero policy.fixed_qty
    | min_max ↦
        if ltb_ℤ stock (or_zero policy.min_qty)
        then at_least_zero (or_zero policy.max_qty -ℤ stock)
        else pos 0
    | eoq ↦ or_zero policy.eoq_qty
    | dos ↦ at_least_zero (shortfall (or_zero policy.days_of_supply) stock)
  ]
