-- ===== src/Inventory/Adjust/Laws.antt =====
-- What applyInventoryAdjustment guarantees on every path.
use awmsom.Base.{
  ℕ, ◌≡◌, refl, ◌∙◌, ◌≢◌, inl, inr, true, false, Option, none, some, ℤ, pos, ◌+ℤ◌, ◌-ℤ◌, eqb_ℤ,
  arith, int_laws, ok, err, Result, record_not_found, Bool-cases, Result-cases, Error, ap,
  same_id-eq, same_id_refl, sym,
}
use mathlib.Core.Path.{subst}
use awmsom.Prisma.{Prisma, IsClient}
use awmsom.Schema.{Db, Inventory, StockStatus, same_status-eq, same_status_refl}
use awmsom.Inventory.Tables.{has_key}
use awmsom.Inventory.Stock.{Before, Writes}
use awmsom.Inventory.Adjust.{
  AdjustmentParams, previous_qty, adjustment_checks, adjustment_status, adjust_position,
  apply_inventory_adjustment, store_quantity, record_adjustment,
}
use awmsom.Inventory.Adjust.Steps.{
  prior, At, Sound, IsUnit, IsStatus, IsUnit-unique, IsStatus-unique, adjustment_checks-IsUnit,
  adjustment_status-IsStatus, adjustment_checks-reads, adjustment_checks-error, store_quantity_lem,
  record_adjustment_lem,
}

prior-quantity :
    (existing : Option (ℕ × Inventory)) → prior (λ i r. r.quantity) existing ≡ previous_qty existing
prior-quantity none = refl
prior-quantity (some (i, r)) = refl

balance : (w w' a a' n old : ℤ) → w' +ℤ old ≡ w +ℤ n → a' ≡ a +ℤ (n -ℤ old) → w' +ℤ a ≡ w +ℤ a'
balance w w' a a' n old h k = grind int_laws

module _ (db : Prisma) where
  -- All stock, and all that the adjustments say was gained or lost.
  abbrev pub stock_total : Db db → ℤ
  stock_total s = db.sum (λ i r. r.quantity) s.inventory

  abbrev pub adjustment_total : Db db → ℤ
  adjustment_total s = db.sum (λ i a. a.difference_qty) s.adjustments

  -- The row is of the tenant, of the product, batch and location that the caller names, and of the
  -- unit and the stock status that are asked for or stand in for those.
  abbrev pub Placed : ℕ → AdjustmentParams → Db db → Inventory → Type 0
  Placed tenant p s r =
      (r.tenant_id ≡ tenant)
      × (r.product_id ≡ p.product_id)
      × (r.batch_id ≡ p.batch_id)
      × (r.location_id ≡ p.location_id)
      × IsUnit db p s r.uom
      × IsStatus db tenant p s r.uom r.stock_status

  At-Placed :
      (tenant : ℕ) (p : AdjustmentParams) (s : Db db) (u : ℕ) (status : StockStatus) (r : Inventory)
      → IsUnit db p s u
      → IsStatus db tenant p s u status
      → At tenant p u status r
      → Placed tenant p s r
  At-Placed tenant p s u status r unit is (a, b, d, e, f, g) = (
    a,
    b,
    d,
    e,
    subst (IsUnit db p s) (sym f) unit,
    subst (IsStatus db tenant p s r.uom) (sym g)
        (subst (λ v. IsStatus db tenant p s v status) (sym f) is),
  )

  -- The outcome of an adjustment that began at `s`, by how it ended. After a failure nothing has
  -- changed, and the failure is one of the checks. After a success the position holds the counted
  -- quantity, no other row has changed, and the adjustments explain the change of the stock.
  abbrev pub Adjusted :
      ℕ → AdjustmentParams → Db db → Result (Option (ℕ × Inventory)) × Db db → Type 0
  Adjusted tenant p s (err e, s') = (s' ≡ s) × (e ≢ record_not_found)
  Adjusted tenant p s (ok none, s') =
      (s' ≡ s)
      × (p.new_qty ≡ pos 0)
      × ((i : ℕ) (r : Inventory) → db.get s.inventory i ≡ some r → Placed tenant p s r → ⊥)
  Adjusted tenant p s (ok (some (i, r)), s') =
      (r.quantity ≡ p.new_qty)
      × Placed tenant p s r
      × Before db i r s.inventory
      × Writes db i r s.inventory s'.inventory
      × (stock_total s' +ℤ adjustment_total s ≡ stock_total s +ℤ adjustment_total s')

module _ (db : Prisma) (c : IsClient db) where
  Placed-At :
      (tenant : ℕ) (p : AdjustmentParams) (s : Db db) (u : ℕ) (status : StockStatus) (r : Inventory)
      → IsUnit db p s u
      → IsStatus db tenant p s u status
      → Placed db tenant p s r
      → At tenant p u status r
  Placed-At tenant p s u status r unit is (a, b, d, e, f, g) =
      let same = IsUnit-unique db c p s r.uom u f unit in
      (
        a,
        b,
        d,
        e,
        same,
        IsStatus-unique db c tenant p s u r.stock_status status
            (subst (λ v. IsStatus db tenant p s v r.stock_status) same g) is,
      )

  unchanged-Adjusted :
      (tenant : ℕ) (p : AdjustmentParams) (u : ℕ) (status : StockStatus)
      (existing : Option (ℕ × Inventory)) (s : Db db)
      → IsUnit db p s u
      → IsStatus db tenant p s u status
      → Sound db tenant p u status existing s
      → eqb_ℤ p.new_qty (previous_qty existing) ≡ true
      → Adjusted db tenant p s (ok existing, s)
  unchanged-Adjusted tenant p u status none s unit is h e =
      (refl, ground arith, λ i r g at. h i r g (Placed-At tenant p s u status r unit is at))
  unchanged-Adjusted tenant p u status (some (i, r)) s unit is h e = (
    ground arith,
    At-Placed db tenant p s u status r unit is h.1,
    inr (r.quantity, h.0),
    λ j. ground (arith, h.0),
    refl,
  )

  adjust_position-same :
      (tenant now : ℕ) (p : AdjustmentParams) (uom : ℕ) (status : StockStatus)
      (existing : Option (ℕ × Inventory)) (s : Db db)
      → eqb_ℤ p.new_qty (previous_qty existing) ≡ true
      → adjust_position db tenant now p uom status existing s ≡ (ok existing, s)
  unfolding adjust_position
  adjust_position-same tenant now p uom status existing s same = ground arith

  adjust_position-writes :
      (tenant now : ℕ) (p : AdjustmentParams) (uom : ℕ) (status : StockStatus)
      (existing : Option (ℕ × Inventory)) (s s₁ s₂ : Db db) (x : ℕ × Inventory) (k : ℕ)
      → eqb_ℤ p.new_qty (previous_qty existing) ≡ false
      → store_quantity db tenant now p uom status existing s ≡ (ok x, s₁)
      → record_adjustment db tenant p uom x.0 (previous_qty existing) s₁ ≡ (ok k, s₂)
      → adjust_position db tenant now p uom status existing s ≡ (ok (some x), s₂)
  unfolding adjust_position
  adjust_position-writes tenant now p uom status existing s s₁ s₂ x k differs stored recorded =
      ground arith

  adjust_position-Adjusted :
      (tenant now : ℕ) (p : AdjustmentParams) (uom : ℕ) (status : StockStatus)
      (existing : Option (ℕ × Inventory)) (s : Db db)
      → IsUnit db p s uom
      → IsStatus db tenant p s uom status
      → Sound db tenant p uom status existing s
      → Adjusted db tenant p s (adjust_position db tenant now p uom status existing s)
  adjust_position-Adjusted tenant now p uom status existing s unit is h =
      elim (Bool-cases (eqb_ℤ p.new_qty (previous_qty existing))) [
        | inl same ↦
            rw (adjust_position-same tenant now p uom status existing s same)
              (unchanged-Adjusted tenant p uom status existing s unit is h same)
        | inr differs ↦
            let (i, r, t, stored, q, at, old, g, w) =
              store_quantity_lem db c tenant now p uom status existing s h in
            let (a, k, s', recorded, inv, fields, row, total) =
              record_adjustment_lem db c tenant p uom i (previous_qty existing)
                (record s { inventory = t }) in
            rw
              (adjust_position-writes tenant now p uom status existing s _ s' (i, r) k differs
                stored recorded)
              (
                q,
                At-Placed db tenant p s uom status r unit is at,
                old,
                λ j. rw inv (g j),
                rw (inv, stock_total)
                    (balance _ _ _ _ p.new_qty (previous_qty existing)
                      (rw (prior-quantity existing, q) at (w (λ i r. r.quantity)))
                      (rw fields.3 at (total (λ i a. a.difference_qty)))),
              )
      ]

  has_key-At :
      (tenant : ℕ) (p : AdjustmentParams) (uom : ℕ) (status : StockStatus) (r : Inventory)
      → has_key tenant p.product_id p.batch_id p.location_id uom status r ≡ true
      → At tenant p uom status r
  has_key-At tenant p uom status r h =
      ground (arith, same_id-eq r.batch_id p.batch_id, same_status-eq r.stock_status status)

  At-has_key :
      (tenant : ℕ) (p : AdjustmentParams) (uom : ℕ) (status : StockStatus) (r : Inventory)
      → At tenant p uom status r
      → has_key tenant p.product_id p.batch_id p.location_id uom status r ≡ true
  At-has_key tenant p uom status r (a, b, d, e, f, g) =
      rw (sym a, sym b, sym d, sym e, sym f, sym g)
        (ground (arith, same_id_refl r.batch_id, same_status_refl r.stock_status))

  Sound-found :
      (tenant : ℕ) (p : AdjustmentParams) (uom : ℕ) (status : StockStatus) (s : Db db)
      (existing : Option (ℕ × Inventory))
      → db.find_first
          (λ i r. has_key tenant p.product_id p.batch_id p.location_id uom status r)
          s.inventory
        ≡ existing
      → Sound db tenant p uom status existing s
  Sound-found tenant p uom status s none h = λ i r g at.
      let no = c.not_found _ s.inventory i r h g in
      ground (arith, no, At-has_key tenant p uom status r at)
  Sound-found tenant p uom status s (some (i, r)) h =
      let f = c.found _ s.inventory i r h in (f.0, has_key-At tenant p uom status r f.1)

  pub apply_inventory_adjustment-raises :
      (tenant now : ℕ) (p : AdjustmentParams) (s : Db db) (e : Error)
      → (adjustment_checks db tenant p s).0 ≡ err e
      → apply_inventory_adjustment db tenant now p s ≡ (err e, s)
  unfolding apply_inventory_adjustment
  apply_inventory_adjustment-raises tenant now p s e h =
      ground (arith, adjustment_checks-reads db c tenant p s)

  apply_inventory_adjustment-passes :
      (tenant now : ℕ) (p : AdjustmentParams) (s : Db db) (u : ℕ)
      → (adjustment_checks db tenant p s).0 ≡ ok u
      → let status = adjustment_status db tenant p u s in
        apply_inventory_adjustment db tenant now p s
        ≡ adjust_position db tenant now p u status
            (db.find_first
              (λ i r. has_key tenant p.product_id p.batch_id p.location_id u status r)
              s.inventory)
            s
  unfolding apply_inventory_adjustment
  apply_inventory_adjustment-passes tenant now p s u h =
      ground (arith, adjustment_checks-reads db c tenant p s)

  -- An adjustment that fails leaves the tables as they were, and it fails on one of its checks, never
  -- on a row that is missing when it is updated. A position is given by the tenant, the product, the
  -- batch, the location, the unit asked for or else that of the product, and the stock status asked for
  -- or else the one that a count determines. An adjustment that succeeds without a row was to zero, of a
  -- position at which no row stands, and changes nothing. Any other leaves the counted quantity in one
  -- row of the position, every other row of the stock as it was, and the stock and the recorded adjustments
  -- changed by the same amount.
  pub apply_inventory_adjustment-Adjusted :
      (tenant now : ℕ) (p : AdjustmentParams) (s : Db db)
      → Adjusted db tenant p s (apply_inventory_adjustment db tenant now p s)
  apply_inventory_adjustment-Adjusted tenant now p s =
      elim (Result-cases (adjustment_checks db tenant p s).0) [
        | inr (e, h) ↦
            rw (apply_inventory_adjustment-raises tenant now p s e h)
              (refl, λ k. adjustment_checks-error db c tenant p s (h ∙ ap err k))
        | inl (u, h) ↦ rw (apply_inventory_adjustment-passes tenant now p s u h) (
            adjust_position-Adjusted tenant now p u _ _ s
              (adjustment_checks-IsUnit db c tenant p s u h)
              (adjustment_status-IsStatus db c tenant p s u) (Sound-found tenant p u _ s _ refl))
      ]

  -- The cycle counts are left alone.
  pub apply_inventory_adjustment-counts :
      (tenant now : ℕ) (p : AdjustmentParams) (s : Db db)
      → let s' = (apply_inventory_adjustment db tenant now p s).1 in
        (s'.cycle_count_lines ≡ s.cycle_count_lines) × (s'.cycle_count_tasks ≡ s.cycle_count_tasks)
  unfolding apply_inventory_adjustment
  apply_inventory_adjustment-counts tenant now p s = ground arith
