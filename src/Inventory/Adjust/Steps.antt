-- ===== src/Inventory/Adjust/Steps.antt =====
-- What each step of applyInventoryAdjustment does to the tables.
use awmsom.Base.{
  ℕ, ◌≡◌, refl, ◌≢◌, inl, inr, Option, none, some, ℤ, pos, ◌+ℤ◌, ◌-ℤ◌, ◌≤ℤ◌, arith, +ℤ_zero, ◌∙◌,
  sym, ◌==◌, Option-cases, ok, err, record_not_found,
}
use awmsom.Prisma.{Prisma, IsClient, find_by_id, find_by_id_lem}
use awmsom.Schema.{Db, Product, Inventory, StockStatus, InventoryAdjustment}
use awmsom.Inventory.CountStatus.{determine_count_stock_status}
use awmsom.Inventory.Stock.{Before, Writes}
use awmsom.Inventory.Adjust.{
  AdjustmentParams, adjustment_checks, adjustment_status, store_quantity, record_adjustment,
  new_row, adjustment_row, adjustment_header,
}

-- The weight of the row before: zero where there is none.
abbrev pub prior : (ℕ → Inventory → ℤ) → Option (ℕ × Inventory) → ℤ
prior w none = pos 0
prior w (some (i, r)) = w i r

-- The row is of the tenant, of the product, batch and location that the caller names, and of the unit
-- and the stock status.
abbrev pub At : ℕ → AdjustmentParams → ℕ → StockStatus → Inventory → Type 0
At tenant p uom status r =
    (r.tenant_id ≡ tenant)
    × (r.product_id ≡ p.product_id)
    × (r.batch_id ≡ p.batch_id)
    × (r.location_id ≡ p.location_id)
    × (r.uom ≡ uom)
    × (r.stock_status ≡ status)

module _ (db : Prisma) where
  -- The row that `findFirst` returned stands in the table, at the position.
  abbrev pub Sound :
      ℕ → AdjustmentParams → ℕ → StockStatus → Option (ℕ × Inventory) → Db db → Type 0
  Sound tenant p uom status none s =
      (i : ℕ) (r : Inventory) → db.get s.inventory i ≡ some r → At tenant p uom status r → ⊥
  Sound tenant p uom status (some (i, r)) s =
      (db.get s.inventory i ≡ some r) × At tenant p uom status r

  -- The unit is the one asked for, or that of the product.
  abbrev pub IsUnit : AdjustmentParams → Db db → ℕ → Type 0
  IsUnit p s uom = elim p.uom [
    | some u ↦ uom ≡ u
    | none ↦ (x : Product) × (db.get s.products p.product_id ≡ some x) × (uom ≡ x.default_uom)
  ]

  -- The status is the one asked for, or that which a count determines.
  abbrev pub IsStatus : ℕ → AdjustmentParams → Db db → ℕ → StockStatus → Type 0
  IsStatus tenant p s uom status = elim p.stock_status [
    | some x ↦ status ≡ x
    | none ↦
        status ≡ determine_count_stock_status db tenant p.product_id p.batch_id p.location_id uom s
  ]

module _ (db : Prisma) (c : IsClient db) where
  pub adjustment_checks-reads :
      (tenant : ℕ) (p : AdjustmentParams) (s : Db db) → (adjustment_checks db tenant p s).1 ≡ s
  unfolding adjustment_checks
  adjustment_checks-reads tenant p s = ground arith

  pub adjustment_checks-nonneg :
      (tenant : ℕ) (p : AdjustmentParams) (s : Db db) {u : ℕ}
      → (adjustment_checks db tenant p s).0 ≡ ok u
      → pos 0 ≤ℤ p.new_qty
  unfolding adjustment_checks
  adjustment_checks-nonneg tenant p s h = ground arith

  pub adjustment_checks-error :
      (tenant : ℕ) (p : AdjustmentParams) (s : Db db)
      → (adjustment_checks db tenant p s).0 ≢ err record_not_found
  unfolding adjustment_checks
  adjustment_checks-error tenant p s h = ground arith

  adjustment_checks-unit :
      (tenant : ℕ) (p : AdjustmentParams) (s : Db db) (x : Product)
      → (j : ℕ) → find_by_id db p.product_id (λ r. r.tenant_id == tenant) s.products ≡ some (j, x)
      → (u : ℕ) → (adjustment_checks db tenant p s).0 ≡ ok u
      → u ≡ elim p.uom [ some v ↦ v | none ↦ x.default_uom ]
  unfolding adjustment_checks
  adjustment_checks-unit tenant p s x j e u h = ground (arith, e)

  adjustment_checks-product :
      (tenant : ℕ) (p : AdjustmentParams) (s : Db db) (u : ℕ)
      → find_by_id db p.product_id (λ r. r.tenant_id == tenant) s.products ≡ none
      → (adjustment_checks db tenant p s).0 ≢ ok u
  unfolding adjustment_checks
  adjustment_checks-product tenant p s u e h = ground (arith, e)

  pub adjustment_checks-IsUnit :
      (tenant : ℕ) (p : AdjustmentParams) (s : Db db) (u : ℕ)
      → (adjustment_checks db tenant p s).0 ≡ ok u
      → IsUnit db p s u
  adjustment_checks-IsUnit tenant p s u h =
      elim (Option-cases (find_by_id db p.product_id (λ r. r.tenant_id == tenant) s.products)) [
        | inl missing ↦ absurd (adjustment_checks-product tenant p s u missing h)
        | inr ((j, x), e) ↦
            let is = adjustment_checks-unit tenant p s x j e u h in
            let (_, g, _) = find_by_id_lem db c p.product_id _ s.products j x e in
            elim (Option-cases p.uom) [
              | inl unnamed ↦ rw unnamed (x, g, rw unnamed at is)
              | inr (v, named) ↦ rw named (rw named at is)
            ]
      ]

  pub adjustment_status-IsStatus :
      (tenant : ℕ) (p : AdjustmentParams) (s : Db db) (u : ℕ)
      → IsStatus db tenant p s u (adjustment_status db tenant p u s)
  unfolding adjustment_status
  adjustment_status-IsStatus tenant p s u = elim (Option-cases p.stock_status) [
    | inl unnamed ↦ rw unnamed refl
    | inr (v, named) ↦ rw named refl
  ]

  pub IsUnit-unique :
      (p : AdjustmentParams) (s : Db db) (u v : ℕ) → IsUnit db p s u → IsUnit db p s v → u ≡ v
  IsUnit-unique p s u v h k = elim (Option-cases p.uom) [
    | inl unnamed ↦
        let (x, g, e) = rw unnamed at h in
        let (y, g', e') = rw unnamed at k in ground (arith, g, g', e, e')
    | inr (w, named) ↦ let e = rw named at h in let e' = rw named at k in e ∙ sym e'
  ]

  pub IsStatus-unique :
      (tenant : ℕ) (p : AdjustmentParams) (s : Db db) (u : ℕ) (a b : StockStatus)
      → IsStatus db tenant p s u a
      → IsStatus db tenant p s u b
      → a ≡ b
  IsStatus-unique tenant p s u a b h k = elim (Option-cases p.stock_status) [
    | inl unnamed ↦ let e = rw unnamed at h in let e' = rw unnamed at k in e ∙ sym e'
    | inr (w, named) ↦ let e = rw named at h in let e' = rw named at k in e ∙ sym e'
  ]

  -- The position is written, and nothing else.
  pub store_quantity_lem :
      (tenant now : ℕ) (p : AdjustmentParams) (uom : ℕ) (status : StockStatus)
      (existing : Option (ℕ × Inventory)) (s : Db db)
      → Sound db tenant p uom status existing s
      → (i : ℕ) × (r : Inventory) × (t : db.Table Inventory) × (store_quantity db tenant now p uom
            status existing s
          ≡ (ok (i, r), record s { inventory = t }))
        × (r.quantity ≡ p.new_qty)
        × At tenant p uom status r
        × Before db i r s.inventory
        × Writes db i r s.inventory t
        × ((w : ℕ → Inventory → ℤ) → db.sum w t +ℤ prior w existing ≡ db.sum w s.inventory +ℤ w i r)
  unfolding store_quantity
  store_quantity_lem tenant now p uom status none s h =
      let r = new_row tenant now p uom status in
      let (i, t) = db.create r s.inventory in
      (
        i,
        r,
        t,
        refl,
        refl,
        (refl, refl, refl, refl, refl, refl),
        inl (c.create_fresh r s.inventory),
        c.get-create r s.inventory,
        λ w. +ℤ_zero _ ∙ c.sum-create w r s.inventory,
      )
  store_quantity_lem tenant now p uom status (some (i, r)) s (h, e) =
      let r' : Inventory = record r { quantity = p.new_qty } in
      (
        i,
        r',
        db.write i r' s.inventory,
        ground arith,
        refl,
        e,
        inr (r.quantity, h),
        λ j. c.get-write i r' r s.inventory j h,
        λ w. c.sum-write w i r' r s.inventory h,
      )

  -- The adjustment row says what the quantity was, what it is, and the difference.
  pub record_adjustment_lem :
      (tenant : ℕ) (p : AdjustmentParams) (uom i : ℕ) (previous : ℤ) (s : Db db)
      → (a : InventoryAdjustment) × (k : ℕ) × (s' : Db db) × (record_adjustment db tenant p uom i
            previous s
          ≡ (ok k, s'))
        × (s'.inventory ≡ s.inventory)
        × ((a.inventory_id ≡ some i)
            × (a.previous_qty ≡ previous)
            × (a.new_qty ≡ p.new_qty)
            × (a.difference_qty ≡ p.new_qty -ℤ previous))
        × (db.get s'.adjustments k ≡ some a)
        × ((w : ℕ → InventoryAdjustment → ℤ)
            → db.sum w s'.adjustments ≡ db.sum w s.adjustments +ℤ w k a)
  unfolding record_adjustment
  record_adjustment_lem tenant p uom i previous s =
      let header = (db.create (adjustment_header tenant p) s.movement_headers).0 in
      let a = adjustment_row tenant p i header previous in
      (
        a,
        (db.create a s.adjustments).0,
        (record_adjustment db tenant p uom i previous s).1,
        refl,
        refl,
        (refl, refl, refl, refl),
        ground (arith, c.get-create a s.adjustments (db.create a s.adjustments).0),
        λ w. c.sum-create w a s.adjustments,
      )
