-- ===== src/Inventory/Increase/Laws.antt =====
-- What increaseStock guarantees on every path.
use awmsom.Base.{
  ℕ, ◌≡◌, refl, true, ◌∙◌, ap, ◌≢◌, inl, inr, Option, none, some, ℤ, pos, ◌+ℤ◌, ◌≤ℤ◌, arith,
  int_laws, ok, err, Error, Result, Result-cases, record_not_found, same_id-eq,
}
use awmsom.Prisma.{Prisma, IsClient}
use awmsom.Schema.{Db, Inventory, same_status-eq}
use awmsom.Inventory.Tables.{has_key}
use awmsom.Inventory.Stock.{Before, Writes}
use awmsom.Inventory.Increase.{
  IncreaseParams, increase_row, increase_checks, increase_position, increase_stock,
}

abbrev pub At : ℕ → IncreaseParams → Inventory → Type 0
At tenant p r =
    (r.tenant_id ≡ tenant)
    × (r.product_id ≡ p.product_id)
    × (r.batch_id ≡ p.batch_id)
    × (r.location_id ≡ p.location_id)
    × (r.uom ≡ p.uom)
    × (r.stock_status ≡ p.stock_status)

-- The quantity before: zero where there was no row.
abbrev pub quantity_or_zero : Option Inventory → ℤ
quantity_or_zero none = pos 0
quantity_or_zero (some r) = r.quantity

module _ (db : Prisma) where
  -- After a failure nothing has changed, and the failure is one of the checks. After a success the
  -- quantity was positive, one row of the position holds that much more, no other row has changed,
  -- and the stock as a whole has grown by the quantity.
  abbrev pub Increased : ℕ → IncreaseParams → Db db → Result (ℕ × Inventory) × Db db → Type 0
  Increased tenant p s (err e, s') = (s' ≡ s) × (e ≢ record_not_found)
  Increased tenant p s (ok (i, r), s') =
      (pos 1 ≤ℤ p.quantity)
      × (r.quantity ≡ quantity_or_zero (db.get s.inventory i) +ℤ p.quantity)
      × At tenant p r
      × Before db i r s.inventory
      × Writes db i r s.inventory s'.inventory
      × (db.sum (λ j x. x.quantity) s'.inventory
          ≡ db.sum (λ j x. x.quantity) s.inventory +ℤ p.quantity)

  increase_checks-reads :
      (tenant : ℕ) (p : IncreaseParams) (s : Db db) → (increase_checks db tenant p s).1 ≡ s
  unfolding increase_checks
  increase_checks-reads tenant p s = ground arith

  increase_checks-pos :
      (tenant : ℕ) (p : IncreaseParams) (s : Db db)
      → (increase_checks db tenant p s).0 ≡ ok tt
      → pos 1 ≤ℤ p.quantity
  unfolding increase_checks
  increase_checks-pos tenant p s h = ground arith

  increase_checks-error :
      (tenant : ℕ) (p : IncreaseParams) (s : Db db)
      → (increase_checks db tenant p s).0 ≢ err record_not_found
  unfolding increase_checks
  increase_checks-error tenant p s h = ground arith

  increase_stock-raises :
      (tenant now : ℕ) (p : IncreaseParams) (s : Db db) (e : Error)
      → (increase_checks db tenant p s).0 ≡ err e
      → increase_stock db tenant now p s ≡ (err e, s)
  unfolding increase_stock
  increase_stock-raises tenant now p s e h = ground (arith, increase_checks-reads tenant p s)

  increase_stock-passes :
      (tenant now : ℕ) (p : IncreaseParams) (s : Db db)
      → (increase_checks db tenant p s).0 ≡ ok tt
      → increase_stock db tenant now p s
        ≡ increase_position db tenant now p
            (db.find_first
              (λ i r. has_key tenant p.product_id p.batch_id p.location_id p.uom p.stock_status r)
              s.inventory)
            s
  unfolding increase_stock
  increase_stock-passes tenant now p s h = ground (arith, increase_checks-reads tenant p s)

has_key-At :
    (tenant : ℕ) (p : IncreaseParams) (r : Inventory)
    → has_key tenant p.product_id p.batch_id p.location_id p.uom p.stock_status r ≡ true
    → At tenant p r
has_key-At tenant p r h =
    ground (arith, same_id-eq r.batch_id p.batch_id, same_status-eq r.stock_status p.stock_status)

grown : (a b old new q : ℤ) → a +ℤ old ≡ b +ℤ new → new ≡ old +ℤ q → a ≡ b +ℤ q
grown a b old new q h k = grind int_laws

module _ (db : Prisma) (c : IsClient db) where
  increase_position-new :
      (tenant now : ℕ) (p : IncreaseParams) (s : Db db)
      → let (i, t) = db.create (increase_row tenant now p) s.inventory in
        increase_position db tenant now p none s
        ≡ (ok (i, increase_row tenant now p), record s { inventory = t })
  unfolding increase_position
  increase_position-new tenant now p s = refl

  increase_position-old :
      (tenant now : ℕ) (p : IncreaseParams) (s : Db db) (i : ℕ) (r : Inventory)
      → db.get s.inventory i ≡ some r
      → r.tenant_id ≡ tenant
      → let r' : Inventory = record r { quantity = r.quantity +ℤ p.quantity } in
        increase_position db tenant now p (some (i, r)) s
        ≡ (ok (i, r'), record s { inventory = db.write i r' s.inventory })
  unfolding increase_position
  increase_position-old tenant now p s i r g e = ground arith

  increase_position-Increased :
      (tenant now : ℕ) (p : IncreaseParams) (s : Db db) (existing : Option (ℕ × Inventory))
      → pos 1 ≤ℤ p.quantity
      → db.find_first
          (λ i r. has_key tenant p.product_id p.batch_id p.location_id p.uom p.stock_status r)
          s.inventory
        ≡ existing
      → Increased db tenant p s (increase_position db tenant now p existing s)
  increase_position-Increased tenant now p s none h e =
      let r = increase_row tenant now p in
      let fresh = c.create_fresh r s.inventory in
      rw (increase_position-new tenant now p s) (
        h,
        rw fresh (grind int_laws),
        (refl, refl, refl, refl, refl, refl),
        inl fresh,
        c.get-create r s.inventory,
        c.sum-create (λ j x. x.quantity) r s.inventory,
      )
  increase_position-Increased tenant now p s (some (i, r)) h e =
      let (g, k) = c.found _ s.inventory i r e in
      let at = has_key-At tenant p r k in
      let r' : Inventory = record r { quantity = r.quantity +ℤ p.quantity } in
      rw (increase_position-old tenant now p s i r g at.0) (
        h,
        rw g refl,
        at,
        inr (r.quantity, g),
        λ j. c.get-write i r' r s.inventory j g,
        grown _ _ r.quantity r'.quantity p.quantity
            (c.sum-write (λ j x. x.quantity) i r' r s.inventory g) refl,
      )

  -- An increase that fails leaves the tables as they were, and it fails on one of its checks, never on
  -- a row that is missing when it is updated. One that succeeds was by a positive quantity: one row
  -- of the tenant, product, batch, location, unit and stock status asked for, new or old, holds that
  -- much more, every other row is as it was, and the sum of
  -- all stock has grown by the quantity.
  pub increase_stock-Increased :
      (tenant now : ℕ) (p : IncreaseParams) (s : Db db)
      → Increased db tenant p s (increase_stock db tenant now p s)
  increase_stock-Increased tenant now p s = elim (Result-cases (increase_checks db tenant p s).0) [
    | inr (e, h) ↦
        rw (increase_stock-raises db tenant now p s e h)
          (refl, λ k. increase_checks-error db tenant p s (h ∙ ap err k))
    | inl (tt, h) ↦
        rw (increase_stock-passes db tenant now p s h)
          (increase_position-Increased tenant now p s _ (increase_checks-pos db tenant p s h) refl)
  ]

  -- No other table is written.
  abbrev Frames : Db db → Result (ℕ × Inventory) × Db db → Type 0
  Frames s x = x.1 ≡ record s { inventory = x.1.inventory }

  increase_position-Frames :
      (tenant now : ℕ) (p : IncreaseParams) (s : Db db) (existing : Option (ℕ × Inventory))
      → db.find_first
          (λ i r. has_key tenant p.product_id p.batch_id p.location_id p.uom p.stock_status r)
          s.inventory
        ≡ existing
      → Frames s (increase_position db tenant now p existing s)
  increase_position-Frames tenant now p s none e = rw (increase_position-new tenant now p s) refl
  increase_position-Frames tenant now p s (some (i, r)) e =
      let (g, k) = c.found _ s.inventory i r e in
      rw (increase_position-old tenant now p s i r g (has_key-At tenant p r k).0) refl

  pub increase_stock-Frames :
      (tenant now : ℕ) (p : IncreaseParams) (s : Db db)
      → (increase_stock db tenant now p s).1
        ≡ record s { inventory = (increase_stock db tenant now p s).1.inventory }
  increase_stock-Frames tenant now p s = elim (Result-cases (increase_checks db tenant p s).0) [
    | inr (e, h) ↦ rw (increase_stock-raises db tenant now p s e h) refl
    | inl (tt, h) ↦
        rw (increase_stock-passes db tenant now p s h)
          (increase_position-Frames tenant now p s _ refl)
  ]
