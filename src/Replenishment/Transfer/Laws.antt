-- ===== src/Replenishment/Transfer/Laws.antt =====
-- What one line of a transfer does to the stock as a whole.
use awmsom.Base.{
  ℕ, ◌≡◌, refl, sym, ◌∙◌, ap, inl, inr, Option, none, some, ℤ, pos, ◌+ℤ◌, ◌-ℤ◌, ◌==◌, if◌then◌else◌,
  ◌>>◌, Bool-cases, ==_iff, arith, int_laws, ok,
}
use awmsom.Prisma.{Prisma, IsClient}
use awmsom.Schema.{Db, Inventory}
use awmsom.Replenishment.Transfer.{
  TransferLine, transfer_movement, transferred_row, uom_of, stock_at, take_from, put_to,
  transfer_line,
}

-- What the stock as a whole gains: nothing, if there is a row at the source and it is not the row of
-- the destination as well; else the whole quantity.
abbrev pub gained : Option (ℕ × Inventory) → Option (ℕ × Inventory) → ℤ → ℤ
gained none to q = q
gained (some x) none q = pos 0
gained (some x) (some y) q = if x.0 == y.0 then q else pos 0

after_moving :
    (t t₁ t₂ a b q : ℤ) → t₁ +ℤ a ≡ t +ℤ (a -ℤ q) → t₂ +ℤ b ≡ t₁ +ℤ (b +ℤ q) → t₂ ≡ t +ℤ pos 0
after_moving t t₁ t₂ a b q h k = grind int_laws

after_overwriting :
    (t t₁ t₂ a q : ℤ) → t₁ +ℤ a ≡ t +ℤ (a -ℤ q) → t₂ +ℤ (a -ℤ q) ≡ t₁ +ℤ (a +ℤ q) → t₂ ≡ t +ℤ q
after_overwriting t t₁ t₂ a q h k = grind int_laws

after_creating :
    (t t₁ t₂ a q : ℤ) → t₁ +ℤ a ≡ t +ℤ (a -ℤ q) → t₂ ≡ t₁ +ℤ (pos 0 +ℤ q) → t₂ ≡ t +ℤ pos 0
after_creating t t₁ t₂ a q h k = grind int_laws

only_added : (t t₁ a q : ℤ) → t₁ +ℤ a ≡ t +ℤ (a +ℤ q) → t₁ ≡ t +ℤ q
only_added t t₁ a q h = grind int_laws

only_created : (t q : ℤ) → t +ℤ (pos 0 +ℤ q) ≡ t +ℤ q
only_created t q = grind int_laws

module _ (db : Prisma) where
  abbrev pub stock_total : db.Table Inventory → ℤ
  stock_total t = db.sum (λ i r. r.quantity) t

  abbrev less : Inventory → ℤ → Inventory
  less r q = record r { quantity = r.quantity -ℤ q }

  abbrev more : Inventory → ℤ → Inventory
  more r q = record r { quantity = r.quantity +ℤ q }

  transfer_line-steps :
      (tenant now header source destination : ℕ) (line : TransferLine) (s : Db db)
      → let uom = uom_of db line.product_id s in
        let from = stock_at db tenant line.product_id source uom s in
        let to = stock_at db tenant line.product_id destination uom s in
        let log =
          (db.create
            (transfer_movement tenant header source destination line uom)
            s.movement_lines).1 in
        transfer_line db tenant now header source destination line s
        ≡ (take_from db from line.quantity >> put_to db to tenant now destination line uom)
            (record s { movement_lines = log })
  unfolding transfer_line
  transfer_line-steps tenant now header source destination line s = refl

  moves-none-some :
      (tenant now destination uom j : ℕ) (line : TransferLine) (y : Inventory) (s : Db db)
      → db.get s.inventory j ≡ some y
      → (take_from db none line.quantity >> put_to db (some (j, y)) tenant now destination line uom)
          s
        ≡ (ok tt, record s { inventory = db.write j (more y line.quantity) s.inventory })
  moves-none-some tenant now destination uom j line y s g = ground arith

  moves-some-none :
      (tenant now destination uom i : ℕ) (line : TransferLine) (x : Inventory) (s : Db db)
      → db.get s.inventory i ≡ some x
      → (take_from db (some (i, x)) line.quantity >> put_to db none tenant now destination line uom)
          s
        ≡ (
          ok tt,
          record s {
            inventory =
                (db.create
                  (transferred_row tenant now destination line uom)
                  (db.write i (less x line.quantity) s.inventory)).1;
          },
        )
  moves-some-none tenant now destination uom i line x s g = ground arith

  moves-some-some :
      (tenant now destination uom i j : ℕ) (line : TransferLine) (x y z : Inventory) (s : Db db)
      → db.get s.inventory i ≡ some x
      → db.get (db.write i (less x line.quantity) s.inventory) j
        ≡ some (record y { quantity = z.quantity })
      → (take_from db (some (i, x)) line.quantity
            >> put_to db (some (j, y)) tenant now destination line uom)
          s
        ≡ (
          ok tt,
          record s {
            inventory =
                db.write j (more y line.quantity) (db.write i (less x line.quantity) s.inventory);
          },
        )
  moves-some-some tenant now destination uom i j line x y z s g h = ground arith

module _ (db : Prisma) (c : IsClient db) where
  -- The two writes, from the rows that were found.
  moves-gained :
      (tenant now destination uom : ℕ) (line : TransferLine) (from to : Option (ℕ × Inventory))
      (s : Db db)
      → ((x : ℕ × Inventory) → from ≡ some x → db.get s.inventory x.0 ≡ some x.1)
      → ((y : ℕ × Inventory) → to ≡ some y → db.get s.inventory y.0 ≡ some y.1)
      → let end =
          (take_from db from line.quantity >> put_to db to tenant now destination line uom) s in
        (end.0 ≡ ok tt)
        × (stock_total db end.1.inventory
            ≡ stock_total db s.inventory +ℤ gained from to line.quantity)
        × (end.1.movement_lines ≡ s.movement_lines)
  moves-gained tenant now destination uom line none none s hf ht = (
    refl,
    c.sum-create (λ i r. r.quantity) (transferred_row tenant now destination line uom) s.inventory
        ∙ only_created (stock_total db s.inventory) line.quantity,
    refl,
  )
  moves-gained tenant now destination uom line none (some (j, y)) s hf ht =
      let g = ht (j, y) refl in
      rw (moves-none-some db tenant now destination uom j line y s g) (
        refl,
        only_added _ _ y.quantity line.quantity
            (c.sum-write (λ i r. r.quantity) j (more db y line.quantity) y s.inventory g),
        refl,
      )
  moves-gained tenant now destination uom line (some (i, x)) none s hf ht =
      let g = hf (i, x) refl in
      let t = db.write i (less db x line.quantity) s.inventory in
      rw (moves-some-none db tenant now destination uom i line x s g) (
        refl,
        after_creating _ _ _ x.quantity line.quantity
            (c.sum-write (λ i r. r.quantity) i (less db x line.quantity) x s.inventory g)
            (c.sum-create (λ i r. r.quantity) (transferred_row tenant now destination line uom) t),
        refl,
      )
  moves-gained tenant now destination uom line (some (i, x)) (some (j, y)) s hf ht =
      let g = hf (i, x) refl in
      let k = ht (j, y) refl in
      let q = line.quantity in
      let t = db.write i (less db x q) s.inventory in
      let first = c.sum-write (λ i r. r.quantity) i (less db x q) x s.inventory g in
      elim (Bool-cases (i == j)) [
        | inl same ↦
            let e : i ≡ j = (==_iff i j).0 same in
            let xy : x ≡ y = ground (arith, g, k, e) in
            let h : db.get t j ≡ some (less db x q) =
              ground (arith, c.get-write i (less db x q) x s.inventory j g, same) in
            let h' : db.get t j ≡ some (record y { quantity = x.quantity -ℤ q }) =
              h ∙ ap {A = Inventory} (λ z. some (record z { quantity = x.quantity -ℤ q })) xy in
            rw
              (
                moves-some-some db tenant now destination uom i j line x y (less db x q) s g h',
                same,
              )
              (
                refl,
                after_overwriting _ _ _ x.quantity q first (
                    c.sum-write (λ i r. r.quantity) j (more db y q) (less db x q) t h
                    ∙ ap {A = Inventory} (λ z. stock_total db t +ℤ (z.quantity +ℤ q)) (sym xy)),
                refl,
              )
        | inr other ↦
            let h : db.get t j ≡ some y =
              ground (arith, c.get-write i (less db x q) x s.inventory j g, other, k) in
            rw (moves-some-some db tenant now destination uom i j line x y y s g h, other)
              (
                refl,
                after_moving _ _ _ x.quantity y.quantity q first
                    (c.sum-write (λ i r. r.quantity) j (more db y q) y t h),
                refl,
              )
      ]

  -- A line of a transfer is always booked, and logged with its quantity. The stock as a whole is as
  -- before if there is a row of the product at the source and another one, or none, at the
  -- destination; if there is none at the source, or if the row of both is the same, it grows by the
  -- quantity.
  pub transfer_line-gained :
      (tenant now header source destination : ℕ) (line : TransferLine) (s : Db db)
      → let uom = uom_of db line.product_id s in
        let end = transfer_line db tenant now header source destination line s in
        (end.0 ≡ ok tt)
        × (db.sum (λ i r. r.quantity) end.1.inventory
            ≡ db.sum (λ i r. r.quantity) s.inventory
              +ℤ gained
                  (stock_at db tenant line.product_id source uom s)
                  (stock_at db tenant line.product_id destination uom s)
                  line.quantity)
        × (db.sum (λ i m. m.quantity) end.1.movement_lines
            ≡ db.sum (λ i m. m.quantity) s.movement_lines +ℤ line.quantity)
  transfer_line-gained tenant now header source destination line s =
      let uom = uom_of db line.product_id s in
      let from = stock_at db tenant line.product_id source uom s in
      let to = stock_at db tenant line.product_id destination uom s in
      let row = transfer_movement tenant header source destination line uom in
      let s₁ : Db db = record s { movement_lines = (db.create row s.movement_lines).1 } in
      let (runs, total, log) =
        moves-gained tenant now destination uom line from to s₁
          (λ x e. (c.found _ s.inventory x.0 x.1 e).0)
          (λ y e. (c.found _ s.inventory y.0 y.1 e).0) in
      rw (transfer_line-steps db tenant now header source destination line s) (
        runs,
        total,
        ap (λ t. db.sum (λ i m. m.quantity) t) log
            ∙ c.sum-create (λ i m. m.quantity) row s.movement_lines,
      )
