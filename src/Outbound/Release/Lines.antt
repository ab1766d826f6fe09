-- ===== src/Outbound/Release/Lines.antt =====
-- The loop of releaseOutboundOrder over the lines of an order.
use mathlib.Core.Path.{subst}
use awmsom.Base.{
  ℕ, ◌≡◌, refl, sym, ◌∙◌, ap, inl, inr, Bool, true, false, some, List, [], ◌∷◌, map, ℤ, pos, ◌+ℤ◌,
  ◌-ℤ◌, ◌≤ℤ◌, leb_ℤ, ◌==◌, ◌&&◌, if◌then◌else◌, includes, All, arith, int_laws, +ℤ_zero, +ℤ_nonneg,
  ok, err, Result, Bool-cases, for_each, record_not_found, >>=-ok,
}
use awmsom.Prisma.{Prisma, IsClient, Distinct}
use awmsom.Schema.{Db, Inventory, OutboundOrderLine, available, same_status}
use awmsom.Inventory.CountStatus.Laws.{status-available}
use awmsom.Outbound.Tables.{stands_in}
use awmsom.Outbound.Release.{Progress, candidates, allocate_rows, allocate_line}
use awmsom.Outbound.Release.Reserve.{Moved, Moved-refl, Moved-trans}
use awmsom.Outbound.Release.Rows.{IsRow, allocate_rows-Given}

module _ (db : Prisma) where
  -- No line has more than it asked for.
  abbrev pub IsWithin : db.Table OutboundOrderLine → Type 0
  IsWithin t =
      (i : ℕ) (l : OutboundOrderLine) → db.get t i ≡ some l → l.allocated_qty ≤ℤ l.requested_qty

  abbrev pub allocated_total : Db db → ℤ
  allocated_total s = db.sum (λ i l. l.allocated_qty) s.order_lines

  -- From `s` to `s'` a quantity `d` was reserved and booked on the lines.
  pub record Allocated (tenant : ℕ) (d : ℤ) (s s' : Db db) : Type 0 where
    pub moved : Moved db tenant d s.inventory s'.inventory
    pub books : allocated_total s' ≡ allocated_total s +ℤ d
    pub within : IsWithin s.order_lines → IsWithin s'.order_lines
    pub orders : s'.orders ≡ s.orders

  pub Allocated-refl : (tenant : ℕ) (s : Db db) → Allocated tenant (pos 0) s s
  Allocated-refl tenant s = record {
    moved = Moved-refl db tenant s.inventory;
    books = sym (+ℤ_zero _);
    within = λ h. h;
    orders = refl;
  }

  pub Allocated-trans :
      {tenant : ℕ} {d e : ℤ} {s s₁ s₂ : Db db}
      → Allocated tenant d s s₁
      → Allocated tenant e s₁ s₂
      → Allocated tenant (d +ℤ e) s s₂
  Allocated-trans m n = record {
    moved = Moved-trans db m.moved n.moved;
    books = grind (int_laws, m.books, n.books);
    within = λ h. n.within (m.within h);
    orders = n.orders ∙ m.orders;
  }

  filled : OutboundOrderLine → ℤ → OutboundOrderLine
  filled line a = record line { allocated_qty = a }

  allocate_line-full :
      (tenant now warehouse i : ℕ) (line : OutboundOrderLine) (s : Db db)
      → leb_ℤ (line.requested_qty -ℤ line.allocated_qty) (pos 0) ≡ true
      → allocate_line db tenant now warehouse (i, line) s ≡ (ok tt, s)
  unfolding allocate_line
  allocate_line-full tenant now warehouse i line s h = rw h refl

  allocate_line-fills :
      (tenant now warehouse i : ℕ) (line : OutboundOrderLine) (g : Progress) (s : Db db)
      (t : db.Table Inventory)
      → leb_ℤ (line.requested_qty -ℤ line.allocated_qty) (pos 0) ≡ false
      → allocate_rows db tenant now
          (candidates db tenant warehouse line.product_id s)
          (record {
            allocated = line.allocated_qty;
            remaining = line.requested_qty -ℤ line.allocated_qty;
          })
          s
        ≡ (ok g, record s { inventory = t })
      → db.get s.order_lines i ≡ some line
      → allocate_line db tenant now warehouse (i, line) s ≡ (
          if line.tenant_id == tenant
          then (
            ok tt,
            record s {
              inventory = t;
              order_lines = db.write i (filled line g.allocated) s.order_lines;
            },
          )
          else (err record_not_found, record s { inventory = t }))
  unfolding allocate_line filled
  allocate_line-fills tenant now warehouse i line g s t h run e = ground arith

  -- A successful run took the successful branch.
  chosen :
      (b : Bool) (u v s' : Db db)
      → ◌≡◌ {A = Result (Unit {0}) × Db db}
          (if b then (ok tt, u) else (err record_not_found, v))
          (ok tt, s')
      → (b ≡ true) × (u ≡ s')
  chosen true u v s' h = (refl, ap (λ x. x.1) h)
  chosen false u v s' h = ground arith

module _ (db : Prisma) (c : IsClient db) where
  candidates-IsRow :
      (tenant warehouse product : ℕ) (s : Db db)
      → All (IsRow db tenant s.inventory) (candidates db tenant warehouse product s)
  unfolding candidates
  candidates-IsRow tenant warehouse product s = go _ (c.many_found _ _ s.inventory)
    where
      go :
          (rows : List (ℕ × Inventory))
          → All
              (λ x.
                (db.get s.inventory x.0 ≡ some x.1)
                × ((x.1.product_id == product
                      && (x.1.tenant_id == tenant
                          && (same_status x.1.stock_status available
                              && stands_in db tenant warehouse x.1.location_id s)))
                    ≡ true))
              rows
          → All (IsRow db tenant s.inventory) rows
      go [] h = tt
      go ((i, r) ∷ rows) ((e, k), h) =
          ((e, ground (arith, k), status-available r.stock_status (ground (arith, k))), go rows h)

  candidates-Distinct :
      (tenant warehouse product : ℕ) (s : Db db)
      → Distinct (candidates db tenant warehouse product s)
  unfolding candidates
  candidates-Distinct tenant warehouse product s = c.many_distinct _ _ s.inventory

  grown : (new old a d : ℤ) → new +ℤ a ≡ old +ℤ (a +ℤ d) → new ≡ old +ℤ d
  grown new old a d h = grind int_laws

  not_over : (a m d : ℤ) → d ≤ℤ m -ℤ a → a +ℤ d ≤ℤ m
  not_over a m d h = grind int_laws

  missing_nonneg : (m : ℤ) → leb_ℤ m (pos 0) ≡ false → pos 0 ≤ℤ m
  missing_nonneg m h = ground arith

  filled-Allocated :
      (tenant i : ℕ) (line : OutboundOrderLine) (d : ℤ) (s : Db db) (t : db.Table Inventory)
      → db.get s.order_lines i ≡ some line
      → d ≤ℤ line.requested_qty -ℤ line.allocated_qty
      → Moved db tenant d s.inventory t
      → Allocated db tenant d s (record s {
        inventory = t;
        order_lines = db.write i (filled db line (line.allocated_qty +ℤ d)) s.order_lines;
      })
  unfolding filled
  filled-Allocated tenant i line d s t e most m =
      let x : OutboundOrderLine = record line { allocated_qty = line.allocated_qty +ℤ d } in
      record {
        moved = m;
        books =
            grown _ _ line.allocated_qty d
              (c.sum-write (λ j l. l.allocated_qty) i x line s.order_lines e);
        within = λ h j l g. ground (
          arith,
          c.get-write i x line s.order_lines j e,
          h j l,
          not_over line.allocated_qty line.requested_qty d most,
        );
        orders = refl;
      }

  -- The other lines are as they were.
  abbrev pub KeepsLines : ℕ → Db db → Db db → Type 0
  KeepsLines i s s' =
      (k : ℕ) (l : OutboundOrderLine)
      → i == k ≡ false
      → db.get s.order_lines k ≡ some l
      → db.get s'.order_lines k ≡ some l

  pub allocate_line-Allocated :
      (tenant now warehouse i : ℕ) (line : OutboundOrderLine) (s s' : Db db)
      → db.get s.order_lines i ≡ some line
      → allocate_line db tenant now warehouse (i, line) s ≡ (ok tt, s')
      → (d : ℤ) × (pos 0 ≤ℤ d) × Allocated db tenant d s s' × KeepsLines i s s'
  unfolding filled
  allocate_line-Allocated tenant now warehouse i line s s' e run =
      let missing = line.requested_qty -ℤ line.allocated_qty in
      let rows = candidates db tenant warehouse line.product_id s in
      elim (Bool-cases (leb_ℤ missing (pos 0))) [
        | inl full ↦
            let same : s ≡ s' =
              ap (λ x. x.1)
                (sym (allocate_line-full db tenant now warehouse i line s full) ∙ run) in
            (
              pos 0,
              ground arith,
              subst (λ x. Allocated db tenant (pos 0) s x) same (Allocated-refl db tenant s),
              subst (λ x. KeepsLines i s x) same (λ k l ne g. g),
            )
        | inr short ↦
            let given =
              allocate_rows-Given db c tenant now rows
                (record { allocated = line.allocated_qty; remaining = missing }) s
                (candidates-IsRow tenant warehouse line.product_id s)
                (candidates-Distinct tenant warehouse line.product_id s) in
            let fills =
              allocate_line-fills db tenant now warehouse i line _ s given.table short given.runs
                e in
            let (own, same) = chosen db (line.tenant_id == tenant) _ _ s' (sym fills ∙ run) in
            let x = filled db line (line.allocated_qty +ℤ given.given) in
            (
              given.given,
              given.lower,
              subst (λ y. Allocated db tenant given.given s y) same
                  (filled-Allocated tenant i line given.given s given.table e
                    (given.upper (missing_nonneg missing short)) given.moved),
              subst (λ y. KeepsLines i s y) same
                  (λ k l ne g. ground (arith, c.get-write i x line s.order_lines k e)),
            )
      ]

  lines_kept :
      (i : ℕ) (lines : List (ℕ × OutboundOrderLine)) (s s' : Db db)
      → KeepsLines i s s'
      → includes (map (λ x. x.0) lines) i ≡ false
      → All (λ x. db.get s.order_lines x.0 ≡ some x.1) lines
      → All (λ x. db.get s'.order_lines x.0 ≡ some x.1) lines
  lines_kept i [] s s' keep out h = tt
  lines_kept i ((k, l) ∷ lines) s s' keep out (e, h) =
      (keep k l (ground arith) e, lines_kept i lines s s' keep (ground arith) h)

  pub allocate_lines-Allocated :
      (tenant now warehouse : ℕ) (lines : List (ℕ × OutboundOrderLine)) (s s' : Db db)
      → All (λ x. db.get s.order_lines x.0 ≡ some x.1) lines
      → Distinct lines
      → for_each lines (allocate_line db tenant now warehouse) s ≡ (ok tt, s')
      → (d : ℤ) × (pos 0 ≤ℤ d) × Allocated db tenant d s s'
  unfolding for_each
  allocate_lines-Allocated tenant now warehouse [] s s' h d run = (
    pos 0,
    ground arith,
    subst (λ x. Allocated db tenant (pos 0) s x) (ap (λ x. x.1) run) (Allocated-refl db tenant s),
  )
  allocate_lines-Allocated tenant now warehouse ((i, line) ∷ lines) s s' (e, h) (out, d) run =
      let (u, s₁, first, rest) =
        >>=-ok (allocate_line db tenant now warehouse (i, line))
          (λ u. for_each lines (allocate_line db tenant now warehouse)) s s' tt run in
      let (a, lo, m, keep) = allocate_line-Allocated tenant now warehouse i line s s₁ e first in
      let (b, lo', n) =
        allocate_lines-Allocated tenant now warehouse lines s₁ s'
          (lines_kept i lines s s₁ keep out h) d rest in
      (a +ℤ b, +ℤ_nonneg a b lo lo', Allocated-trans db m n)
