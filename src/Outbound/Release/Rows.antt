-- ===== src/Outbound/Release/Rows.antt =====
-- The allocation loop of releaseOutboundOrder over the stock rows of one product.
use mathlib.Core.Path.{subst}
use awmsom.Base.{
  ℕ, ◌≡◌, refl, inl, inr, true, false, some, List, [], ◌∷◌, map, ℤ, pos, ◌+ℤ◌, ◌-ℤ◌, ◌≤ℤ◌, leb_ℤ,
  ◌||◌, includes, All, arith, int_laws, +ℤ_zero, ok, Result, Bool-cases,
}
use awmsom.Prisma.{Prisma, IsClient, Distinct}
use awmsom.Schema.{Db, Inventory, available}
use awmsom.Outbound.Release.{Progress, allocate_qty, allocate_row, allocate_rows, reserve}
use awmsom.Outbound.Release.Reserve.{Moved, Moved-refl, Moved-trans, reserve-Reserved}
use awmsom.Outbound.Release.Allocate.{taken, taken-keeps, taken-Reserved-Moved, allocate_qty_bounds}

module _ (db : Prisma) where
  -- What a round gave: a quantity that is neither negative nor more than was missing moved from
  -- available to reserved stock, and the available rows outside `ids` are as they were.
  pub record Given (tenant : ℕ) (ids : List ℕ) (s : Db db) (g : Progress)
      (x : Result Progress × Db db) : Type 0 where
    pub table : db.Table Inventory
    pub given : ℤ
    pub runs : x ≡ (
      ok (record { allocated = g.allocated +ℤ given; remaining = g.remaining -ℤ given }),
      record s { inventory = table },
    )
    pub lower : pos 0 ≤ℤ given
    pub upper : pos 0 ≤ℤ g.remaining → given ≤ℤ g.remaining
    pub moved : Moved db tenant given s.inventory table
    pub keeps :
        (k : ℕ) (r : Inventory)
        → includes ids k ≡ false
        → db.get s.inventory k ≡ some r
        → r.stock_status ≡ available
        → db.get table k ≡ some r

  allocate_row-skips :
      (tenant now i : ℕ) (r : Inventory) (g : Progress) (s : Db db)
      → leb_ℤ g.remaining (pos 0) || leb_ℤ r.quantity (pos 0) ≡ true
      → allocate_row db tenant now (i, r) g s ≡ (ok g, s)
  unfolding allocate_row
  allocate_row-skips tenant now i r g s h = ground arith

  allocate_row-takes :
      (tenant now i : ℕ) (r : Inventory) (g : Progress) (s : Db db) (t : db.Table Inventory)
      → leb_ℤ g.remaining (pos 0) || leb_ℤ r.quantity (pos 0) ≡ false
      → db.get s.inventory i ≡ some r
      → r.tenant_id ≡ tenant
      → let q = allocate_qty r.quantity g.remaining in
        reserve db tenant now r q (record s {
          inventory = db.write i (record r { quantity = r.quantity -ℤ q }) s.inventory;
        })
          ≡ (ok tt, record s { inventory = t })
        → allocate_row db tenant now (i, r) g s ≡ (
          ok (record { allocated = g.allocated +ℤ q; remaining = g.remaining -ℤ q }),
          record s { inventory = t },
        )
  unfolding allocate_row
  allocate_row-takes tenant now i r g s t h e ht run = ground arith

-ℤ_zero : (a : ℤ) → a -ℤ pos 0 ≡ a
-ℤ_zero a = grind int_laws

+ℤ_assoc : (a b c : ℤ) → a +ℤ b +ℤ c ≡ a +ℤ (b +ℤ c)
+ℤ_assoc a b c = grind int_laws

-ℤ_assoc : (a b c : ℤ) → a -ℤ b -ℤ c ≡ a -ℤ (b +ℤ c)
-ℤ_assoc a b c = grind int_laws

both_nonneg : (a b : ℤ) → pos 0 ≤ℤ a → pos 0 ≤ℤ b → pos 0 ≤ℤ a +ℤ b
both_nonneg a b h k = grind int_laws

left_over : (m a : ℤ) → a ≤ℤ m → pos 0 ≤ℤ m -ℤ a
left_over m a h = grind int_laws

both_within : (m a b : ℤ) → b ≤ℤ m -ℤ a → a +ℤ b ≤ℤ m
both_within m a b h = grind int_laws

module _ (db : Prisma) (c : IsClient db) where
  skipped-Given :
      (tenant : ℕ) (ids : List ℕ) (s : Db db) (g : Progress) → Given db tenant ids s g (ok g, s)
  skipped-Given tenant ids s g = record {
    table = s.inventory;
    given = pos 0;
    runs = rw (+ℤ_zero g.allocated, -ℤ_zero g.remaining) refl;
    lower = ground arith;
    upper = λ h. h;
    moved = Moved-refl db tenant s.inventory;
    keeps = λ k r out e a. e;
  }

  allocate_row-Given :
      (tenant now i : ℕ) (r : Inventory) (g : Progress) (s : Db db)
      → db.get s.inventory i ≡ some r
      → r.tenant_id ≡ tenant
      → r.stock_status ≡ available
      → Given db tenant (i ∷ []) s g (allocate_row db tenant now (i, r) g s)
  allocate_row-Given tenant now i r g s e ht hs =
      elim (Bool-cases (leb_ℤ g.remaining (pos 0) || leb_ℤ r.quantity (pos 0))) [
        | inl stop ↦
            rw (allocate_row-skips db tenant now i r g s stop) (skipped-Given tenant (i ∷ []) s g)
        | inr go ↦
            let q = allocate_qty r.quantity g.remaining in
            let (lo, hi, most) = allocate_qty_bounds r.quantity g.remaining go in
            let (t, run, m) =
              reserve-Reserved db c tenant now r q
                (record s { inventory = taken db c i r q s.inventory }) in
            record {
              table = t;
              given = q;
              runs = allocate_row-takes db tenant now i r g s t go e ht run;
              lower = lo;
              upper = λ h. most;
              moved = taken-Reserved-Moved db c tenant i r q s.inventory e ht hs t lo hi m;
              keeps = λ k x out ek a.
                  m.keeps k x
                    (taken-keeps db c tenant i r q s.inventory e ht hs k x
                      (λ same. ground (arith, same)) ek)
                    a;
            }
      ]

-- A row as it was read: it is there, of the tenant and available.
abbrev pub IsRow : (db : Prisma) → ℕ → db.Table Inventory → ℕ × Inventory → Type 0
IsRow db tenant t x =
    (db.get t x.0 ≡ some x.1) × (x.1.tenant_id ≡ tenant) × (x.1.stock_status ≡ available)

module _ (db : Prisma) where
  allocate_rows-cons :
      (tenant now : ℕ) (x : ℕ × Inventory) (rows : List (ℕ × Inventory)) (g g₁ : Progress)
      (s s₁ : Db db)
      → allocate_row db tenant now x g s ≡ (ok g₁, s₁)
      → allocate_rows db tenant now (x ∷ rows) g s ≡ allocate_rows db tenant now rows g₁ s₁
  unfolding allocate_rows
  allocate_rows-cons tenant now x rows g g₁ s s₁ h = rw h refl

  allocate_rows-nil :
      (tenant now : ℕ) (g : Progress) (s : Db db) → allocate_rows db tenant now [] g s ≡ (ok g, s)
  unfolding allocate_rows
  allocate_rows-nil tenant now g s = refl

  rows_kept :
      (tenant i : ℕ) (rows : List (ℕ × Inventory)) (t t' : db.Table Inventory)
      → ((k : ℕ) (r : Inventory)
          → includes (i ∷ []) k ≡ false
          → db.get t k ≡ some r
          → r.stock_status ≡ available
          → db.get t' k ≡ some r)
      → includes (map (λ x. x.0) rows) i ≡ false
      → All (IsRow db tenant t) rows
      → All (IsRow db tenant t') rows
  rows_kept tenant i [] t t' keep out h = tt
  rows_kept tenant i ((k, r) ∷ rows) t t' keep out ((e, ht, hs), h) =
      ((keep k r (ground arith) e hs, ht, hs), rows_kept tenant i rows t t' keep (ground arith) h)

  -- Two rounds in a row.
  chained :
      (tenant i : ℕ) (ids : List ℕ) (s : Db db) (g : Progress) (x y : Result Progress × Db db)
      → (first : Given db tenant (i ∷ []) s g x)
      → Given db tenant ids
          (record s { inventory = first.table })
          (record {
            allocated = g.allocated +ℤ first.given;
            remaining = g.remaining -ℤ first.given;
          })
          y
      → Given db tenant (i ∷ ids) s g y
  chained tenant i ids s g x y first rest = record {
    table = rest.table;
    given = first.given +ℤ rest.given;
    runs =
        subst
          (λ a. y ≡ (
            ok (record { allocated = a; remaining = g.remaining -ℤ (first.given +ℤ rest.given) }),
            record s { inventory = rest.table },
          ))
          (+ℤ_assoc g.allocated first.given rest.given)
          (subst
            (λ m. y ≡ (
              ok (record { allocated = g.allocated +ℤ first.given +ℤ rest.given; remaining = m }),
              record s { inventory = rest.table },
            ))
            (-ℤ_assoc g.remaining first.given rest.given) rest.runs);
    lower = both_nonneg first.given rest.given first.lower rest.lower;
    upper = λ h.
        both_within g.remaining first.given rest.given
          (rest.upper (left_over g.remaining first.given (first.upper h)));
    moved = Moved-trans db first.moved rest.moved;
    keeps = λ k r out e a. rest.keeps k r (ground arith) (first.keeps k r (ground arith) e a) a;
  }

module _ (db : Prisma) (c : IsClient db) where
  -- The whole loop always comes to its end.
  pub allocate_rows-Given :
      (tenant now : ℕ) (rows : List (ℕ × Inventory)) (g : Progress) (s : Db db)
      → All (IsRow db tenant s.inventory) rows
      → Distinct rows
      → Given db tenant (map (λ x. x.0) rows) s g (allocate_rows db tenant now rows g s)
  allocate_rows-Given tenant now [] g s h d =
      rw (allocate_rows-nil db tenant now g s) (skipped-Given db c tenant [] s g)
  allocate_rows-Given tenant now ((i, r) ∷ rows) g s ((e, ht, hs), h) (out, d) =
      let first = allocate_row-Given db c tenant now i r g s e ht hs in
      rw (allocate_rows-cons db tenant now (i, r) rows g _ s _ first.runs) (
        chained db tenant i (map (λ x. x.0) rows) s g _ _ first (
          allocate_rows-Given tenant now rows _ (record s { inventory = first.table })
            (rows_kept db tenant i rows s.inventory first.table first.keeps out h) d))
