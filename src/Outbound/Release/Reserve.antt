-- ===== src/Outbound/Release/Reserve.antt =====
-- Moving stock of one position between rows: what a write to the stock table does to its totals.
use awmsom.Base.{
  ℕ, ◌≡◌, refl, sym, ◌∙◌, ap, ◌≢◌, inl, inr, Bool, true, false, Option, some, ℤ, pos, ◌+ℤ◌, ◌≤ℤ◌,
  if◌then◌else◌, arith, int_laws, +ℤ_zero, +ℤ_nonneg, ok, Option-cases, same_id-eq,
}
use mathlib.Core.Path.{subst}
use awmsom.Prisma.{Prisma, IsClient}
use awmsom.Schema.{Db, Inventory, StockStatus, available, reserved, rank, same_status}
use awmsom.Inventory.Tables.{has_key}
use awmsom.Inventory.Stock.{IsNonneg, KeepsOthers, KeepsOthers-refl, KeepsOthers-trans}
use awmsom.Outbound.Release.{reserve, reserved_row}

-- The quantity of a row that stands at one of the chosen positions.
abbrev pub at_position : (ℕ → Option ℕ → ℕ → ℕ → Bool) → ℕ → Inventory → ℤ
at_position p i r = if p r.product_id r.batch_id r.location_id r.uom then r.quantity else pos 0

-- The quantity of a reserved row.
abbrev pub reserved_qty : ℕ → Inventory → ℤ
reserved_qty i r = if same_status r.stock_status reserved then r.quantity else pos 0

module _ (db : Prisma) where
  -- From `t` to `t'` a quantity `d` was reserved: every position holds as much as before over all
  -- statuses, the reserved stock has grown by `d`, no stock has become negative, and the other
  -- tenants' rows are as they were.
  pub record Moved (tenant : ℕ) (d : ℤ) (t t' : db.Table Inventory) : Type 0 where
    pub conserved :
        (p : ℕ → Option ℕ → ℕ → ℕ → Bool) → db.sum (at_position p) t' ≡ db.sum (at_position p) t
    pub reserves : db.sum reserved_qty t' ≡ db.sum reserved_qty t +ℤ d
    pub nonneg : IsNonneg db t → IsNonneg db t'
    pub others : KeepsOthers db tenant t t'

  pub Moved-refl : (tenant : ℕ) (t : db.Table Inventory) → Moved tenant (pos 0) t t
  Moved-refl tenant t = record {
    conserved = λ p. refl;
    reserves = sym (+ℤ_zero _);
    nonneg = λ n. n;
    others = KeepsOthers-refl db tenant t;
  }

  pub Moved-trans :
      {tenant : ℕ} {d e : ℤ} {t t₁ t₂ : db.Table Inventory}
      → Moved tenant d t t₁
      → Moved tenant e t₁ t₂
      → Moved tenant (d +ℤ e) t t₂
  Moved-trans m n = record {
    conserved = λ p. n.conserved p ∙ m.conserved p;
    reserves = grind (int_laws, m.reserves, n.reserves);
    nonneg = λ h. n.nonneg (m.nonneg h);
    others = KeepsOthers-trans db m.others n.others;
  }

  -- A row that is available keeps its place and its quantity.
  abbrev pub KeepsAvailable : db.Table Inventory → db.Table Inventory → Type 0
  KeepsAvailable t t' =
      (k : ℕ) (x : Inventory)
      → db.get t k ≡ some x
      → x.stock_status ≡ available
      → db.get t' k ≡ some x

  -- What `reserve` does to the table: one row of the position grows by `q`.
  pub record Reserved (tenant : ℕ) (r : Inventory) (q : ℤ) (t t' : db.Table Inventory)
      : Type 0 where
    pub grows :
        (p : ℕ → Option ℕ → ℕ → ℕ → Bool)
        → db.sum (at_position p) t'
          ≡ db.sum (at_position p) t +ℤ at_position p 0 (record r { quantity = q })
    pub reserves : db.sum reserved_qty t' ≡ db.sum reserved_qty t +ℤ q
    pub nonneg : pos 0 ≤ℤ q → IsNonneg db t → IsNonneg db t'
    pub others : KeepsOthers db tenant t t'
    pub keeps : KeepsAvailable t t'

-- The fields that `has_key` compares.
SameKey : ℕ → Inventory → Inventory → Type 0
SameKey tenant r x =
    (x.tenant_id ≡ tenant)
    × (x.product_id ≡ r.product_id)
    × (x.batch_id ≡ r.batch_id)
    × (x.location_id ≡ r.location_id)
    × (x.uom ≡ r.uom)
    × (same_status x.stock_status reserved ≡ true)

has_key-SameKey :
    (tenant : ℕ) (r x : Inventory)
    → has_key tenant r.product_id r.batch_id r.location_id r.uom reserved x ≡ true
    → SameKey tenant r x
unfolding SameKey
has_key-SameKey tenant r x h = ground (arith, same_id-eq x.batch_id r.batch_id)

reserved-ne-available : (a : StockStatus) → same_status a reserved ≡ true → a ≢ available
reserved-ne-available a h e = ground (arith, ap rank e)

grown_weight :
    (b : Bool) (new old a q : ℤ)
    → new +ℤ (if b then a else pos 0) ≡ old +ℤ (if b then a +ℤ q else pos 0)
    → new ≡ old +ℤ (if b then q else pos 0)
grown_weight true new old a q h = grind int_laws
grown_weight false new old a q h = grind int_laws

same_position :
    (p : ℕ → Option ℕ → ℕ → ℕ → Bool) (x r : Inventory)
    → x.product_id ≡ r.product_id
    → x.batch_id ≡ r.batch_id
    → x.location_id ≡ r.location_id
    → x.uom ≡ r.uom
    → p x.product_id x.batch_id x.location_id x.uom ≡ p r.product_id r.batch_id r.location_id r.uom
same_position p x r hp hb hl hu = cc

module _ (db : Prisma) (c : IsClient db) where
  created-Reserved :
      (tenant now : ℕ) (r : Inventory) (q : ℤ) (t : db.Table Inventory)
      → Reserved db tenant r q t (db.create (reserved_row tenant now r q) t).1
  created-Reserved tenant now r q t =
      let x = reserved_row tenant now r q in
      let fresh = c.create_fresh x t in
      record {
        grows = λ p. c.sum-create (at_position p) x t;
        reserves = c.sum-create reserved_qty x t;
        nonneg = λ h n j y g. ground (arith, c.get-create x t j, n j y);
        others = (
          λ j y g ne. ground (arith, c.get-create x t j),
          λ j y g ne. ground (arith, c.get-create x t j),
        );
        keeps = λ j y g a. ground (arith, c.get-create x t j);
      }

  grown-Reserved :
      (tenant : ℕ) (r : Inventory) (q : ℤ) (t : db.Table Inventory) (i : ℕ) (x : Inventory)
      → db.get t i ≡ some x
      → SameKey tenant r x
      → Reserved db tenant r q t (db.write i (record x { quantity = x.quantity +ℤ q }) t)
  unfolding SameKey
  grown-Reserved tenant r q t i x g (ht, hp, hb, hl, hu, hs) =
      let x' : Inventory = record x { quantity = x.quantity +ℤ q } in
      record {
        grows = λ p. grown_weight (p r.product_id r.batch_id r.location_id r.uom) _ _ x.quantity q (
            subst
              (λ b.
                db.sum (at_position p) (db.write i x' t) +ℤ (if b then x.quantity else pos 0)
                ≡ db.sum (at_position p) t +ℤ (if b then x.quantity +ℤ q else pos 0))
              (same_position p x r hp hb hl hu) (c.sum-write (at_position p) i x' x t g));
        reserves = grown_weight true _ _ x.quantity q (
            subst
              (λ b.
                db.sum reserved_qty (db.write i x' t) +ℤ (if b then x.quantity else pos 0)
                ≡ db.sum reserved_qty t +ℤ (if b then x.quantity +ℤ q else pos 0))
              hs (c.sum-write reserved_qty i x' x t g));
        nonneg = λ h n j y k.
            ground (arith, c.get-write i x' x t j g, n j y, n i x g, +ℤ_nonneg x.quantity q);
        others = (
          λ j y k ne. ground (arith, c.get-write i x' x t j g),
          λ j y k ne. ground (arith, c.get-write i x' x t j g),
        );
        keeps = λ j y k a.
            ground (arith, c.get-write i x' x t j g, reserved-ne-available x.stock_status hs);
      }

  -- `reserve` always succeeds.
  pub reserve-Reserved :
      (tenant now : ℕ) (r : Inventory) (q : ℤ) (s : Db db)
      → (t : db.Table Inventory) × (reserve db tenant now r q s
          ≡ (ok tt, record s { inventory = t }))
        × Reserved db tenant r q s.inventory t
  unfolding reserve
  reserve-Reserved tenant now r q s =
      elim (Option-cases (
        db.find_first (λ i x. has_key tenant r.product_id r.batch_id r.location_id r.uom reserved x)
          s.inventory)) [
            | inl missing ↦ (
              (db.create (reserved_row tenant now r q) s.inventory).1,
              rw (missing, reserve) refl,
              created-Reserved tenant now r q s.inventory,
            )
            | inr ((i, x), e) ↦
                let (g, k) = c.found _ s.inventory i x e in
                let same = has_key-SameKey tenant r x k in
                (
                  db.write i (record x { quantity = x.quantity +ℤ q }) s.inventory,
                  ground arith,
                  grown-Reserved tenant r q s.inventory i x g same,
                )
          ]
