-- ===== src/Outbound/Release/Allocate.antt =====
-- One row, and then all rows, of the allocation loop of releaseOutboundOrder.
use awmsom.Base.{
  ℕ, ◌≡◌, refl, ◌∙◌, ap, ◌≢◌, Bool, true, false, Option, some, ℤ, pos, ◌+ℤ◌, ◌-ℤ◌, ◌≤ℤ◌, leb_ℤ,
  ◌==◌, ◌||◌, if◌then◌else◌, arith, int_laws,
}
use awmsom.Prisma.{Prisma, IsClient}
use awmsom.Schema.{Inventory, available, reserved, same_status}
use awmsom.Inventory.Stock.{IsNonneg, KeepsOthers, KeepsOthers-trans}
use awmsom.Outbound.Release.{allocate_qty}
use awmsom.Outbound.Release.Reserve.{at_position, reserved_qty, Moved, Reserved}

-- What is given is neither negative nor more than the row has or the line misses.
pub allocate_qty_bounds :
    (a m : ℤ)
    → leb_ℤ m (pos 0) || leb_ℤ a (pos 0) ≡ false
    → (pos 0 ≤ℤ allocate_qty a m) × (allocate_qty a m ≤ℤ a) × (allocate_qty a m ≤ℤ m)
allocate_qty_bounds a m h = ground arith

taken_weight :
    (b : Bool) (new old a q : ℤ)
    → new +ℤ (if b then a else pos 0) ≡ old +ℤ (if b then a -ℤ q else pos 0)
    → new +ℤ (if b then q else pos 0) ≡ old
taken_weight true new old a q h = grind int_laws
taken_weight false new old a q h = grind int_laws

available_weight :
    (r : Inventory) → r.stock_status ≡ available → same_status r.stock_status reserved ≡ false
available_weight r h = rw h refl

no_weight :
    (b : Bool) (new old a a' : ℤ)
    → b ≡ false
    → new +ℤ (if b then a else pos 0) ≡ old +ℤ (if b then a' else pos 0)
    → new ≡ old
no_weight true new old a a' e h = ground arith
no_weight false new old a a' e h = grind int_laws

left_nonneg : (a q : ℤ) → q ≤ℤ a → pos 0 ≤ℤ a -ℤ q
left_nonneg a q h = omega int_laws

module _ (db : Prisma) (c : IsClient db) where
  -- The table after a quantity was taken from an available row.
  abbrev pub taken : ℕ → Inventory → ℤ → db.Table Inventory → db.Table Inventory
  taken i r q t = db.write i (record r { quantity = r.quantity -ℤ q }) t

  module _ (tenant i : ℕ) (r : Inventory) (q : ℤ) (t : db.Table Inventory) (g : db.get t i ≡ some r)
      (ht : r.tenant_id ≡ tenant) (hs : r.stock_status ≡ available) where
    get-taken :
        (k : ℕ)
        → db.get (taken i r q t) k
          ≡ (if i == k then some (record r { quantity = r.quantity -ℤ q }) else db.get t k)
    get-taken k = c.get-write i _ r t k g

    taken-conserved :
        (p : ℕ → Option ℕ → ℕ → ℕ → Bool)
        → db.sum (at_position p) (taken i r q t) +ℤ at_position p 0 (record r { quantity = q })
          ≡ db.sum (at_position p) t
    taken-conserved p =
        taken_weight (p r.product_id r.batch_id r.location_id r.uom) _ _ r.quantity q
          (c.sum-write (at_position p) i _ r t g)

    taken-reserved : db.sum reserved_qty (taken i r q t) ≡ db.sum reserved_qty t
    taken-reserved =
        no_weight (same_status r.stock_status reserved) _ _ r.quantity (r.quantity -ℤ q)
          (available_weight r hs) (c.sum-write reserved_qty i _ r t g)

    taken-IsNonneg : q ≤ℤ r.quantity → IsNonneg db t → IsNonneg db (taken i r q t)
    taken-IsNonneg h n k x e = ground (arith, get-taken k, n k x, left_nonneg r.quantity q h)

    taken-KeepsOthers : KeepsOthers db tenant t (taken i r q t)
    taken-KeepsOthers =
        (λ k x e ne. ground (arith, get-taken k), λ k x e ne. ground (arith, get-taken k))

    pub taken-keeps :
        (k : ℕ) (x : Inventory) → k ≢ i → db.get t k ≡ some x → db.get (taken i r q t) k ≡ some x
    taken-keeps k x ne e = ground (arith, get-taken k)

    -- Taking from one row and reserving the same amount.
    pub taken-Reserved-Moved :
        (t' : db.Table Inventory)
        → pos 0 ≤ℤ q
        → q ≤ℤ r.quantity
        → Reserved db tenant r q (taken i r q t) t'
        → Moved db tenant q t t'
    taken-Reserved-Moved t' lo hi m = record {
      conserved = λ p. m.grows p ∙ taken-conserved p;
      reserves = m.reserves ∙ ap (λ x. x +ℤ q) taken-reserved;
      nonneg = λ n. m.nonneg lo (taken-IsNonneg hi n);
      others = KeepsOthers-trans db taken-KeepsOthers m.others;
    }
