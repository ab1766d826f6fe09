-- ===== src/Inbound/Policy.antt =====
-- ConfigService.resolveInventoryPolicy and the tolerances of a receipt that it decides.
use awmsom.Base.{
  ℕ, Bool, true, false, Option, none, some, List, [], ◌∷◌, ℤ, pos, ◌+ℤ◌, ◌-ℤ◌, ◌*ℤ◌, ltb, ltb_ℤ,
  ◌==◌, ◌&&◌, ◌||◌, not, same_id,
}
use awmsom.Prisma.{Prisma}
use awmsom.Schema.{Db, InventoryPolicy}

-- `desc` on a nullable column: PostgreSQL puts a missing value first.
abbrev pub sorts_above : Option ℕ → Option ℕ → Bool
sorts_above none none = false
sorts_above none (some b) = true
sorts_above (some a) none = false
sorts_above (some a) (some b) = ltb b a

-- `orderBy: [{ productId: 'desc' }, { warehouseId: 'desc' }, { updatedAt: 'desc' }]`
abbrev pub policy_first : InventoryPolicy → InventoryPolicy → Bool
policy_first a b =
    sorts_above a.product_id b.product_id
    || (not (sorts_above b.product_id a.product_id)
        && (sorts_above a.warehouse_id b.warehouse_id
            || (not (sorts_above b.warehouse_id a.warehouse_id) && ltb b.updated_at a.updated_at)))

-- Among the four alternatives of `OR`, the row's own value or null in each column.
abbrev pub applies : ℕ → ℕ → ℕ → InventoryPolicy → Bool
applies tenant warehouse product r =
    r.tenant_id == tenant
    && ((same_id r.warehouse_id (some warehouse) || same_id r.warehouse_id none)
        && (same_id r.product_id (some product) || same_id r.product_id none))

-- `candidates[0] ?? null`
abbrev pub first_policy : List (ℕ × InventoryPolicy) → Option InventoryPolicy
first_policy [] = none
first_policy (x ∷ xs) = some x.1

-- `policy?.maxOverReceiptPct ?? 0`
abbrev pub max_over_pct : Option InventoryPolicy → ℤ
max_over_pct none = pos 0
max_over_pct (some p) = elim p.max_over_receipt_pct [ none ↦ pos 0 | some x ↦ x ]

-- `policy?.maxUnderReceiptPct`
abbrev pub max_under_pct : Option InventoryPolicy → Option ℤ
max_under_pct none = none
max_under_pct (some p) = p.max_under_receipt_pct

-- One hundred percent.
abbrev pub whole : ℕ
whole = 1000000

-- `newTotalQty.gt(expectedQty.mul(1 + maxOverPct / 100))`
abbrev pub exceeds : ℤ → ℤ → ℤ → Bool
exceeds expected total pct = ltb_ℤ (expected *ℤ pos whole +ℤ expected *ℤ pct) (total *ℤ pos whole)

-- `maxUnderPct` is given, something remains, and it is more than that part of what was expected.
abbrev pub falls_short : ℤ → ℤ → Option ℤ → Bool
falls_short expected total none = false
falls_short expected total (some pct) =
    ltb_ℤ (pos 0) (expected -ℤ total) && ltb_ℤ (expected *ℤ pct) ((expected -ℤ total) *ℤ pos whole)

module _ (db : Prisma) where
  unfoldable pub resolve_inventory_policy : ℕ → ℕ → ℕ → Db db → Option InventoryPolicy
  resolve_inventory_policy tenant warehouse product s =
      first_policy
        (db.find_many (λ i r. applies tenant warehouse product r) policy_first s.inventory_policies)
