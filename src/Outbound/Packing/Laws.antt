-- ===== src/Outbound/Packing/Laws.antt =====
-- addItemsToHandlingUnit never packs more than was picked.
use mathlib.Core.Path.{subst}
use awmsom.Base.{
  ℕ, ◌≡◌, refl, sym, ◌∙◌, ap, inl, inr, Bool, true, false, Option, none, some, List, [], ◌∷◌, ℤ,
  pos, ◌+ℤ◌, ◌≤ℤ◌, ◌==◌, ◌&&◌, not, if◌then◌else◌, find, All, arith, +ℤ_zero, ok, err, Result,
  Action, Bool-cases, ◌>>=◌, ◌>>◌, ==_iff, for_each, >>=-ok, raise_if, raise_if-ok, or_raise,
  or_raise-ok, gets, transaction, transaction-ok, Atomic, >>=-Atomic, gets-Atomic, or_raise-Reads,
  or_raise-Atomic, raise_if-Reads, raise_if-Atomic, transaction-Atomic, not_found, bad_request,
  handling_unit_not_found, order_not_found, warehouse_mismatch,
}
use awmsom.Prisma.{Prisma, IsClient, find_by_id, find_many-found}
use awmsom.Schema.{Db, OutboundOrder, OutboundOrderLine, HandlingUnit}
use awmsom.Outbound.Tables.{lines_of_order}
use awmsom.Outbound.Packing.{PackItem, packed_row, packed_total, pack_item, add_items}

find-All :
    (P : ℕ × OutboundOrderLine → Type 0) (p : ℕ × OutboundOrderLine → Bool)
    (rows : List (ℕ × OutboundOrderLine)) (x : ℕ × OutboundOrderLine)
    → All P rows
    → find p rows ≡ some x
    → P x × (p x ≡ true)
find-All P p [] x h e = cc
find-All P p (y ∷ rows) x (h, hs) e = elim (Bool-cases (p y)) [
  | inl hit ↦
      let same : y ≡ x = cc (rw hit at e) in (subst P same h, subst (λ z. p z ≡ true) same hit)
  | inr miss ↦ find-All P p rows x hs (rw miss at e)
]

module _ (db : Prisma) where
  -- No line of the tenant's handling units holds more of an order line than was picked for it.
  abbrev pub IsPacked : ℕ → Db db → Type 0
  IsPacked tenant s =
      (i : ℕ) (l : OutboundOrderLine)
      → db.get s.order_lines i ≡ some l
      → packed_total db tenant i s.handling_unit_lines ≤ℤ l.picked_qty

  pack_item-ok :
      (tenant unit_id order_id : ℕ) (lines : List (ℕ × OutboundOrderLine)) (item : PackItem)
      (s s' : Db db)
      → pack_item db tenant unit_id order_id lines item s ≡ (ok tt, s')
      → (x : ℕ × OutboundOrderLine) × (find (λ x. x.0 == item.order_line_id) lines ≡ some x)
        × (packed_total db tenant item.order_line_id s.handling_unit_lines +ℤ item.quantity
            ≤ℤ x.1.picked_qty)
        × (s' ≡ record s {
          handling_unit_lines =
              (db.create (packed_row tenant unit_id order_id item) s.handling_unit_lines).1;
        })
  unfolding pack_item
  pack_item-ok tenant unit_id order_id lines item s s' h =
      go (find (λ x. x.0 == item.order_line_id) lines) refl
    where
      go :
          (o : Option (ℕ × OutboundOrderLine))
          → find (λ x. x.0 == item.order_line_id) lines ≡ o
          → (x : ℕ × OutboundOrderLine) × (find (λ x. x.0 == item.order_line_id) lines ≡ some x)
            × (packed_total db tenant item.order_line_id s.handling_unit_lines +ℤ item.quantity
                ≤ℤ x.1.picked_qty)
            × (s' ≡ record s {
              handling_unit_lines =
                  (db.create (packed_row tenant unit_id order_id item) s.handling_unit_lines).1;
            })
      go none e = absurd (ground arith)
      go (some x) e = (x, e, ground arith, ground arith)

  -- The line that was found is the line of the table.
  same_room :
      (tenant k i j : ℕ) (q : ℤ) (l x : OutboundOrderLine) (s : Db db)
      → j ≡ k
      → k ≡ i
      → db.get s.order_lines j ≡ some l
      → db.get s.order_lines i ≡ some x
      → packed_total db tenant k s.handling_unit_lines +ℤ q ≤ℤ l.picked_qty
      → packed_total db tenant i s.handling_unit_lines +ℤ q ≤ℤ x.picked_qty
  same_room tenant k i j q l x s jk ki at g room =
      let found = subst (λ n. db.get s.order_lines n ≡ some l) (jk ∙ ki) at in
      let same : l ≡ x = cc (sym found ∙ g) in
      subst (λ y. packed_total db tenant i s.handling_unit_lines +ℤ q ≤ℤ y.picked_qty) same
        (subst (λ n. packed_total db tenant n s.handling_unit_lines +ℤ q ≤ℤ l.picked_qty) ki room)

module _ (db : Prisma) (c : IsClient db) where
  still_packed :
      (b : Bool) (new old q most : ℤ)
      → new ≡ old +ℤ (if b then q else pos 0)
      → (b ≡ true → old +ℤ q ≤ℤ most)
      → old ≤ℤ most
      → new ≤ℤ most
  still_packed true new old q most e h k = rw e (h refl)
  still_packed false new old q most e h k = rw (e, +ℤ_zero old) k

  pack_item-IsPacked :
      (tenant unit_id order_id : ℕ) (lines : List (ℕ × OutboundOrderLine)) (item : PackItem)
      (s s' : Db db)
      → All (λ x. db.get s.order_lines x.0 ≡ some x.1) lines
      → pack_item db tenant unit_id order_id lines item s ≡ (ok tt, s')
      → IsPacked db tenant s
      → IsPacked db tenant s' × (s'.order_lines ≡ s.order_lines)
  pack_item-IsPacked tenant unit_id order_id lines item s s' rows h packed =
      let ((j, l), e, room, same) = pack_item-ok db tenant unit_id order_id lines item s s' h in
      let (at, hit) = find-All _ _ lines (j, l) rows e in
      rw same (
        λ i x g.
            still_packed (item.order_line_id == i && tenant == tenant) _ _ item.quantity
              x.picked_qty
              (c.sum-create _ (packed_row tenant unit_id order_id item) s.handling_unit_lines)
              (λ own.
                same_room db tenant item.order_line_id i j item.quantity l x s ((==_iff _ _).0 hit)
                  (ground (arith, own)) at g room)
              (packed i x g),
        refl,
      )

  pack_items-IsPacked :
      (tenant unit_id order_id : ℕ) (lines : List (ℕ × OutboundOrderLine)) (items : List PackItem)
      (s s' : Db db)
      → All (λ x. db.get s.order_lines x.0 ≡ some x.1) lines
      → for_each items (pack_item db tenant unit_id order_id lines) s ≡ (ok tt, s')
      → IsPacked db tenant s
      → IsPacked db tenant s'
  unfolding for_each
  pack_items-IsPacked tenant unit_id order_id lines [] s s' rows h packed =
      subst (IsPacked db tenant) (ap (λ x. x.1) h) packed
  pack_items-IsPacked tenant unit_id order_id lines (item ∷ items) s s' rows h packed =
      let (u, s₁, first, rest) =
        >>=-ok (pack_item db tenant unit_id order_id lines item)
          (λ u. for_each items (pack_item db tenant unit_id order_id lines)) s s' tt h in
      let (packed₁, same) =
        pack_item-IsPacked tenant unit_id order_id lines item s s₁ rows first packed in
      pack_items-IsPacked tenant unit_id order_id lines items s₁ s'
        (subst (λ t. All (λ x. db.get t x.0 ≡ some x.1) lines) (sym same) rows) rest packed₁

  add_items-ok :
      (tenant unit_id order_id : ℕ) (items : List PackItem) (s s' : Db db)
      → add_items db tenant unit_id order_id items s ≡ (ok tt, s')
      → IsPacked db tenant s
      → IsPacked db tenant s'
  unfolding add_items
  add_items-ok tenant unit_id order_id items s s' h packed =
      let unit_row = find_by_id db unit_id (λ r. r.tenant_id == tenant) s.handling_units in
      let order_row = λ (x : Db db). find_by_id db order_id (λ r. r.tenant_id == tenant) x.orders in
      let body = λ (x : Db db).
        transaction
          (for_each items (pack_item db tenant unit_id order_id (lines_of_order db order_id x))) in
      let check = λ (u : ℕ × HandlingUnit) (o : ℕ × OutboundOrder).
        raise_if {S = Db db} (not (o.1.warehouse_id == u.1.warehouse_id))
          (bad_request warehouse_mismatch) in
      let third : ℕ × HandlingUnit → ℕ × OutboundOrder → Action (Db db) (Unit {0}) =
        λ u o x. (check u o >> body x) x in
      let second : ℕ × HandlingUnit → Action (Db db) (Unit {0}) =
        λ u x. (or_raise (order_row x) (not_found order_not_found) >>= third u) x in
      let (u, s₁, h₁, k₁) =
        >>=-ok (or_raise unit_row (not_found handling_unit_not_found)) second s s' tt h in
      let e₁ = (or_raise-ok unit_row (not_found handling_unit_not_found) s s₁ u h₁).1 in
      let (o, s₂, h₂, k₂) =
        >>=-ok (or_raise (order_row s₁) (not_found order_not_found)) (third u) s₁ s' tt k₁ in
      let e₂ = (or_raise-ok (order_row s₁) (not_found order_not_found) s₁ s₂ o h₂).1 in
      let (v, s₃, h₃, k₃) = >>=-ok (check u o) (λ v. body s₂) s₂ s' tt k₂ in
      let e₃ = (raise_if-ok _ (bad_request warehouse_mismatch) s₂ s₃ v h₃).1 in
      let run =
        subst (λ x. body x s ≡ (ok tt, s')) (e₂ ∙ e₁)
          (subst (λ x. body s₂ x ≡ (ok tt, s')) (e₃ ∙ e₂ ∙ e₁) k₃) in
      let lines = lines_of_order db order_id s in
      pack_items-IsPacked tenant unit_id order_id lines items s s'
        (find_many-found db c _ _ s.order_lines)
        (transaction-ok (for_each items (pack_item db tenant unit_id order_id lines)) s s' tt run)
        packed

module _ (db : Prisma) where
  add_items-Atomic :
      (tenant unit_id order_id : ℕ) (items : List PackItem)
      → Atomic (add_items db tenant unit_id order_id items)
  unfolding add_items
  add_items-Atomic tenant unit_id order_id items =
      let body = λ (lines : List (ℕ × OutboundOrderLine)).
        transaction (for_each items (pack_item db tenant unit_id order_id lines)) in
      let check = λ (u : ℕ × HandlingUnit) (o : ℕ × OutboundOrder).
        raise_if {S = Db db} (not (o.1.warehouse_id == u.1.warehouse_id))
          (bad_request warehouse_mismatch) in
      let third = λ (u : ℕ × HandlingUnit) (o : ℕ × OutboundOrder).
        gets (lines_of_order db order_id) >>= λ lines. check u o >> body lines in
      let second = λ (u : ℕ × HandlingUnit).
        gets (λ s. find_by_id db order_id (λ r. r.tenant_id == tenant) s.orders) >>= λ o.
        or_raise o (not_found order_not_found) >>= third u in
      gets-Atomic (λ s. find_by_id db unit_id (λ r. r.tenant_id == tenant) s.handling_units)
        (λ u. or_raise u (not_found handling_unit_not_found) >>= second)
        λ u.
          >>=-Atomic (or_raise u (not_found handling_unit_not_found)) second (or_raise-Reads u _)
            (or_raise-Atomic u _)
            λ u.
              gets-Atomic (λ s. find_by_id db order_id (λ r. r.tenant_id == tenant) s.orders)
                (λ o. or_raise o (not_found order_not_found) >>= third u)
                λ o.
                  >>=-Atomic (or_raise o (not_found order_not_found)) (third u) (or_raise-Reads o _)
                    (or_raise-Atomic o _)
                    λ o.
                      gets-Atomic (lines_of_order db order_id) (λ lines. check u o >> body lines)
                        λ lines.
                          >>=-Atomic (check u o) (λ v. body lines) (raise_if-Reads _ _)
                            (raise_if-Atomic _ _)
                            (λ v.
                              transaction-Atomic
                                (for_each items (pack_item db tenant unit_id order_id lines)))

  -- After a failure nothing has changed; after a success no more is packed than was picked.
  abbrev pub Packed : ℕ → Db db → Result (Unit {0}) × Db db → Type 0
  Packed tenant s (err e, s') = s' ≡ s
  Packed tenant s (ok _, s') = IsPacked db tenant s'

-- If the tenant's handling units hold no more of any order line than was picked for it, then items
-- that are added leave it so, and a request that fails leaves the tables as they were.
pub add_items-Packed :
    (db : Prisma) (c : IsClient db) (tenant unit_id order_id : ℕ) (items : List PackItem)
    (s : Db db)
    → IsPacked db tenant s
    → Packed db tenant s (add_items db tenant unit_id order_id items s)
add_items-Packed db c tenant unit_id order_id items s packed =
    go (add_items db tenant unit_id order_id items s) refl
  where
    go :
        (x : Result (Unit {0}) × Db db)
        → add_items db tenant unit_id order_id items s ≡ x
        → Packed db tenant s x
    go (err e, s') h = add_items-Atomic db tenant unit_id order_id items s s' e h
    go (ok tt, s') h = add_items-ok db c tenant unit_id order_id items s s' h packed
