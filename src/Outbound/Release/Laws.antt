-- ===== src/Outbound/Release/Laws.antt =====
-- What releaseOutboundOrder guarantees on every path.
use mathlib.Core.Path.{subst}
use awmsom.Base.{
  ℕ, ◌≡◌, refl, ◌∙◌, Option, List, ◌==◌, not, arith, ok, err, Result, Action, ◌>>=◌, ◌>>◌, ==_iff,
  >>=-ok, raise_if, raise_if-ok, or_raise, or_raise-ok, gets, transaction, transaction-ok, Atomic,
  >>=-Atomic, gets-Atomic, or_raise-Reads, or_raise-Atomic, raise_if-Reads, raise_if-Atomic,
  transaction-Atomic, not_found, bad_request, order_not_found, only_draft_released,
}
use awmsom.Prisma.{Prisma, IsClient, find_by_id, find_by_id_lem, find_many-found}
use awmsom.Schema.{Db, OutboundOrder, OutboundOrderLine, OutboundRule, is_draft}
use awmsom.Inventory.Stock.{IsNonneg}
use awmsom.Outbound.Tables.{lines_of_order}
use awmsom.Outbound.Release.{release_body, release_outbound_order, get_outbound_rule}
use awmsom.Outbound.Release.Lines.{IsWithin}
use awmsom.Outbound.Release.Body.{Released, is_draft-eq, release_body-Released}

module _ (db : Prisma) (c : IsClient db) where
  release_outbound_order-ok :
      (tenant now i : ℕ) (s s' : Db db)
      → release_outbound_order db tenant now i s ≡ (ok tt, s')
      → Released db tenant i s (ok tt, s')
        × (IsNonneg db s.inventory → IsNonneg db s'.inventory)
        × (IsWithin db s.order_lines → IsWithin db s'.order_lines)
  unfolding release_outbound_order
  release_outbound_order-ok tenant now i s s' h =
      let row = find_by_id db i (λ r. r.tenant_id == tenant) s.orders in
      let find = or_raise row (not_found order_not_found) in
      let check = λ (x : ℕ × OutboundOrder).
        raise_if (not (is_draft x.1.status)) (bad_request only_draft_released) in
      let body : ℕ × OutboundOrder → List (ℕ × OutboundOrderLine) → Action (Db db) (Unit {0}) =
        λ x lines s.
          transaction
            (release_body db tenant now i x.1 lines
              (get_outbound_rule db tenant x.1.warehouse_id s))
            s in
      let rest : ℕ × OutboundOrder → Action (Db db) (Unit {0}) =
        λ x s. (check x >> body x (lines_of_order db i s)) s in
      let ((j, order), s₁, h₁, k₁) = >>=-ok find rest s s' tt h in
      let (e, e₁) = or_raise-ok row (not_found order_not_found) s s₁ (j, order) h₁ in
      let (u, s₂, h₂, k₂) =
        >>=-ok (check (j, order)) (λ u. body (j, order) (lines_of_order db i s₁)) s₁ s' tt k₁ in
      let (draft, e₂) = raise_if-ok _ (bad_request only_draft_released) s₁ s₂ u h₂ in
      let (same, g, t) = find_by_id_lem db c i _ _ j order e in
      let run =
        subst (λ y. body (j, order) (lines_of_order db i y) s ≡ (ok tt, s')) e₁
          (subst (λ y. body (j, order) (lines_of_order db i s₁) y ≡ (ok tt, s')) (e₂ ∙ e₁) k₂) in
      release_body-Released db c tenant now i order (lines_of_order db i s)
        (get_outbound_rule db tenant order.warehouse_id s) s s'
        (transaction-ok
          (release_body db tenant now i order (lines_of_order db i s)
            (get_outbound_rule db tenant order.warehouse_id s))
          s s' tt run)
        g ((==_iff _ _).0 t) (is_draft-eq order.status (ground (arith, draft)))
        (find_many-found db c _ _ s.order_lines) (c.many_distinct _ _ s.order_lines)

  release_outbound_order-Atomic :
      (tenant now i : ℕ) → Atomic (release_outbound_order db tenant now i)
  unfolding release_outbound_order
  release_outbound_order-Atomic tenant now i =
      let check = λ (x : ℕ × OutboundOrder).
        raise_if {S = Db db} (not (is_draft x.1.status)) (bad_request only_draft_released) in
      let body =
        λ (x : ℕ × OutboundOrder) (lines : List (ℕ × OutboundOrderLine))
            (rule : Option OutboundRule).
          transaction (release_body db tenant now i x.1 lines rule) in
      let ruled = λ (x : ℕ × OutboundOrder) (lines : List (ℕ × OutboundOrderLine)).
        gets (get_outbound_rule db tenant x.1.warehouse_id) >>= body x lines in
      let rest = λ (x : ℕ × OutboundOrder).
        gets (lines_of_order db i) >>= λ lines. check x >> ruled x lines in
      gets-Atomic (λ s. find_by_id db i (λ r. r.tenant_id == tenant) s.orders)
        (λ o. or_raise o (not_found order_not_found) >>= rest)
        λ o.
          >>=-Atomic (or_raise o (not_found order_not_found)) rest (or_raise-Reads o _)
            (or_raise-Atomic o _)
            λ x.
              gets-Atomic (lines_of_order db i) (λ lines. check x >> ruled x lines)
                λ lines.
                  >>=-Atomic (check x) (λ u. ruled x lines) (raise_if-Reads _ _)
                    (raise_if-Atomic _ _)
                    λ u.
                      gets-Atomic (get_outbound_rule db tenant x.1.warehouse_id) (body x lines)
                        λ rule. transaction-Atomic (release_body db tenant now i x.1 lines rule)

  -- A release that fails leaves the tables as they were. One that succeeds was of a draft order of the
  -- tenant. Its status is then what the tenant's lines of the order after it ask for: fully allocated
  -- if each has what it requested, else partially allocated if one has anything, else released; and no
  -- other order has changed. What the order lines have been given in all is what the reserved stock has
  -- grown by, and is not negative; at every choice of positions (product, batch, location and unit)
  -- the stock over all statuses is as before; and the stock of other tenants is as it was.
  pub release_outbound_order-Released :
      (tenant now i : ℕ) (s : Db db)
      → Released db tenant i s (release_outbound_order db tenant now i s)
  release_outbound_order-Released tenant now i s =
      go (release_outbound_order db tenant now i s) refl
    where
      go :
          (x : Result (Unit {0}) × Db db)
          → release_outbound_order db tenant now i s ≡ x
          → Released db tenant i s x
      go (err e, s') h = release_outbound_order-Atomic tenant now i s s' e h
      go (ok tt, s') h = (release_outbound_order-ok tenant now i s s' h).0

  pub release_outbound_order-stock :
      (tenant now i : ℕ) (s : Db db)
      → IsNonneg db s.inventory
      → IsNonneg db (release_outbound_order db tenant now i s).1.inventory
  release_outbound_order-stock tenant now i s n = go (release_outbound_order db tenant now i s) refl
    where
      go :
          (x : Result (Unit {0}) × Db db)
          → release_outbound_order db tenant now i s ≡ x
          → IsNonneg db x.1.inventory
      go (err e, s') h = rw (release_outbound_order-Atomic tenant now i s s' e h) n
      go (ok tt, s') h = (release_outbound_order-ok tenant now i s s' h).1 n

  -- However a release ends, if no stock was negative and no order line had more than it asked for, the
  -- same holds after it.
  pub release_outbound_order-IsNonneg :
      (tenant now i : ℕ) (s : Db db)
      → IsNonneg db s.inventory
      → IsWithin db s.order_lines
      → let s' = (release_outbound_order db tenant now i s).1 in
        IsNonneg db s'.inventory × IsWithin db s'.order_lines
  release_outbound_order-IsNonneg tenant now i s n w =
      go (release_outbound_order db tenant now i s) refl
    where
      go :
          (x : Result (Unit {0}) × Db db)
          → release_outbound_order db tenant now i s ≡ x
          → IsNonneg db x.1.inventory × IsWithin db x.1.order_lines
      go (err e, s') h = rw (release_outbound_order-Atomic tenant now i s s' e h) (n, w)
      go (ok tt, s') h =
          let (_, nonneg, within) = release_outbound_order-ok tenant now i s s' h in
          (nonneg n, within w)
