-- ===== src/Outbound/Release/Body.antt =====
-- The transaction of releaseOutboundOrder: what a run that succeeds has done.
use mathlib.Core.Path.{subst}
use awmsom.Base.{
  ℕ, ◌≡◌, refl, ◌∙◌, ap, Bool, true, false, ◌≢◌, ◌⊎◌, inl, inr, Bool-cases, Option, some, List, ℤ,
  pos, ◌+ℤ◌, ◌≤ℤ◌, ◌==◌, ◌&&◌, not, if◌then◌else◌, All, arith, every, any, ok, err, Result, Action,
  ◌>>◌, for_each, >>=-ok, raise_if, raise_if-ok, bad_request, full_allocation, partial_disabled,
}
use awmsom.Prisma.{Prisma, IsClient, Distinct, every-found, failing-found, any-found, none-found}
use awmsom.Schema.{
  Db, OutboundOrder, OutboundOrderLine, OutboundOrderStatus, OutboundRule, is_draft,
}
use awmsom.Inventory.Stock.{IsNonneg, KeepsOthers}
use awmsom.Outbound.Tables.{update_outbound_order}
use awmsom.Outbound.Release.{
  allocate_line, release_body, allocation_status, is_fully_allocated, has_allocation,
  tenant_lines_of_order, enforces_full, forbids_partial,
}
use awmsom.Outbound.Release.Reserve.{at_position, reserved_qty}
use awmsom.Outbound.Release.Lines.{IsWithin, allocated_total, allocate_lines-Allocated}

abbrev pub with_status : OutboundOrderStatus → OutboundOrder → OutboundOrder
with_status status order = record order { status = status }

module _ (db : Prisma) where
  -- A line of the tenant in the order.
  abbrev pub IsLineOf : ℕ → ℕ → Db db → ℕ → OutboundOrderLine → Type 0
  IsLineOf tenant i s k l =
      (db.get s.order_lines k ≡ some l) × (l.outbound_order_id ≡ i) × (l.tenant_id ≡ tenant)

  -- Each line has what it requested.
  abbrev pub IsFull : ℕ → ℕ → Db db → Type 0
  IsFull tenant i s =
      (k : ℕ) (l : OutboundOrderLine) → IsLineOf tenant i s k l → l.allocated_qty ≡ l.requested_qty

  -- Some line has not what it requested.
  abbrev pub IsLacking : ℕ → ℕ → Db db → Type 0
  IsLacking tenant i s =
      (k : ℕ) × (l : OutboundOrderLine) × IsLineOf tenant i s k l
      × (l.allocated_qty ≢ l.requested_qty)

  -- Some line has a positive quantity.
  abbrev pub IsBegun : ℕ → ℕ → Db db → Type 0
  IsBegun tenant i s =
      (k : ℕ) × (l : OutboundOrderLine) × IsLineOf tenant i s k l × (pos 1 ≤ℤ l.allocated_qty)

  abbrev pub IsUntouched : ℕ → ℕ → Db db → Type 0
  IsUntouched tenant i s =
      (k : ℕ) (l : OutboundOrderLine) → IsLineOf tenant i s k l → l.allocated_qty ≤ℤ pos 0

  -- What the status says of the lines.
  abbrev pub StatusOf : ℕ → ℕ → Db db → OutboundOrderStatus → Type 0
  StatusOf tenant i s status =
      ((status ≡ OutboundOrderStatus.fully_allocated) × IsFull tenant i s)
      ⊎ ((status ≡ OutboundOrderStatus.partially_allocated)
          × IsLacking tenant i s
          × IsBegun tenant i s)
      ⊎ ((status ≡ OutboundOrderStatus.released) × IsLacking tenant i s × IsUntouched tenant i s)

  -- After a failure nothing has changed. After a success the order was a draft of the tenant; its
  -- status says how much of it is allocated, and no other order has changed; what the lines have been
  -- given in all is what the reserved stock has grown by; every position holds as much stock as before
  -- over all statuses; and the other tenants' stock is as it was.
  abbrev pub Released : ℕ → ℕ → Db db → Result (Unit {0}) × Db db → Type 0
  Released tenant i s (err e, s') = s' ≡ s
  Released tenant i s (ok _, s') =
      (order : OutboundOrder) × (status : OutboundOrderStatus) × (d : ℤ) × (db.get s.orders i
        ≡ some order)
      × ((order.tenant_id ≡ tenant) × (order.status ≡ OutboundOrderStatus.draft))
      × ((j : ℕ)
          → db.get s'.orders j
            ≡ (if i == j then some (with_status status order) else db.get s.orders j))
      × StatusOf tenant i s' status
      × (pos 0 ≤ℤ d)
      × (db.sum reserved_qty s'.inventory ≡ db.sum reserved_qty s.inventory +ℤ d)
      × (allocated_total db s' ≡ allocated_total db s +ℤ d)
      × ((p : ℕ → Option ℕ → ℕ → ℕ → Bool)
          → db.sum (at_position p) s'.inventory ≡ db.sum (at_position p) s.inventory)
      × KeepsOthers db tenant s.inventory s'.inventory

  -- The steps of a successful body.
  release_body-steps :
      (tenant now i : ℕ) (order : OutboundOrder) (lines : List (ℕ × OutboundOrderLine))
      (rule : Option OutboundRule) (s s' : Db db)
      → release_body db tenant now i order lines rule s ≡ (ok tt, s')
      → (s₁ : Db db) × (s₂ : Db db) × (update_outbound_order db i
            (λ o. true)
            (λ o. record o { status = OutboundOrderStatus.released })
            s
          ≡ (ok tt, s₁))
        × (for_each lines (allocate_line db tenant now order.warehouse_id) s₁ ≡ (ok tt, s₂))
        × (update_outbound_order db i
              (λ o. o.tenant_id == tenant)
              (λ o. record o {
                status =
                    allocation_status
                      (every (λ x. is_fully_allocated x.1) (tenant_lines_of_order db tenant i s₂))
                      (any (λ x. has_allocation x.1) (tenant_lines_of_order db tenant i s₂));
              })
              s₂
            ≡ (ok tt, s'))
  unfolding release_body
  release_body-steps tenant now i order lines rule s s' h =
      let mark =
        update_outbound_order db i (λ o. true)
          (λ o. record o { status = OutboundOrderStatus.released }) in
      let fill = for_each lines (allocate_line db tenant now order.warehouse_id) in
      let all =
        λ (x : Db db). every (λ x. is_fully_allocated x.1) (tenant_lines_of_order db tenant i x) in
      let some_given =
        λ (x : Db db). any (λ x. has_allocation x.1) (tenant_lines_of_order db tenant i x) in
      let full = λ (x : Db db).
        raise_if {S = Db db} (enforces_full rule && not (all x)) (bad_request full_allocation) in
      let partial = λ (x : Db db).
        raise_if {S = Db db} (forbids_partial rule && not (all x)) (bad_request partial_disabled) in
      let close = λ (x : Db db).
        update_outbound_order db i (λ o. o.tenant_id == tenant)
          (λ o. record o { status = allocation_status (all x) (some_given x) }) in
      let rest : Action (Db db) (Unit {0}) = λ x. (full x >> (partial x >> close x)) x in
      let (u, s₁, h₁, k₁) = >>=-ok mark (λ u. fill >> rest) s s' tt h in
      let (v, s₂, h₂, k₂) = >>=-ok fill (λ u. rest) s₁ s' tt k₁ in
      let (w, s₃, h₃, k₃) = >>=-ok (full s₂) (λ u. partial s₂ >> close s₂) s₂ s' tt k₂ in
      let (x, s₄, h₄, k₄) = >>=-ok (partial s₂) (λ u. close s₂) s₃ s' tt k₃ in
      let e₃ = (raise_if-ok _ (bad_request full_allocation) s₂ s₃ w h₃).1 in
      let e₄ = (raise_if-ok _ (bad_request partial_disabled) s₃ s₄ x h₄).1 in
      (s₁, s₂, h₁, h₂, subst (λ y. close s₂ y ≡ (ok tt, s')) (e₄ ∙ e₃) k₄)

  update_order-ok :
      (i : ℕ) (p : OutboundOrder → Bool) (f : OutboundOrder → OutboundOrder) (o : OutboundOrder)
      (s s' : Db db)
      → update_outbound_order db i p f s ≡ (ok tt, s')
      → db.get s.orders i ≡ some o
      → s' ≡ record s { orders = db.write i (f o) s.orders }
  update_order-ok i p f o s s' h g = ground arith

pub is_draft-eq : (x : OutboundOrderStatus) → is_draft x ≡ true → x ≡ OutboundOrderStatus.draft
is_draft-eq OutboundOrderStatus.draft h = refl
is_draft-eq _ h = cc

module _ (db : Prisma) (c : IsClient db) where
  get-two-writes :
      (i j : ℕ) (o o₁ o₂ : OutboundOrder) (t t₁ : db.Table OutboundOrder)
      → db.get t i ≡ some o
      → t₁ ≡ db.write i o₁ t
      → db.get (db.write i o₂ t₁) j ≡ (if i == j then some o₂ else db.get t j)
  get-two-writes i j o o₁ o₂ t t₁ g e = ground (
    arith,
    e,
    c.get-write i o₁ o t i g,
    c.get-write i o₁ o t j g,
    c.get-write i o₂ o₁ (db.write i o₁ t) j,
  )

  module _ (tenant i : ℕ) (s : Db db) where
    abbrev of_order : ℕ → OutboundOrderLine → Bool
    of_order k r = r.outbound_order_id == i && r.tenant_id == tenant

    all-IsFull :
        every (λ x. is_fully_allocated x.1) (tenant_lines_of_order db tenant i s) ≡ true
        → IsFull db tenant i s
    all-IsFull h k l (g, o, t) =
        let e =
          every-found db s.order_lines is_fully_allocated c of_order (λ a b. false) h k l g
            (ground (arith, o, t)) in
        ground (arith, e)

    some-IsLacking :
        every (λ x. is_fully_allocated x.1) (tenant_lines_of_order db tenant i s) ≡ false
        → IsLacking db tenant i s
    some-IsLacking h =
        let (k, l, g, p, q) =
          failing-found db s.order_lines is_fully_allocated c of_order (λ a b. false) h in
        (k, l, (g, ground (arith, p), ground (arith, p)), λ e. ground (arith, q, e))

    some-IsBegun :
        any (λ x. has_allocation x.1) (tenant_lines_of_order db tenant i s) ≡ true
        → IsBegun db tenant i s
    some-IsBegun h =
        let (k, l, g, p, q) =
          any-found db s.order_lines has_allocation c of_order (λ a b. false) h in
        (k, l, (g, ground (arith, p), ground (arith, p)), ground (arith, q))

    all-IsUntouched :
        any (λ x. has_allocation x.1) (tenant_lines_of_order db tenant i s) ≡ false
        → IsUntouched db tenant i s
    all-IsUntouched h k l (g, o, t) =
        let e =
          none-found db s.order_lines has_allocation c of_order (λ a b. false) h k l g
            (ground (arith, o, t)) in
        ground (arith, e)

    allocation_status-StatusOf : StatusOf db tenant i s (
        allocation_status
          (every (λ x. is_fully_allocated x.1) (tenant_lines_of_order db tenant i s))
          (any (λ x. has_allocation x.1) (tenant_lines_of_order db tenant i s)))
    unfolding allocation_status
    allocation_status-StatusOf =
        let lines = tenant_lines_of_order db tenant i s in
        elim (Bool-cases (every (λ x. is_fully_allocated x.1) lines)) [
          | inl full ↦ rw full (inl (refl, all-IsFull full))
          | inr lacking ↦ elim (Bool-cases (any (λ x. has_allocation x.1) lines)) [
            | inl begun ↦
                rw (lacking, begun) (inr (inl (refl, some-IsLacking lacking, some-IsBegun begun)))
            | inr untouched ↦
                rw (lacking, untouched)
                  (inr (inr (refl, some-IsLacking lacking, all-IsUntouched untouched)))
          ]
        ]

  pub release_body-Released :
      (tenant now i : ℕ) (order : OutboundOrder) (lines : List (ℕ × OutboundOrderLine))
      (rule : Option OutboundRule) (s s' : Db db)
      → release_body db tenant now i order lines rule s ≡ (ok tt, s')
      → db.get s.orders i ≡ some order
      → order.tenant_id ≡ tenant
      → order.status ≡ OutboundOrderStatus.draft
      → All (λ x. db.get s.order_lines x.0 ≡ some x.1) lines
      → Distinct lines
      → Released db tenant i s (ok tt, s')
        × (IsNonneg db s.inventory → IsNonneg db s'.inventory)
        × (IsWithin db s.order_lines → IsWithin db s'.order_lines)
  release_body-Released tenant now i order lines rule s s' h g ht hs rows d =
      let (s₁, s₂, mark, fill, close) =
        release_body-steps db tenant now i order lines rule s s' h in
      let marked = with_status OutboundOrderStatus.released order in
      let e₁ =
        update_order-ok db i (λ o. true) (with_status OutboundOrderStatus.released) order s s₁ mark
          g in
      let start : Db db = record s { orders = db.write i marked s.orders } in
      let (n, lo, a) =
        allocate_lines-Allocated db c tenant now order.warehouse_id lines start s₂ rows d (
          subst
            (λ x. for_each lines (allocate_line db tenant now order.warehouse_id) x ≡ (ok tt, s₂))
            e₁ fill) in
      let g₂ : db.get s₂.orders i ≡ some marked =
        ap (λ t. db.get t i) a.orders ∙ ground (arith, c.get-write i marked order s.orders i g) in
      let status =
        allocation_status
          (every (λ x. is_fully_allocated x.1) (tenant_lines_of_order db tenant i s₂))
          (any (λ x. has_allocation x.1) (tenant_lines_of_order db tenant i s₂)) in
      let e₂ =
        update_order-ok db i (λ o. o.tenant_id == tenant) (with_status status) marked s₂ s' close
          g₂ in
      rw e₂ (
        (
          order,
          status,
          n,
          g,
          (ht, hs),
          λ j.
              get-two-writes i j order marked (with_status status order) s.orders s₂.orders g
                a.orders,
          allocation_status-StatusOf tenant i s₂,
          lo,
          a.moved.reserves,
          a.books,
          a.moved.conserved,
          a.moved.others,
        ),
        a.moved.nonneg,
        a.within,
      )
