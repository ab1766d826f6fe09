-- ===== src/Inbound/Confirm/Laws.antt =====
-- What confirmReceipt guarantees on every path.
use mathlib.Core.Path.{subst}
use awmsom.Base.{
  ℕ, ◌≡◌, refl, sym, ◌∙◌, ap, Bool, true, false, Option, none, some, List, [], ◌∷◌, map, ℤ, pos,
  ◌+ℤ◌, ◌≤ℤ◌, ◌==◌, ◌&&◌, leb_ℤ, +ℤ_parts, if◌then◌else◌, not, find, every, All, arith, ok, err,
  Result, Action, Option-cases, Bool-cases, ==_iff, inl, inr, raise_if, raise_if-then,
  or_raise-then, or_raise, >>=-ok, ◌>>=◌, ◌>>◌, transaction, transaction-ok, transaction-err,
  not_found, bad_request, inbound_receipt_not_found, receipt_not_confirmable, receipt_without_lines,
  destination_not_found, destination_in_other_warehouse, no_receipt_lines_given,
  duplicate_receipt_lines, nothing_to_process, movement_without_lines,
}
use awmsom.Prisma.{
  Prisma, IsClient, Distinct, find_by_id, find_by_id_lem, find_many-found, every-found,
  failing-found,
}
use awmsom.Schema.{Db, TenantConfig, Location, InboundReceipt, InboundReceiptLine, is_confirmable}
use awmsom.Inventory.Stock.{IsNonneg, KeepsOthers}
use awmsom.Inventory.CycleCount.Tasks.{get_tenant_config, default_config}
use awmsom.Inbound.Tables.{is_received, tenant_lines_of_receipt}
use awmsom.Inbound.Confirm.{
  ConfirmInput, ReceivedLine, Arrival, conclude_receipt, confirm_receipt_body, confirm_receipt,
  is_empty, repeats, given_repeats, given_empty, line_payloads, receive_lines,
}
use awmsom.Inbound.Confirm.Loop.{
  arrived, stock_total, received_total, IsReceivedWithin, HasNoTolerance, Received, ids_of,
  receive_lines-Received,
}
use awmsom.Inbound.Confirm.End.{
  Concludes, concluded, IsOpen, is_confirmable-IsOpen, logged_total, conclude_receipt-ok,
  get_tenant_config-frame,
}

below : (a b : ℤ) → leb_ℤ a b ≡ false → b +ℤ pos 1 ≤ℤ a
below a b h = let e = +ℤ_parts b (pos 1) in ground (arith, h, e)

module _ (db : Prisma) (c : IsClient db) where
  pub find_lem :
      (P : ℕ × InboundReceiptLine → Type 0) (k : ℕ) (lines : List (ℕ × InboundReceiptLine))
      → All P lines
      → (x : ℕ × InboundReceiptLine) → find (λ x. x.0 == k) lines ≡ some x
      → (x.0 ≡ k) × P x
  find_lem P k [] h x e = cc
  find_lem P k (y ∷ lines) (p, h) x e = elim (Bool-cases (y.0 == k)) [
    | inl hit ↦
        let same : y ≡ x = ground (arith, e, hit) in
        subst (λ z. (z.0 ≡ k) × P z) same ((==_iff y.0 k).0 hit, p)
    | inr miss ↦ find_lem P k lines h x (ground (arith, e, miss))
  ]

  pub ids_of-payloads :
      (lines : List (ℕ × InboundReceiptLine))
      → ids_of db c (line_payloads none lines) ≡ map (λ x. x.0) lines
  ids_of-payloads [] = refl
  ids_of-payloads (x ∷ lines) = ap (λ l. x.0 ∷ l) (ids_of-payloads lines)

  pub payloads-once :
      (o : Option (List ReceivedLine)) (lines : List (ℕ × InboundReceiptLine))
      → Distinct lines
      → given_repeats o ≡ false
      → repeats (line_payloads o lines) ≡ false
  payloads-once (some ls) lines d h = h
  payloads-once none [] d h = refl
  payloads-once none ((i, x) ∷ lines) (out, d) h =
      rw (ids_of-payloads lines, out) (payloads-once none lines d h)

  -- A confirmation that succeeded: what arrived, `d`, of a receipt of the tenant.
  pub record Confirmed (tenant now id : ℕ) (all : Bool) (s s' : Db db) : Type 0 where
    pub receipt : InboundReceipt
    pub d : ℤ
    pub was : db.get s.inbound_receipts id ≡ some receipt
    pub owner : receipt.tenant_id ≡ tenant
    pub open_before : IsOpen receipt.status
    pub positive : pos 1 ≤ℤ d
    pub stock : stock_total db s' ≡ stock_total db s +ℤ d
    pub booked : received_total db s' ≡ received_total db s +ℤ d
    pub logged : logged_total db s' ≡ logged_total db s +ℤ d
    pub receipts :
        (j : ℕ)
        → db.get s'.inbound_receipts j
          ≡ (if id == j then some (concluded now all receipt) else db.get s.inbound_receipts j)
    pub complete :
        all ≡ true
        → (k : ℕ) (l : InboundReceiptLine) → db.get s'.inbound_receipt_lines k ≡ some l
        → l.inbound_receipt_id ≡ id
        → l.tenant_id ≡ tenant
        → l.expected_qty ≤ℤ l.received_qty
    pub short :
        all ≡ false
        → (k : ℕ) × (l : InboundReceiptLine) × (db.get s'.inbound_receipt_lines k ≡ some l)
          × (l.inbound_receipt_id ≡ id)
          × (l.tenant_id ≡ tenant)
          × (l.received_qty +ℤ pos 1 ≤ℤ l.expected_qty)
    pub others : KeepsOthers db tenant s.inventory s'.inventory
    pub nonneg : IsNonneg db s.inventory → IsNonneg db s'.inventory
    pub within :
        HasNoTolerance db s.inventory_policies
        → IsReceivedWithin db s.inbound_receipt_lines
        → IsReceivedWithin db s'.inbound_receipt_lines

  lines_complete :
      (tenant id : ℕ) (s : Db db)
      → every (λ x. is_received x.1) (tenant_lines_of_receipt db tenant id s) ≡ true
      → (k : ℕ) (l : InboundReceiptLine) → db.get s.inbound_receipt_lines k ≡ some l
      → l.inbound_receipt_id ≡ id
      → l.tenant_id ≡ tenant
      → l.expected_qty ≤ℤ l.received_qty
  lines_complete tenant id s h k l g r t =
      let read =
        every-found db s.inbound_receipt_lines is_received c
          (λ i r. r.inbound_receipt_id == id && r.tenant_id == tenant) (λ a b. false) h k l g
          (ground (arith, r, t)) in
      ground (arith, read)

  lines_short :
      (tenant id : ℕ) (s : Db db)
      → every (λ x. is_received x.1) (tenant_lines_of_receipt db tenant id s) ≡ false
      → (k : ℕ) × (l : InboundReceiptLine) × (db.get s.inbound_receipt_lines k ≡ some l)
        × (l.inbound_receipt_id ≡ id)
        × (l.tenant_id ≡ tenant)
        × (l.received_qty +ℤ pos 1 ≤ℤ l.expected_qty)
  lines_short tenant id s h =
      let (k, l, g, p, q) =
        failing-found db s.inbound_receipt_lines is_received c
          (λ i r. r.inbound_receipt_id == id && r.tenant_id == tenant) (λ a b. false) h in
      (k, l, g, ground (arith, p), ground (arith, p), below l.expected_qty l.received_qty q)

  -- The loop and the end together.
  pub Received-Concludes :
      (tenant now id : ℕ) (receipt : InboundReceipt) (ids : List ℕ) (d : ℤ) (all : Bool)
      (s s₁ s' : Db db)
      → db.get s.inbound_receipts id ≡ some receipt
      → receipt.tenant_id ≡ tenant
      → is_confirmable receipt.status ≡ true
      → pos 1 ≤ℤ d
      → Received db tenant ids d s s₁
      → Concludes db c tenant now id receipt d all s₁ s'
      → Confirmed tenant now id all s s'
  Received-Concludes tenant now id receipt ids d all s s₁ s' was owner opened low m e = record {
    receipt = receipt;
    d = d;
    was = was;
    owner = owner;
    open_before = is_confirmable-IsOpen receipt.status opened;
    positive = low;
    stock = rw e.stock m.stock;
    booked = rw e.lines m.booked;
    logged = e.logged ∙ ap (λ x. logged_total db x +ℤ d) m.frame;
    receipts = λ j.
        e.receipts j
        ∙ ap
            (λ x. if id == j then some (concluded now all receipt) else db.get x.inbound_receipts j)
            m.frame;
    complete =
        λ yes k l g r t. lines_complete tenant id s₁ (sym e.status ∙ yes) k l (rw e.lines at g) r t;
    short = λ no. rw e.lines (lines_short tenant id s₁ (sym e.status ∙ no));
    others = rw e.stock m.others;
    nonneg = λ n. rw e.stock (m.nonneg n);
    within = λ t h. rw e.lines (m.within t h);
  }

  -- A body that succeeds has passed its checks, and ran the loop and the end.
  confirm_receipt_body-passes :
      (tenant now id : ℕ) (strict : Bool) (dto : ConfirmInput) (s s' : Db db) (all : Bool)
      → confirm_receipt_body db strict tenant now id dto s ≡ (ok all, s')
      → (r : ℕ × InboundReceipt) × (l : ℕ × Location) × (xs : List Arrival) × (s₁ : Db db)
        × (find_by_id db id (λ r. r.tenant_id == tenant) s.inbound_receipts ≡ some r)
        × (not (is_confirmable r.1.status) ≡ false)
        × (given_repeats dto.lines ≡ false)
        × (is_empty (line_payloads dto.lines (tenant_lines_of_receipt db tenant r.0 s)) ≡ false)
        × (receive_lines db strict tenant now r.1.warehouse_id l.0
              (tenant_lines_of_receipt db tenant r.0 s)
              (line_payloads dto.lines (tenant_lines_of_receipt db tenant r.0 s))
              s
            ≡ (ok xs, s₁))
        × (conclude_receipt db strict tenant now r.0 r.1 xs s₁ ≡ (ok all, s'))
  unfolding confirm_receipt_body
  confirm_receipt_body-passes tenant now id strict dto s s' all h =
      let conclude = λ (r : ℕ × InboundReceipt) (xs : List Arrival).
        raise_if (is_empty xs) (bad_request movement_without_lines)
        >> conclude_receipt db strict tenant now r.0 r.1 xs in
      let loop = λ (r : ℕ × InboundReceipt) (ls : List (ℕ × InboundReceiptLine)) (l : ℕ × Location).
        receive_lines db strict tenant now r.1.warehouse_id l.0 ls (line_payloads dto.lines ls)
        >>= conclude r in
      let to_process =
        λ (r : ℕ × InboundReceipt) (ls : List (ℕ × InboundReceiptLine)) (l : ℕ × Location).
          raise_if (is_empty (line_payloads dto.lines ls)) (bad_request nothing_to_process)
          >> loop r ls l in
      let once = λ (r : ℕ × InboundReceipt) (ls : List (ℕ × InboundReceiptLine)) (l : ℕ × Location).
        raise_if (given_repeats dto.lines) (bad_request duplicate_receipt_lines)
        >> to_process r ls l in
      let given =
        λ (r : ℕ × InboundReceipt) (ls : List (ℕ × InboundReceiptLine)) (l : ℕ × Location).
          raise_if (given_empty dto.lines) (bad_request no_receipt_lines_given) >> once r ls l in
      let there =
        λ (r : ℕ × InboundReceipt) (ls : List (ℕ × InboundReceiptLine)) (l : ℕ × Location).
          raise_if (not (l.1.warehouse_id == r.1.warehouse_id))
            (bad_request destination_in_other_warehouse)
          >> given r ls l in
      let destination : Db db → Option (ℕ × Location) =
        λ x. find_by_id db dto.to_location_id (λ r. r.tenant_id == tenant) x.locations in
      let locate : ℕ × InboundReceipt → List (ℕ × InboundReceiptLine) → Action (Db db) Bool =
        λ r ls x. (or_raise (destination x) (not_found destination_not_found) >>= there r ls) x in
      let filled = λ (r : ℕ × InboundReceipt) (ls : List (ℕ × InboundReceiptLine)).
        raise_if (is_empty ls) (bad_request receipt_without_lines) >> locate r ls in
      let opened : ℕ × InboundReceipt → Action (Db db) Bool = λ r x.
        (raise_if (not (is_confirmable r.1.status)) (bad_request receipt_not_confirmable)
            >> filled r (tenant_lines_of_receipt db tenant r.0 x))
          x in
      let row = find_by_id db id (λ r. r.tenant_id == tenant) s.inbound_receipts in
      let (r, found, h₁) =
        or_raise-then row (not_found inbound_receipt_not_found) opened s s' all h in
      let ls = tenant_lines_of_receipt db tenant r.0 s in
      let (open_before, h₂) =
        raise_if-then (not (is_confirmable r.1.status)) (bad_request receipt_not_confirmable)
          (filled r ls) s s' all h₁ in
      let (_, h₃) =
        raise_if-then (is_empty ls) (bad_request receipt_without_lines) (locate r ls) s s' all h₂ in
      let (l, _, h₄) =
        or_raise-then (destination s) (not_found destination_not_found) (there r ls) s s' all h₃ in
      let (_, h₅) =
        raise_if-then (not (l.1.warehouse_id == r.1.warehouse_id))
          (bad_request destination_in_other_warehouse) (given r ls l) s s' all h₄ in
      let (_, h₆) =
        raise_if-then (given_empty dto.lines) (bad_request no_receipt_lines_given) (once r ls l) s
          s' all h₅ in
      let (single, h₇) =
        raise_if-then (given_repeats dto.lines) (bad_request duplicate_receipt_lines)
          (to_process r ls l) s s' all h₆ in
      let (some_payloads, h₈) =
        raise_if-then (is_empty (line_payloads dto.lines ls)) (bad_request nothing_to_process)
          (loop r ls l) s s' all h₇ in
      let (xs, s₁, run, h₉) =
        >>=-ok
          (receive_lines db strict tenant now r.1.warehouse_id l.0 ls (line_payloads dto.lines ls))
          (conclude r) s s' all h₈ in
      let (_, close) =
        raise_if-then (is_empty xs) (bad_request movement_without_lines)
          (conclude_receipt db strict tenant now r.0 r.1 xs) s₁ s' all h₉ in
      (r, l, xs, s₁, found, open_before, single, some_payloads, run, close)

  confirm_receipt_body-ok :
      (tenant now id : ℕ) (strict : Bool) (dto : ConfirmInput) (s s' : Db db) (all : Bool)
      → confirm_receipt_body db strict tenant now id dto s ≡ (ok all, s')
      → Confirmed tenant now id all s s'
  confirm_receipt_body-ok tenant now id strict dto s s' all h =
      let ((i, receipt), l, xs, s₁, found, opened, single, some_payloads, run, close) =
        confirm_receipt_body-passes tenant now id strict dto s s' all h in
      let (same, was, owner) =
        find_by_id_lem db c id (λ r. r.tenant_id == tenant) s.inbound_receipts i receipt found in
      let ls = tenant_lines_of_receipt db tenant i s in
      let (m, low) =
        receive_lines-Received db c tenant now receipt.warehouse_id l.0 strict ls
          (line_payloads dto.lines ls) xs s s₁ run
          (payloads-once dto.lines ls (c.many_distinct _ _ s.inbound_receipt_lines) single)
          (λ k inside x e.
            find_lem (λ x. db.get s.inbound_receipt_lines x.0 ≡ some x.1) k ls
              (find_many-found db c _ _ s.inbound_receipt_lines) x e) in
      let was₁ : db.get s₁.inbound_receipts id ≡ some receipt =
        ap (λ x. db.get x.inbound_receipts id) m.frame ∙ was in
      Received-Concludes tenant now id receipt (ids_of db c (line_payloads dto.lines ls))
        (arrived xs) all s s₁ s' was ((==_iff _ _).0 owner) (ground (arith, opened))
        (low some_payloads) m
        (conclude_receipt-ok db c tenant now id strict receipt xs s₁ s' all
          (subst (λ j. conclude_receipt db strict tenant now j receipt xs s₁ ≡ (ok all, s')) same
            close)
          was₁)

  -- The configuration row that may be new is no part of the outcome.
  any_config :
      (tenant now id : ℕ) (all : Bool) (t : db.Table TenantConfig) (s s' : Db db)
      → Confirmed tenant now id all (record s { tenant_configs = t }) s'
      → Confirmed tenant now id all s s'
  any_config tenant now id all t s s' m = record {
    receipt = m.receipt;
    d = m.d;
    was = m.was;
    owner = m.owner;
    open_before = m.open_before;
    positive = m.positive;
    stock = m.stock;
    booked = m.booked;
    logged = m.logged;
    receipts = m.receipts;
    complete = m.complete;
    short = m.short;
    others = m.others;
    nonneg = m.nonneg;
    within = m.within;
  }

  -- After a failure no table has changed but that of the configurations.
  abbrev pub ConfirmOutcome : ℕ → ℕ → ℕ → Db db → Result Bool × Db db → Type 0
  ConfirmOutcome tenant now id s (err e, s') = s' ≡ record s { tenant_configs = s'.tenant_configs }
  ConfirmOutcome tenant now id s (ok all, s') = Confirmed tenant now id all s s'

  get_tenant_config-ok :
      (tenant : ℕ) (s : Db db)
      → (config : TenantConfig) × (get_tenant_config db tenant s
          ≡ (ok config, (get_tenant_config db tenant s).1))
  unfolding get_tenant_config
  get_tenant_config-ok tenant s =
      elim (Option-cases (db.find_first (λ i r. r.tenant_id == tenant) s.tenant_configs)) [
        | inl e ↦ (default_config tenant, ground (arith, e))
        | inr (x, e) ↦ (x.1, ground (arith, e))
      ]

  confirm_receipt-body :
      (tenant now id : ℕ) (strict : Bool) (dto : ConfirmInput) (s : Db db)
      → confirm_receipt db strict tenant now id dto s
        ≡ transaction
            (confirm_receipt_body db strict tenant now id dto)
            (get_tenant_config db tenant s).1
  unfolding confirm_receipt
  confirm_receipt-body tenant now id strict dto s = rw (get_tenant_config-ok tenant s).1 refl

  -- A confirmation that fails leaves every table as it was, but for the tenant's configuration, which
  -- is created where it was missing. One that succeeds was of a receipt of the tenant that was a
  -- draft or partially received. What has arrived is a positive quantity: the stock, the received
  -- quantities of the receipt lines and the logged movements have each grown by it in all. The
  -- receipt is received if each of its lines has at least what was expected, else partially received,
  -- and no other receipt has changed; the stock of other tenants is as it was; stock that was
  -- nowhere negative is nowhere negative; and where no policy allows more than was expected, lines
  -- that had received no more still have not.
  pub confirm_receipt-Confirmed :
      (tenant now id : ℕ) (strict : Bool) (dto : ConfirmInput) (s : Db db)
      → ConfirmOutcome tenant now id s (confirm_receipt db strict tenant now id dto s)
  confirm_receipt-Confirmed tenant now id strict dto s =
      rw (confirm_receipt-body tenant now id strict dto s) (go (transaction body s₁) refl)
    where
      s₁ : Db db
      s₁ = (get_tenant_config db tenant s).1

      body : Action (Db db) Bool
      body = confirm_receipt_body db strict tenant now id dto

      go : (x : Result Bool × Db db) → transaction body s₁ ≡ x → ConfirmOutcome tenant now id s x
      go (err e, s') h =
          subst (λ y. y ≡ record s { tenant_configs = y.tenant_configs })
            (sym (transaction-err body s₁ s' e h)) (get_tenant_config-frame db tenant s)
      go (ok all, s') h = any_config tenant now id all s₁.tenant_configs s s' (
          subst (λ y. Confirmed tenant now id all y s') (get_tenant_config-frame db tenant s)
            (confirm_receipt_body-ok tenant now id strict dto s₁ s' all
              (transaction-ok body s₁ s' all h)))
