-- ===== src/Inbound/Confirm/Loop.antt =====
-- The loop of confirmReceipt over the lines that arrive.
use mathlib.Core.Path.{subst}
use awmsom.Base.{
  ℕ, ◌+◌, ◌*◌, pos_part, neg_part, ◌≡◌, refl, sym, ◌∙◌, ap, Bool, true, false, none, some, List, [],
  ◌∷◌, map, ℤ, pos, negsuc, ltb_ℤ, ◌+ℤ◌, ◌≤ℤ◌, ◌*ℤ◌, ◌==◌, find, includes, All, arith, int_laws,
  +ℤ_zero, ok, >>=-ok, pure, ◌>>=◌, Action,
}
use awmsom.Prisma.{Prisma, IsClient, find_many-found}
use awmsom.Schema.{Db, Inventory, InboundReceiptLine, InventoryPolicy}
use awmsom.Inventory.Stock.{IsNonneg, KeepsOthers, KeepsOthers-refl, KeepsOthers-trans}
use awmsom.Inventory.Increase.{IncreaseParams, increase_stock}
use awmsom.Inventory.Increase.Laws.{Increased, increase_stock-Increased, increase_stock-Frames}
use awmsom.Inventory.Safety.{Increased-IsNonneg, Increased-KeepsOthers}
use awmsom.Inbound.Policy.{
  max_over_pct, exceeds, whole, first_policy, policy_first, applies, resolve_inventory_policy,
}
use awmsom.Inbound.Confirm.{
  ReceivedLine, Arrival, receive_qty, arrival_params, received_line, receive_line, receive_lines,
  repeats, is_empty,
}
use awmsom.Inbound.Confirm.Line.{receive_line-ok, receive_checks-ok, receive_writes-ok}

-- The quantities of the arrivals, summed up.
abbrev pub arrived : List Arrival → ℤ
arrived [] = pos 0
arrived (x ∷ xs) = x.quantity +ℤ arrived xs

module _ (db : Prisma) where
  abbrev pub stock_total : Db db → ℤ
  stock_total s = db.sum (λ i r. r.quantity) s.inventory

  abbrev pub received_total : Db db → ℤ
  received_total s = db.sum (λ i l. l.received_qty) s.inbound_receipt_lines

  -- No line has received more than was expected.
  abbrev pub IsReceivedWithin : db.Table InboundReceiptLine → Type 0
  IsReceivedWithin t =
      (i : ℕ) (l : InboundReceiptLine) → db.get t i ≡ some l → l.received_qty ≤ℤ l.expected_qty

  -- No policy allows more than was expected.
  abbrev pub HasNoTolerance : db.Table InventoryPolicy → Type 0
  HasNoTolerance t =
      (i : ℕ) (p : InventoryPolicy) → db.get t i ≡ some p → p.max_over_receipt_pct ≡ none

  -- From `s` to `s'` the quantity `d` has arrived: in the stock and on the lines `ids`.
  pub record Received (tenant : ℕ) (ids : List ℕ) (d : ℤ) (s s' : Db db) : Type 0 where
    pub stock : stock_total s' ≡ stock_total s +ℤ d
    pub booked : received_total s' ≡ received_total s +ℤ d
    pub lower : pos 0 ≤ℤ d
    pub nonneg : IsNonneg db s.inventory → IsNonneg db s'.inventory
    pub others : KeepsOthers db tenant s.inventory s'.inventory
    pub keeps :
        (k : ℕ) (l : InboundReceiptLine)
        → includes ids k ≡ false
        → db.get s.inbound_receipt_lines k ≡ some l
        → db.get s'.inbound_receipt_lines k ≡ some l
    pub within :
        HasNoTolerance s.inventory_policies
        → IsReceivedWithin s.inbound_receipt_lines
        → IsReceivedWithin s'.inbound_receipt_lines
    pub frame : s' ≡ record s {
      batches = s'.batches;
      inbound_receipt_lines = s'.inbound_receipt_lines;
      inventory = s'.inventory;
    }

  Received-refl : (tenant : ℕ) (s : Db db) → Received tenant [] (pos 0) s s
  Received-refl tenant s = record {
    stock = sym (+ℤ_zero _);
    booked = sym (+ℤ_zero _);
    lower = ground arith;
    nonneg = λ n. n;
    others = KeepsOthers-refl db tenant s.inventory;
    keeps = λ k l out g. g;
    within = λ t h. h;
    frame = refl;
  }

  added : (a b c d e : ℤ) → b ≡ a +ℤ d → c ≡ b +ℤ e → c ≡ a +ℤ (d +ℤ e)
  added a b c d e h k = grind int_laws

  both_nonneg : (a b : ℤ) → pos 0 ≤ℤ a → pos 0 ≤ℤ b → pos 0 ≤ℤ a +ℤ b
  both_nonneg a b h k = grind int_laws

  Received-trans :
      {tenant i : ℕ} {ids : List ℕ} {d e : ℤ} {s s₁ s₂ : Db db}
      → Received tenant (i ∷ []) d s s₁
      → Received tenant ids e s₁ s₂
      → Received tenant (i ∷ ids) (d +ℤ e) s s₂
  Received-trans {s = s} {s₁ = s₁} {s₂ = s₂} m n = record {
    stock = added _ _ _ _ _ m.stock n.stock;
    booked = added _ _ _ _ _ m.booked n.booked;
    lower = both_nonneg _ _ m.lower n.lower;
    nonneg = λ h. n.nonneg (m.nonneg h);
    others = KeepsOthers-trans db m.others n.others;
    keeps = λ k l out g. n.keeps k l (ground arith) (m.keeps k l (ground arith) g);
    within = λ t h.
        n.within (subst (HasNoTolerance) (sym (ap (λ x. x.inventory_policies) m.frame)) t)
          (m.within t h);
    frame = ground (arith, m.frame, n.frame);
  }

  no_policy_over :
      IsClient db
      → (tenant warehouse product : ℕ) (s : Db db) → HasNoTolerance s.inventory_policies
      → max_over_pct (resolve_inventory_policy db tenant warehouse product s) ≡ pos 0
  unfolding resolve_inventory_policy
  no_policy_over c tenant warehouse product s t = go _ (
      find_many-found db c (λ i r. applies tenant warehouse product r) policy_first
        s.inventory_policies)
    where
      go :
          (rows : List (ℕ × InventoryPolicy))
          → All (λ x. db.get s.inventory_policies x.0 ≡ some x.1) rows
          → max_over_pct (first_policy rows) ≡ pos 0
      go [] h = refl
      go ((i, p) ∷ rows) (g, h) = rw (t i p g) refl

*ℤ_zero : (a : ℤ) → a *ℤ pos 0 ≡ pos 0
*ℤ_zero (pos n) = ground arith
*ℤ_zero (negsuc n) = ground arith

*ℤ_whole :
    (a : ℤ)
    → pos_part (a *ℤ pos whole) + neg_part a * 1000000
      ≡ neg_part (a *ℤ pos whole) + pos_part a * 1000000
*ℤ_whole (pos n) = ground arith
*ℤ_whole (negsuc n) = ground arith

not_above : (a b : ℤ) → ltb_ℤ (a +ℤ pos 0) b ≡ false → b ≤ℤ a
not_above a b h = let k : b ≤ℤ a +ℤ pos 0 = ground arith in grind (int_laws, k)

unscaled : (a b : ℤ) → a *ℤ pos whole ≤ℤ b *ℤ pos whole → a ≤ℤ b
unscaled a b h = omega (arith, *ℤ_whole a, *ℤ_whole b)

not_exceeding :
    (expected total pct : ℤ) → exceeds expected total pct ≡ false → pct ≡ pos 0 → total ≤ℤ expected
not_exceeding expected total pct h e =
    unscaled total expected (not_above _ _ (rw (e, *ℤ_zero expected) at h))

grown : (new old a q : ℤ) → new +ℤ a ≡ old +ℤ (a +ℤ q) → new ≡ old +ℤ q
grown new old a q h = grind int_laws

one_more : (a b : ℤ) → pos 1 ≤ℤ a → pos 0 ≤ℤ b → pos 1 ≤ℤ a +ℤ b
one_more a b h k = grind int_laws

positive : (q : ℤ) → pos 1 ≤ℤ q → pos 0 ≤ℤ q
positive q h = omega arith

module _ (db : Prisma) (c : IsClient db) where
  pub written-IsReceivedWithin :
      (i : ℕ) (line x : InboundReceiptLine) (t : db.Table InboundReceiptLine)
      → db.get t i ≡ some line
      → x.received_qty ≤ℤ x.expected_qty
      → IsReceivedWithin db t
      → IsReceivedWithin db (db.write i x t)
  written-IsReceivedWithin i line x t g most h j l k =
      ground (arith, c.get-write i x line t j g, h j l)

  -- The tables after a line is written as `x` and the stock has grown.
  pub arrived-Received :
      (tenant now i : ℕ) (line x : InboundReceiptLine) (q : ℤ) (p : IncreaseParams)
      (r : ℕ × Inventory) (s s₁ s' : Db db)
      → db.get s.inbound_receipt_lines i ≡ some line
      → x.received_qty ≡ line.received_qty +ℤ q
      → (max_over_pct (resolve_inventory_policy db tenant p.warehouse_id line.product_id s) ≡ pos 0
          → x.received_qty ≤ℤ x.expected_qty)
      → s₁ ≡ record s {
        batches = s₁.batches;
        inbound_receipt_lines = db.write i x s.inbound_receipt_lines;
      }
      → increase_stock db tenant now p s₁ ≡ (ok r, s')
      → p.quantity ≡ q
      → Received db tenant (i ∷ []) q s s'
  arrived-Received tenant now i line x q p r s s₁ s' g hx most e run same =
      let outcome =
        subst (Increased db tenant p s₁) run (increase_stock-Increased db c tenant now p s₁) in
      let frame : s' ≡ record s₁ { inventory = s'.inventory } =
        subst (λ y. y.1 ≡ record s₁ { inventory = y.1.inventory }) run
          (increase_stock-Frames db c tenant now p s₁) in
      let stock : s₁.inventory ≡ s.inventory = ap (λ y. y.inventory) e in
      let lines : s'.inbound_receipt_lines ≡ db.write i x s.inbound_receipt_lines =
        ap (λ y. y.inbound_receipt_lines) frame ∙ ap (λ y. y.inbound_receipt_lines) e in
      record {
        stock =
            subst (λ t. stock_total db s' ≡ db.sum (λ j x. x.quantity) t +ℤ q) stock
              (subst (λ d. stock_total db s' ≡ stock_total db s₁ +ℤ d) same outcome.5);
        booked = rw lines (
            grown _ _ line.received_qty q (
              subst
                (λ d.
                  db.sum (λ j l. l.received_qty) (db.write i x s.inbound_receipt_lines)
                    +ℤ line.received_qty
                  ≡ received_total db s +ℤ d)
                hx (c.sum-write (λ j l. l.received_qty) i x line s.inbound_receipt_lines g)));
        lower = positive q (subst (λ d. pos 1 ≤ℤ d) same outcome.0);
        nonneg = λ n.
            Increased-IsNonneg db tenant p s₁ (ok r, s') outcome
              (subst (IsNonneg db) (sym stock) n);
        others =
            subst (λ t. KeepsOthers db tenant t s'.inventory) stock
              (Increased-KeepsOthers db tenant p s₁ (ok r, s') outcome);
        keeps = λ k l out h.
            rw lines (ground (arith, c.get-write i x line s.inbound_receipt_lines k g));
        within = λ t h. rw lines (
            written-IsReceivedWithin i line x s.inbound_receipt_lines g
              (most (no_policy_over db c tenant p.warehouse_id line.product_id s t)) h);
        frame = ground (arith, frame, e);
      }

  receive_line-Received :
      (tenant now warehouse location : ℕ) (strict : Bool) (lines : List (ℕ × InboundReceiptLine))
      (payload : ReceivedLine) (s s' : Db db) (a : Arrival)
      → receive_line db strict tenant now warehouse location lines payload s ≡ (ok a, s')
      → ((x : ℕ × InboundReceiptLine)
          → find (λ x. x.0 == payload.line_id) lines ≡ some x
          → (x.0 ≡ payload.line_id) × (db.get s.inbound_receipt_lines x.0 ≡ some x.1))
      → Received db tenant (payload.line_id ∷ []) a.quantity s s' × (pos 1 ≤ℤ a.quantity)
  receive_line-Received tenant now warehouse location strict lines payload s s' a h there =
      let ((i, line), code, expiry, found, checks, writes) =
        receive_line-ok db strict tenant now warehouse location lines payload s s' a h in
      let (same, g) = there (i, line) found in
      let q = receive_qty payload line in
      let (_, low, over) =
        receive_checks-ok db strict tenant warehouse line q code expiry s s checks in
      let (batch, s₁, r, e, run, quantity) =
        receive_writes-ok db strict tenant now warehouse location i line q code expiry s s' a writes
          g in
      let m =
        arrived-Received tenant now i line (received_line line q code expiry batch) q
          (arrival_params warehouse location line batch q) r s s₁ s' g refl
          (not_exceeding line.expected_qty (line.received_qty +ℤ q) _ over) e run refl in
      (
        subst (λ j. Received db tenant (j ∷ []) a.quantity s s') same
            (subst (λ d. Received db tenant (i ∷ []) d s s') (sym quantity) m),
        rw quantity (ground (arith, low)),
      )

  -- The lines of the payloads `ids` are as they were read.
  abbrev pub AsRead : List (ℕ × InboundReceiptLine) → List ℕ → Db db → Type 0
  AsRead lines ids s =
      (k : ℕ)
      → includes ids k ≡ true
      → (x : ℕ × InboundReceiptLine) → find (λ x. x.0 == k) lines ≡ some x
      → (x.0 ≡ k) × (db.get s.inbound_receipt_lines x.0 ≡ some x.1)

  abbrev pub ids_of : List ReceivedLine → List ℕ
  ids_of ps = map (λ p. p.line_id) ps

  rest-AsRead :
      (tenant i : ℕ) (ids : List ℕ) (lines : List (ℕ × InboundReceiptLine)) (d : ℤ) (s s₁ : Db db)
      → includes ids i ≡ false
      → Received db tenant (i ∷ []) d s s₁
      → AsRead lines (i ∷ ids) s
      → AsRead lines ids s₁
  rest-AsRead tenant i ids lines d s s₁ out m h k inside (j, l) found =
      let (e, g) = h k (ground arith) (j, l) found in
      (e, m.keeps j l (ground (arith, e, inside, out)) g)

  receive_lines-cons :
      (tenant now warehouse location : ℕ) (strict : Bool) (lines : List (ℕ × InboundReceiptLine))
      (p : ReceivedLine) (ps : List ReceivedLine) (xs : List Arrival) (s s' : Db db)
      → receive_lines db strict tenant now warehouse location lines (p ∷ ps) s ≡ (ok xs, s')
      → (y : Arrival) × (ys : List Arrival) × (s₁ : Db db) × (receive_line db strict tenant now
            warehouse location lines p s
          ≡ (ok y, s₁))
        × (receive_lines db strict tenant now warehouse location lines ps s₁ ≡ (ok ys, s'))
        × (xs ≡ y ∷ ys)
  unfolding receive_lines
  receive_lines-cons tenant now warehouse location strict lines p ps xs s s' h =
      let loop : Action (Db db) (List Arrival) =
        receive_lines db strict tenant now warehouse location lines ps in
      let add : Arrival → List Arrival → Action (Db db) (List Arrival) = λ y ys. pure (y ∷ ys) in
      let (y, s₁, h₁, k₁) =
        >>=-ok (receive_line db strict tenant now warehouse location lines p) (λ y. loop >>= add y)
          s s' xs h in
      let (ys, s₂, h₂, k₂) = >>=-ok loop (add y) s₁ s' xs k₁ in
      (y, ys, s₁, h₁, ground (arith, h₂, k₂), ground (arith, k₂))

  receive_lines-nil :
      (tenant now warehouse location : ℕ) (strict : Bool) (lines : List (ℕ × InboundReceiptLine))
      (s : Db db)
      → receive_lines db strict tenant now warehouse location lines [] s ≡ (ok [], s)
  unfolding receive_lines
  receive_lines-nil tenant now warehouse location strict lines s = refl

  pub receive_lines-Received :
      (tenant now warehouse location : ℕ) (strict : Bool) (lines : List (ℕ × InboundReceiptLine))
      (ps : List ReceivedLine) (xs : List Arrival) (s s' : Db db)
      → receive_lines db strict tenant now warehouse location lines ps s ≡ (ok xs, s')
      → repeats ps ≡ false
      → AsRead lines (ids_of ps) s
      → Received db tenant (ids_of ps) (arrived xs) s s'
        × (is_empty ps ≡ false → pos 1 ≤ℤ arrived xs)
  receive_lines-Received tenant now warehouse location strict lines [] xs s s' h once there =
      let e = sym (receive_lines-nil tenant now warehouse location strict lines s) ∙ h in
      let none_left : xs ≡ [] = ground (arith, e) in
      rw (none_left, sym (ap (λ x. x.1) e)) (Received-refl db tenant s, λ k. cc)
  receive_lines-Received tenant now warehouse location strict lines (p ∷ ps) xs s s' h once there =
      let (y, ys, s₁, first, rest, e) =
        receive_lines-cons tenant now warehouse location strict lines p ps xs s s' h in
      let (m, low) =
        receive_line-Received tenant now warehouse location strict lines p s s₁ y first
          (there p.line_id (ground arith)) in
      let (n, _) =
        receive_lines-Received tenant now warehouse location strict lines ps ys s₁ s' rest
          (ground (arith, once))
          (rest-AsRead tenant p.line_id (ids_of ps) lines y.quantity s s₁ (ground (arith, once)) m
            there) in
      rw e (Received-trans db m n, λ k. one_more y.quantity (arrived ys) low n.lower)
