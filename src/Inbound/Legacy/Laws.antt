-- ===== src/Inbound/Legacy/Laws.antt =====
-- What receiveLegacyLine guarantees on every path.
use mathlib.Core.Path.{subst}
use awmsom.Base.{
  ℕ, zero, suc, ◌≡◌, refl, ◌∙◌, Bool, false, Option, none, some, List, pos, leb_ℤ, ◌==◌, ◌&&◌, ◌||◌,
  find, arith, ok, err, Result, Action, pure, ◌>>=◌, ◌>>◌, >>=-ok, or_raise, or_raise-then,
  raise_if, raise_if-then, transaction, transaction-ok, transaction-Atomic, ==_iff, not_found,
  bad_request, inbound_receipt_not_found, receipt_settled, receipt_line_not_found,
  destination_not_found, product_not_found, received_not_positive, batch_required,
}
use awmsom.Prisma.{Prisma, IsClient, find_by_id, find_by_id_lem, find_many-found}
use awmsom.Schema.{Db, InboundReceipt, InboundReceiptLine, Location, Product, is_settled}
use awmsom.Inbound.Tables.{is_blank, or_else, lines_of_receipt}
use awmsom.Inbound.Confirm.Laws.{find_lem}
use awmsom.Inbound.Legacy.{
  LegacyArrival, delta_qty, require_text, legacy_writes, receive_legacy_body, receive_legacy_line,
}
use awmsom.Inbound.Legacy.Writes.{Delivered, legacy_writes-Delivered}

module _ (db : Prisma) (c : IsClient db) where
  require_text-then :
      {B : Type 0} (strict : Bool) (o : Option ℕ) (f : ℕ → Action (Db db) B) (s s' : Db db) (b : B)
      → (require_text db strict o >>= f) s ≡ (ok b, s')
      → (n : ℕ) × (f n s ≡ (ok b, s'))
  require_text-then strict none f s s' b h = absurd (ground arith)
  require_text-then strict (some zero) f s s' b h = absurd (ground arith)
  require_text-then strict (some (suc n)) f s s' b h = (suc n, h)

  -- Reading the receipt again changes neither the result nor the tables.
  answered :
      (tenant id : ℕ) (m : Action (Db db) Bool) (all : Bool) (s s' : Db db)
      → (m >>= λ b y.
            (or_raise
                  (find_by_id db id (λ r. r.tenant_id == tenant) y.inbound_receipts)
                  (not_found inbound_receipt_not_found)
                >> pure b)
              y)
          s
        ≡ (ok all, s')
      → m s ≡ (ok all, s')
  answered tenant id m all s s' h =
      let again : Bool → Action (Db db) Bool = λ b y.
        (or_raise (find_by_id db id (λ r. r.tenant_id == tenant) y.inbound_receipts)
              (not_found inbound_receipt_not_found)
            >> pure b)
          y in
      let (b, s₁, run, rest) = >>=-ok m again s s' all h in
      run
      ∙ (or_raise-then (find_by_id db id (λ r. r.tenant_id == tenant) s₁.inbound_receipts)
          (not_found inbound_receipt_not_found) (λ _. pure b) s₁ s' all rest).2

  -- A body that succeeds has passed its checks, and ran the writes.
  receive_legacy_body-passes :
      (tenant now id : ℕ) (strict : Bool) (dto : LegacyArrival) (s s' : Db db) (all : Bool)
      → receive_legacy_body db strict tenant now id dto s ≡ (ok all, s')
      → (r : ℕ × InboundReceipt) × (x : ℕ × InboundReceiptLine) × (l : ℕ) × (p : Product)
        × (find_by_id db id (λ r. r.tenant_id == tenant) s.inbound_receipts ≡ some r)
        × (is_settled r.1.status ≡ false)
        × (find (λ x. x.0 == dto.line_id) (lines_of_receipt db r.0 s) ≡ some x)
        × (leb_ℤ (delta_qty x.1 dto.quantity) (pos 0) ≡ false)
        × (legacy_writes db strict tenant now r
              (lines_of_receipt db r.0 s)
              x
              l
              p
              dto.quantity
              (or_else dto.batch x.1.batch_code)
              s
            ≡ (ok all, s'))
  unfolding receive_legacy_body
  receive_legacy_body-passes tenant now id strict dto s s' all h =
      let code = λ (x : ℕ × InboundReceiptLine). or_else dto.batch x.1.batch_code in
      let again : Bool → Action (Db db) Bool = λ b y.
        (or_raise (find_by_id db id (λ r. r.tenant_id == tenant) y.inbound_receipts)
              (not_found inbound_receipt_not_found)
            >> pure b)
          y in
      let writes =
        λ (r : ℕ × InboundReceipt) (ls : List (ℕ × InboundReceiptLine)) (x : ℕ × InboundReceiptLine)
            (l : ℕ × Location) (p : ℕ × Product).
          legacy_writes db strict tenant now r ls x l.0 p.1 dto.quantity (code x) >>= again in
      let batched =
        λ (r : ℕ × InboundReceipt) (ls : List (ℕ × InboundReceiptLine)) (x : ℕ × InboundReceiptLine)
            (l : ℕ × Location) (p : ℕ × Product).
          raise_if (p.1.requires_batch && is_blank (code x)) (bad_request batch_required)
          >> writes r ls x l p in
      let positive =
        λ (r : ℕ × InboundReceipt) (ls : List (ℕ × InboundReceiptLine)) (x : ℕ × InboundReceiptLine)
            (l : ℕ × Location) (p : ℕ × Product).
          raise_if (leb_ℤ (delta_qty x.1 dto.quantity) (pos 0)) (bad_request received_not_positive)
          >> batched r ls x l p in
      let product : ℕ × InboundReceiptLine → Db db → Option (ℕ × Product) =
        λ x y. find_by_id db x.1.product_id (λ r. r.tenant_id == tenant) y.products in
      let known : ℕ × InboundReceipt
          → List (ℕ × InboundReceiptLine)
          → ℕ × InboundReceiptLine
          → ℕ × Location
          → Action (Db db) Bool =
        λ r ls x l y.
          (or_raise (product x y) (not_found product_not_found) >>= positive r ls x l) y in
      let place : ℕ × InboundReceipt → ℕ → Db db → Option (ℕ × Location) = λ r text y.
        db.find_first
          (λ i z.
            z.tenant_id == tenant
            && (z.warehouse_id == r.1.warehouse_id && (i == text || z.code == text)))
          y.locations in
      let located : ℕ × InboundReceipt
          → List (ℕ × InboundReceiptLine)
          → ℕ × InboundReceiptLine
          → ℕ
          → Action (Db db) Bool =
        λ r ls x text y.
          (or_raise (place r text y) (not_found destination_not_found) >>= known r ls x) y in
      let named =
        λ (r : ℕ × InboundReceipt) (ls : List (ℕ × InboundReceiptLine))
            (x : ℕ × InboundReceiptLine).
          require_text db strict dto.location >>= located r ls x in
      let of_receipt = λ (r : ℕ × InboundReceipt) (ls : List (ℕ × InboundReceiptLine)).
        or_raise (find (λ x. x.0 == dto.line_id) ls) (not_found receipt_line_not_found)
        >>= named r ls in
      let opened : ℕ × InboundReceipt → Action (Db db) Bool = λ r y.
        (raise_if (is_settled r.1.status) (bad_request receipt_settled)
            >> of_receipt r (lines_of_receipt db r.0 y))
          y in
      let row = find_by_id db id (λ r. r.tenant_id == tenant) s.inbound_receipts in
      let (r, found, h₁) =
        or_raise-then row (not_found inbound_receipt_not_found) opened s s' all h in
      let ls = lines_of_receipt db r.0 s in
      let (unsettled, h₂) =
        raise_if-then (is_settled r.1.status) (bad_request receipt_settled) (of_receipt r ls) s s'
          all h₁ in
      let (x, line_found, h₃) =
        or_raise-then (find (λ x. x.0 == dto.line_id) ls) (not_found receipt_line_not_found)
          (named r ls) s s' all h₂ in
      let (text, h₄) = require_text-then strict dto.location (located r ls x) s s' all h₃ in
      let (l, _, h₅) =
        or_raise-then (place r text s) (not_found destination_not_found) (known r ls x) s s' all
          h₄ in
      let (p, _, h₆) =
        or_raise-then (product x s) (not_found product_not_found) (positive r ls x l) s s' all h₅ in
      let (low, h₇) =
        raise_if-then (leb_ℤ (delta_qty x.1 dto.quantity) (pos 0))
          (bad_request received_not_positive) (batched r ls x l p) s s' all h₆ in
      let (_, h₈) =
        raise_if-then (p.1.requires_batch && is_blank (code x)) (bad_request batch_required)
          (writes r ls x l p) s s' all h₇ in
      (
        r,
        x,
        l.0,
        p.1,
        found,
        unsettled,
        line_found,
        low,
        answered tenant id (legacy_writes db strict tenant now r ls x l.0 p.1 dto.quantity (code x))
            all s s' h₈,
      )

  receive_legacy_body-ok :
      (tenant now id : ℕ) (strict : Bool) (dto : LegacyArrival) (s s' : Db db) (all : Bool)
      → receive_legacy_body db strict tenant now id dto s ≡ (ok all, s')
      → Delivered db c tenant now id dto.line_id all s s'
  receive_legacy_body-ok tenant now id strict dto s s' all h =
      let ((i, receipt), (k, line), l, p, found, unsettled, line_found, low, run) =
        receive_legacy_body-passes tenant now id strict dto s s' all h in
      let (same, was, owner) =
        find_by_id_lem db c id (λ r. r.tenant_id == tenant) s.inbound_receipts i receipt found in
      let (same_line, line_was) =
        find_lem db c (λ x. db.get s.inbound_receipt_lines x.0 ≡ some x.1) dto.line_id
          (lines_of_receipt db i s) (find_many-found db c _ _ s.inbound_receipt_lines) (k, line)
          line_found in
      let run_here : legacy_writes db strict tenant now (id, receipt) (lines_of_receipt db id s)
            (k, line) l p dto.quantity (or_else dto.batch line.batch_code) s
          ≡ (ok all, s') =
        subst
          (λ j.
            legacy_writes db strict tenant now (j, receipt) (lines_of_receipt db j s) (k, line) l p
              dto.quantity (or_else dto.batch line.batch_code) s
            ≡ (ok all, s'))
          same run in
      subst (λ j. Delivered db c tenant now id j all s s') same_line
        (legacy_writes-Delivered db c tenant now k id l strict receipt line p dto.quantity
          (or_else dto.batch line.batch_code) s s' all run_here was ((==_iff _ _).0 owner) unsettled
          line_was low)

  -- After a failure nothing has changed.
  abbrev pub DeliveryOutcome : ℕ → ℕ → ℕ → ℕ → Db db → Result Bool × Db db → Type 0
  DeliveryOutcome tenant now id line_id s (err e, s') = s' ≡ s
  DeliveryOutcome tenant now id line_id s (ok all, s') =
      Delivered db c tenant now id line_id all s s'

  pub receive_legacy_line-Delivered :
      (tenant now id : ℕ) (strict : Bool) (dto : LegacyArrival) (s : Db db)
      → DeliveryOutcome tenant now id dto.line_id s
          (receive_legacy_line db strict tenant now id dto s)
  unfolding receive_legacy_line
  receive_legacy_line-Delivered tenant now id strict dto s =
      go (transaction (receive_legacy_body db strict tenant now id dto) s) refl
    where
      go :
          (x : Result Bool × Db db)
          → transaction (receive_legacy_body db strict tenant now id dto) s ≡ x
          → DeliveryOutcome tenant now id dto.line_id s x
      go (err e, s') h =
          transaction-Atomic (receive_legacy_body db strict tenant now id dto) s s' e h
      go (ok all, s') h =
          receive_legacy_body-ok tenant now id strict dto s s' all
            (transaction-ok (receive_legacy_body db strict tenant now id dto) s s' all h)
