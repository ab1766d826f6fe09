-- ===== src/Inventory/CycleCount/Submit/Each.antt =====
-- What submitCycleCount does for each submitted line.
use awmsom.Base.{
  ℕ, ◌≡◌, ◌≢◌, refl, sym, ◌∙◌, ap, ◌⊎◌, inl, inr, true, false, none, some, Option, List, [], ◌∷◌, ℤ,
  pos, ◌-ℤ◌, -ℤ_parts, eqb_ℤ, eq_of_parts, ◌==◌, includes, All, arith, ok, >>=-ok, pure, ◌>>◌,
  for_each, Bool-cases, Option-cases,
}
use mathlib.Core.Path.{subst}
use awmsom.Prisma.{Prisma, IsClient, find_by_id, find_by_id_lem}
use awmsom.Schema.{Db, Inventory, CycleCountTask, CycleCountLine}
use awmsom.Inventory.Stock.{Writes}
use awmsom.Inventory.Adjust.{apply_inventory_adjustment}
use awmsom.Inventory.Adjust.Laws.{
  Adjusted, apply_inventory_adjustment-Adjusted, apply_inventory_adjustment-counts,
}
use awmsom.Inventory.CycleCount.Submit.{
  CountResult, Submitted, count_line, count_lines, book_line, line_adjustment,
}
use awmsom.Inventory.CycleCount.Submit.Counting.{counted, count_lines-cons}

-- What a counted line hands on.
abbrev submitted : CountResult → CycleCountLine → Submitted
submitted l r = record {
  line_id = l.line_id;
  difference_qty = l.counted_qty -ℤ r.expected_qty;
  counted_qty = l.counted_qty;
}

no_difference : (a b : ℤ) → eqb_ℤ (a -ℤ b) (pos 0) ≡ true → a ≡ b
no_difference a b h = let e = -ℤ_parts a b in eq_of_parts a b (ground (arith, h, e))

some_difference : (a b : ℤ) → eqb_ℤ (a -ℤ b) (pos 0) ≡ false → a ≢ b
some_difference a b h e = let k = -ℤ_parts a b in ground (arith, h, e, k)

module _ (db : Prisma) where
  -- Each result is of a line of the tenant in the task, which holds it in the end.
  abbrev pub IsCounted :
      ℕ → ℕ → ℕ → db.Table CycleCountLine → db.Table CycleCountLine → CountResult → Type 0
  IsCounted tenant now i t t' l =
      (r : CycleCountLine) × (db.get t l.line_id ≡ some r)
      × (r.tenant_id ≡ tenant)
      × (r.cycle_count_task_id ≡ i)
      × (db.get t' l.line_id ≡ some (counted now l r))

  -- One result is booked: what was expected changes nothing; anything else stands, in the end, in one row
  -- of the tenant, product, batch, location and unit of the line, and no other row has changed, or it is
  -- zero and nothing has changed.
  abbrev pub IsBooked : ℕ → CountResult → Db db → Db db → Type 0
  IsBooked tenant l s s' =
      (r : CycleCountLine) × (db.get s.cycle_count_lines l.line_id ≡ some r)
      × (((l.counted_qty ≡ r.expected_qty) × (s' ≡ s))
          ⊎ (((l.counted_qty ≢ r.expected_qty) × (l.counted_qty ≡ pos 0) × (s' ≡ s))
              ⊎ ((k : ℕ) × (y : Inventory) × (l.counted_qty ≢ r.expected_qty)
                  × (y.quantity ≡ l.counted_qty)
                  × (y.tenant_id ≡ tenant)
                  × (y.product_id ≡ r.product_id)
                  × (y.batch_id ≡ r.batch_id)
                  × (y.location_id ≡ r.location_id)
                  × (y.uom ≡ r.uom)
                  × Writes db k y s.inventory s'.inventory)))

  -- The results are booked one after the other.
  abbrev pub AreBooked : ℕ → List CountResult → Db db → Db db → Type 0
  AreBooked tenant [] s s' = s' ≡ s
  AreBooked tenant (l ∷ ls) s s' = (s₁ : Db db) × IsBooked tenant l s s₁ × AreBooked tenant ls s₁ s'

  -- What is submitted belongs to the results, row by row.
  abbrev pub AreSubmitted : ℕ → db.Table CycleCountLine → List CountResult → List Submitted → Type 0
  AreSubmitted tenant t [] [] = Unit
  AreSubmitted tenant t [] (x ∷ xs) = ⊥
  AreSubmitted tenant t (l ∷ ls) [] = ⊥
  AreSubmitted tenant t (l ∷ ls) (x ∷ xs) =
      ((r : CycleCountLine) × (db.get t l.line_id ≡ some r)
        × (r.tenant_id ≡ tenant)
        × (x ≡ submitted l r))
      × AreSubmitted tenant t ls xs

  -- A result that is new among those seen, and counted.
  abbrev pub Each :
      ℕ → ℕ → ℕ → List ℕ → db.Table CycleCountLine → db.Table CycleCountLine → CountResult → Type 0
  Each tenant now i seen t t' l = (includes seen l.line_id ≡ false) × IsCounted tenant now i t t' l

module _ (db : Prisma) (c : IsClient db) where
  count_line-each :
      (tenant now task : ℕ) (seen : List ℕ) (l : CountResult) (s s' : Db db) (x : Submitted)
      → count_line db tenant now task seen l s ≡ (ok x, s')
      → (r : CycleCountLine) × (db.get s.cycle_count_lines l.line_id ≡ some r)
        × (r.tenant_id ≡ tenant)
        × (r.cycle_count_task_id ≡ task)
        × (includes seen l.line_id ≡ false)
        × (x ≡ submitted l r)
        × (s' ≡ record s {
          cycle_count_lines = db.write l.line_id (counted now l r) s.cycle_count_lines;
        })
  unfolding count_line
  count_line-each tenant now task seen l s s' x h =
      elim (Option-cases
        (find_by_id db l.line_id (λ r. r.tenant_id == tenant) s.cycle_count_lines)) [
          | inl missing ↦ absurd (ground arith)
          | inr ((j, r), e) ↦
              let (same, g, t) = find_by_id_lem db c l.line_id _ _ j r e in
              (r, g, ground (arith, t), ground arith, ground arith, ground arith, ground arith)
        ]

  -- A line that was seen is left alone.
  count_lines-seen :
      (tenant now task : ℕ) (seen : List ℕ) (ls : List CountResult) (s s' : Db db)
      (xs : List Submitted) (k : ℕ)
      → count_lines db tenant now task seen ls s ≡ (ok xs, s')
      → includes seen k ≡ true
      → db.get s'.cycle_count_lines k ≡ db.get s.cycle_count_lines k
  unfolding count_lines
  count_lines-seen tenant now task seen [] s s' xs k h i =
      let e : s' ≡ s = ap (λ y. y.1) (sym h) in rw e refl
  count_lines-seen tenant now task seen (l ∷ ls) s s' xs k h i =
      let (x, s₁, ys, h₁, h₂) = count_lines-cons db c tenant now task seen l ls s s' xs h in
      let (r, g, _, _, new, _, e) = count_line-each tenant now task seen l s s₁ x h₁ in
      let kept =
        count_lines-seen tenant now task (l.line_id ∷ seen) ls s₁ s' ys k h₂ (ground (arith, i)) in
      let here : db.get s₁.cycle_count_lines k ≡ db.get s.cycle_count_lines k =
        rw e (unseen seen k (counted now l r) r l.line_id s.cycle_count_lines g new i) in
      kept ∙ here
    where
      unseen :
          (seen : List ℕ) (k : ℕ) (new old : CycleCountLine) (i : ℕ) (t : db.Table CycleCountLine)
          → db.get t i ≡ some old
          → includes seen i ≡ false
          → includes seen k ≡ true
          → db.get (db.write i new t) k ≡ db.get t k
      unseen seen k new old i t g out inside = elim (Bool-cases (i == k)) [
        | inl hit ↦ absurd (ground (arith, hit, out, inside))
        | inr miss ↦ ground (arith, c.get-write i new old t k g, miss)
      ]

  Each-before :
      (tenant now task k : ℕ) (seen : List ℕ) (ls : List CountResult) (new old : CycleCountLine)
      (t t' : db.Table CycleCountLine)
      → db.get t k ≡ some old
      → All (Each db tenant now task (k ∷ seen) (db.write k new t) t') ls
      → All (Each db tenant now task seen t t') ls
  Each-before tenant now task k seen [] new old t t' g h = tt
  Each-before tenant now task k seen (l ∷ ls) new old t t' g
        ((out, (r, gr, own, of_task, rest)), h) =
      (
        (
          ground (arith, out),
          (r, ground (arith, c.get-write k new old t l.line_id g, gr, out), own, of_task, rest),
        ),
        Each-before tenant now task k seen ls new old t t' g h,
      )

  pub count_lines-Each :
      (tenant now task : ℕ) (seen : List ℕ) (ls : List CountResult) (s s' : Db db)
      (xs : List Submitted)
      → count_lines db tenant now task seen ls s ≡ (ok xs, s')
      → All (Each db tenant now task seen s.cycle_count_lines s'.cycle_count_lines) ls
        × AreSubmitted db tenant s'.cycle_count_lines ls xs
  unfolding count_lines
  count_lines-Each tenant now task seen [] s s' xs h =
      let e : xs ≡ [] = ground (arith, h) in (tt, rw e tt)
  count_lines-Each tenant now task seen (l ∷ ls) s s' xs h =
      let (x, s₁, ys, h₁, h₂) = count_lines-cons db c tenant now task seen l ls s s' xs h in
      let (r, g, t, of_task, new, ex, e) = count_line-each tenant now task seen l s s₁ x h₁ in
      let (later, subs) = count_lines-Each tenant now task (l.line_id ∷ seen) ls s₁ s' ys h₂ in
      let kept =
        count_lines-seen tenant now task (l.line_id ∷ seen) ls s₁ s' ys l.line_id h₂
          (ground arith) in
      let here : db.get s'.cycle_count_lines l.line_id ≡ some (counted now l r) =
        kept
        ∙ rw e (
            ground
              (arith, c.get-write l.line_id (counted now l r) r s.cycle_count_lines l.line_id g)) in
      let list : xs ≡ x ∷ ys = count_lines-list tenant now task seen l ls s s₁ s' x xs ys h h₁ h₂ in
      (
        (
          (new, (r, g, t, of_task, here)),
          Each-before tenant now task l.line_id seen ls (counted now l r) r s.cycle_count_lines
              s'.cycle_count_lines g (rw e at later),
        ),
        rw list ((counted now l r, here, t, ex), subs),
      )
    where
      count_lines-list :
          (tenant now task : ℕ) (seen : List ℕ) (l : CountResult) (ls : List CountResult)
          (s s₁ s' : Db db) (x : Submitted) (xs ys : List Submitted)
          → count_lines db tenant now task seen (l ∷ ls) s ≡ (ok xs, s')
          → count_line db tenant now task seen l s ≡ (ok x, s₁)
          → count_lines db tenant now task (l.line_id ∷ seen) ls s₁ ≡ (ok ys, s')
          → xs ≡ x ∷ ys
      count_lines-list tenant now task seen l ls s s₁ s' x xs ys h h₁ h₂ = ground (arith, h, h₁, h₂)

  pub count_lines-IsCounted :
      (tenant now task : ℕ) (ls : List CountResult) (t t' : db.Table CycleCountLine)
      → All (Each db tenant now task [] t t') ls
      → All (IsCounted db tenant now task t t') ls
  count_lines-IsCounted tenant now task [] t t' h = tt
  count_lines-IsCounted tenant now task (l ∷ ls) t t' ((_, e), h) =
      (e, count_lines-IsCounted tenant now task ls t t' h)

  Adjusted-IsBooked :
      (tenant now i : ℕ) (task : CycleCountTask) (l : CountResult) (r : CycleCountLine)
      (s s' : Db db) (o : Option (ℕ × Inventory))
      → db.get s.cycle_count_lines l.line_id ≡ some r
      → l.counted_qty ≢ r.expected_qty
      → Adjusted db tenant (line_adjustment db tenant i task (submitted l r) r s) s (ok o, s')
      → IsBooked db tenant l s s'
  unfolding line_adjustment
  Adjusted-IsBooked tenant now i task l r s s' none g ne (same, zero_qty, _) =
      (r, g, inr (inl (ne, zero_qty, same)))
  Adjusted-IsBooked tenant now i task l r s s' (some (k, y)) g ne
        (q, (t, p, b, at, unit, _), _, w, _) =
      (r, g, inr (inr (k, y, ne, q, t, p, b, at, unit, w)))

  book_line-IsBooked :
      (tenant now i : ℕ) (task : CycleCountTask) (l : CountResult) (r : CycleCountLine)
      (s s' : Db db)
      → db.get s.cycle_count_lines l.line_id ≡ some r
      → r.tenant_id ≡ tenant
      → book_line db tenant now i task (submitted l r) s ≡ (ok tt, s')
      → IsBooked db tenant l s s' × (s'.cycle_count_lines ≡ s.cycle_count_lines)
  unfolding book_line
  book_line-IsBooked tenant now i task l r s s' g ht h =
      elim (Bool-cases (eqb_ℤ (l.counted_qty -ℤ r.expected_qty) (pos 0))) [
        | inl same ↦
            let e : s' ≡ s = ap (λ y. y.1) (sym (rw same at h)) in
            ((r, g, inl (no_difference _ _ same, e)), ap (λ y. y.cycle_count_lines) e)
        | inr differs ↦
            elim (Option-cases
              (find_by_id db l.line_id (λ r. r.tenant_id == tenant) s.cycle_count_lines)) [
                | inl missing ↦
                    let no = c.not_found _ s.cycle_count_lines l.line_id r missing g in
                    absurd (ground (arith, no, ht))
                | inr ((j, r'), e) ↦
                    let (_, g', _) = find_by_id_lem db c l.line_id _ _ j r' e in
                    let same_row : r' ≡ r = ground (arith, g, g') in
                    let p = line_adjustment db tenant i task (submitted l r) r s in
                    let run : (apply_inventory_adjustment db tenant now p >> pure tt) s
                        ≡ (ok tt, s') =
                      subst
                        (λ z.
                          (apply_inventory_adjustment db tenant now
                                (line_adjustment db tenant i task (submitted l r) z s)
                              >> pure tt)
                            s
                          ≡ (ok tt, s'))
                        same_row (rw (differs, e) at h) in
                    let (o, s₁, adjusting, rest) =
                      >>=-ok (apply_inventory_adjustment db tenant now p) (λ u. pure tt) s s' tt
                        run in
                    let end : s₁ ≡ s' = ap (λ y. y.1) rest in
                    let outcome =
                      subst (Adjusted db tenant p s) adjusting
                        (apply_inventory_adjustment-Adjusted db c tenant now p s) in
                    let kept = (apply_inventory_adjustment-counts db c tenant now p s).0 in
                    (
                      subst (λ z. IsBooked db tenant l s z) end
                          (Adjusted-IsBooked tenant now i task l r s s₁ o g
                            (some_difference _ _ differs) outcome),
                      ap (λ y. y.cycle_count_lines) (sym end)
                          ∙ subst (λ y. y.1.cycle_count_lines ≡ s.cycle_count_lines) adjusting kept,
                    )
              ]
      ]

  pub book_lines-AreBooked :
      (tenant now i : ℕ) (task : CycleCountTask) (ls : List CountResult) (xs : List Submitted)
      (s s' : Db db)
      → AreSubmitted db tenant s.cycle_count_lines ls xs
      → for_each xs (book_line db tenant now i task) s ≡ (ok tt, s')
      → AreBooked db tenant ls s s'
  unfolding for_each
  book_lines-AreBooked tenant now i task [] [] s s' a h = ap (λ y. y.1) (sym h)
  book_lines-AreBooked tenant now i task [] (x ∷ xs) s s' a h = absurd a
  book_lines-AreBooked tenant now i task (l ∷ ls) [] s s' a h = absurd a
  book_lines-AreBooked tenant now i task (l ∷ ls) (x ∷ xs) s s' ((r, g, t, e), a) h =
      let (u, s₁, first, rest) =
        >>=-ok (book_line db tenant now i task x)
          (λ u. for_each xs (book_line db tenant now i task)) s s' tt h in
      let (booked, same) =
        book_line-IsBooked tenant now i task l r s s₁ g t
          (subst (λ z. book_line db tenant now i task z s ≡ (ok tt, s₁)) e first) in
      (s₁, booked, book_lines-AreBooked tenant now i task ls xs s₁ s' (rw same a) rest)
