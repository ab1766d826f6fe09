-- ===== src/Inventory/CycleCount/Submit/Counting.antt =====
-- The loop of submitCycleCount that stores what was counted.
use awmsom.Base.{
  ℕ, ◌≡◌, ◌∙◌, inl, inr, true, some, List, [], ◌∷◌, map, ◌-ℤ◌, ◌==◌, includes, arith, ok, >>=-ok,
  pure, ◌>>=◌, Option-cases,
}
use awmsom.Prisma.{Prisma, IsClient, find_by_id, find_by_id_lem}
use awmsom.Schema.{Db, CycleCountLine}
use awmsom.Inventory.CycleCount.Submit.{
  CountResult, Submitted, is_null, system, count_line, count_lines,
}

-- The row after the count.
abbrev pub counted : ℕ → CountResult → CycleCountLine → CycleCountLine
counted now l r = record r {
  counted_qty = some l.counted_qty;
  difference_qty = some (l.counted_qty -ℤ r.expected_qty);
  counted_at = some now;
  counted_by = some system;
}

module _ (db : Prisma) where
  -- The uncounted lines of the task are among the given ones.
  abbrev pub PendingIn : ℕ → ℕ → List ℕ → db.Table CycleCountLine → Type 0
  PendingIn tenant task ids t =
      (i : ℕ) (r : CycleCountLine)
      → db.get t i ≡ some r
      → r.cycle_count_task_id ≡ task
      → r.tenant_id ≡ tenant
      → is_null r.counted_at ≡ true
      → includes ids i ≡ true

module _ (db : Prisma) (c : IsClient db) where
  count_line_lem :
      (tenant now task : ℕ) (seen : List ℕ) (l : CountResult) (s s' : Db db) (x : Submitted)
      → count_line db tenant now task seen l s ≡ (ok x, s')
      → (r : CycleCountLine) × (db.get s.cycle_count_lines l.line_id ≡ some r)
        × (s' ≡ record s {
          cycle_count_lines = db.write l.line_id (counted now l r) s.cycle_count_lines;
        })
  unfolding count_line
  count_line_lem tenant now task seen l s s' x h =
      elim (Option-cases
        (find_by_id db l.line_id (λ r. r.tenant_id == tenant) s.cycle_count_lines)) [
          | inl missing ↦ absurd (ground arith)
          | inr ((j, r), e) ↦
              let (same, g, t) = find_by_id_lem db c l.line_id _ _ j r e in (r, g, ground arith)
        ]

  count_line-PendingIn :
      (tenant now task : ℕ) (l : CountResult) (r : CycleCountLine) (ids : List ℕ)
      (t : db.Table CycleCountLine)
      → db.get t l.line_id ≡ some r
      → PendingIn db tenant task (l.line_id ∷ ids) t
      → PendingIn db tenant task ids (db.write l.line_id (counted now l r) t)
  count_line-PendingIn tenant now task l r ids t g p i x gx ht hn hp =
      ground (arith, c.get-write l.line_id (counted now l r) r t i g, p i x)

  pub count_lines-cons :
      (tenant now task : ℕ) (seen : List ℕ) (l : CountResult) (ls : List CountResult) (s s' : Db db)
      (xs : List Submitted)
      → count_lines db tenant now task seen (l ∷ ls) s ≡ (ok xs, s')
      → (x : Submitted) × (s₁ : Db db) × (ys : List Submitted) × (count_line db tenant now task seen
            l s
          ≡ (ok x, s₁))
        × (count_lines db tenant now task (l.line_id ∷ seen) ls s₁ ≡ (ok ys, s'))
  unfolding count_lines
  count_lines-cons tenant now task seen l ls s s' xs h =
      let rest = count_lines db tenant now task (l.line_id ∷ seen) ls in
      let (x, s₁, h₁, h₂) =
        >>=-ok (count_line db tenant now task seen l) (λ x. rest >>= λ ys. pure (x ∷ ys)) s s' xs
          h in
      let (ys, s₂, k₁, k₂) = >>=-ok rest (λ ys. pure (x ∷ ys)) s₁ s' xs h₂ in
      (x, s₁, ys, h₁, k₁ ∙ ground arith)

  -- After the loop no line of the task is uncounted, and no other table has changed.
  pub count_lines_lem :
      (tenant now task : ℕ) (seen : List ℕ) (ls : List CountResult) (s s' : Db db)
      (xs : List Submitted)
      → count_lines db tenant now task seen ls s ≡ (ok xs, s')
      → PendingIn db tenant task (map (λ l. l.line_id) ls) s.cycle_count_lines
      → (t : db.Table CycleCountLine) × (s' ≡ record s { cycle_count_lines = t })
        × PendingIn db tenant task [] t
  unfolding count_lines
  count_lines_lem tenant now task seen [] s s' xs h p = (s.cycle_count_lines, ground arith, p)
  count_lines_lem tenant now task seen (l ∷ ls) s s' xs h p =
      let (x, s₁, ys, h₁, h₂) = count_lines-cons tenant now task seen l ls s s' xs h in
      let (r, g, e) = count_line_lem tenant now task seen l s s₁ x h₁ in
      let t₁ = db.write l.line_id (counted now l r) s.cycle_count_lines in
      let (t, f, q) =
        count_lines_lem tenant now task (l.line_id ∷ seen) ls (record s { cycle_count_lines = t₁ })
          s' ys (rw e at h₂)
          (count_line-PendingIn tenant now task l r (map (λ l. l.line_id) ls) s.cycle_count_lines g
            p) in
      (t, f, q)
