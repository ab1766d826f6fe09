-- ===== src/Inventory/CycleCount/Submit/Laws.antt =====
-- What submitCycleCount guarantees on every path.
use awmsom.Base.{
  ℕ, ◌≡◌, refl, sym, ◌∙◌, ap, ◌≢◌, inl, inr, true, false, none, some, List, [], ◌∷◌, map, ◌+ℤ◌, ltb,
  ◌==◌, ◌&&◌, not, if◌then◌else◌, length, keep, includes, All, arith, ok, err, Result, raise_if,
  or_raise, transaction, for_each, ◌>>=◌, ◌>>◌, >>=-ok, raise_if-ok, or_raise-ok, transaction-ok,
  Atomic, >>=-Atomic, gets-Atomic, or_raise-Reads, or_raise-Atomic, raise_if-Reads, raise_if-Atomic,
  transaction-Atomic, ==_iff, Bool-cases, not_found, bad_request, missing_lines,
  must_be_in_progress, cycle_count_task_not_found,
}
use mathlib.Core.Path.{subst}
use awmsom.Prisma.{Prisma, IsClient, find_by_id, find_by_id_lem}
use awmsom.Schema.{Db, CycleCountTask, CycleCountLine, CycleCountStatus, is_in_progress}
use awmsom.Inventory.Stock.{IsNonneg, KeepsOthers}
use awmsom.Inventory.Adjust.Laws.{stock_total, adjustment_total}
use awmsom.Inventory.CycleCount.Submit.{
  CountResult, Submitted, is_null, pending_lines, count_lines, book_line, complete_task,
  submit_body, submit_cycle_count,
}
use awmsom.Inventory.CycleCount.Submit.Counting.{PendingIn, count_lines_lem}
use awmsom.Inventory.CycleCount.Submit.Each.{
  IsCounted, AreBooked, count_lines-Each, count_lines-IsCounted, book_lines-AreBooked,
}
use awmsom.Inventory.CycleCount.Submit.Booking.{Booked, book_lines-Booked}

abbrev pub completed : ℕ → CycleCountTask → CycleCountTask
completed now task = record task { status = CycleCountStatus.completed; completed_at = some now }

is_in_progress-eq :
    (x : CycleCountStatus) → is_in_progress x ≡ true → x ≡ CycleCountStatus.in_progress
is_in_progress-eq CycleCountStatus.in_progress h = refl
is_in_progress-eq _ h = cc

-- `missingLines.length` is zero: every identifier of the list is among the submitted ones.
nothing_missing :
    (ids pending : List ℕ) (i : ℕ)
    → ltb 0 (length (keep (λ j. not (includes ids j)) pending)) ≡ false
    → includes pending i ≡ true
    → includes ids i ≡ true
nothing_missing ids [] i h k = cc
nothing_missing ids (j ∷ pending) i h k = elim (Bool-cases (includes ids j)) [
  | inl known ↦ ground (arith, nothing_missing ids pending i)
  | inr missing ↦ absurd (ground arith)
]

module _ (db : Prisma) (c : IsClient db) where
  pending_lines-PendingIn :
      (tenant i : ℕ) (ids : List ℕ) (s : Db db)
      → ltb 0
          (length (keep (λ j. not (includes ids j)) (map (λ x. x.0) (pending_lines db tenant i s))))
        ≡ false
      → PendingIn db tenant i ids s.cycle_count_lines
  unfolding pending_lines
  pending_lines-PendingIn tenant i ids s h j r g hi ht hp =
      nothing_missing ids _ j h (c.many_complete _ _ s.cycle_count_lines j r g (ground arith))

  pending_lines-nil :
      (tenant i : ℕ) (s : Db db)
      → PendingIn db tenant i [] s.cycle_count_lines
      → pending_lines db tenant i s ≡ []
  unfolding pending_lines
  pending_lines-nil tenant i s p = go _ (c.many_found _ _ s.cycle_count_lines)
    where
      go :
          (rows : List (ℕ × CycleCountLine))
          → All
              (λ x.
                (db.get s.cycle_count_lines x.0 ≡ some x.1)
                × ((x.1.cycle_count_task_id == i
                      && (is_null x.1.counted_at && x.1.tenant_id == tenant))
                    ≡ true))
              rows
          → rows ≡ []
      go [] h = refl
      go ((j, r) ∷ rows) ((g, k), h) = absurd (ground (arith, p j r g))

  complete_task_lem :
      (tenant now i : ℕ) (task : CycleCountTask) (s : Db db)
      → PendingIn db tenant i [] s.cycle_count_lines
      → db.get s.cycle_count_tasks i ≡ some task
      → complete_task db tenant now i s ≡ (
        ok tt,
        record s { cycle_count_tasks = db.write i (completed now task) s.cycle_count_tasks },
      )
  unfolding complete_task
  complete_task_lem tenant now i task s p g = ground (arith, pending_lines-nil tenant i s p)

  -- The steps of a successful submission.
  submit_body-steps :
      (tenant now i : ℕ) (task : CycleCountTask) (ls : List CountResult) (s s' : Db db)
      → submit_body db tenant now i task ls s ≡ (ok tt, s')
      → (xs : List Submitted) × (s₁ : Db db) × (s₂ : Db db) × (ltb 0 (
            length (
              keep
                (λ j. not (includes (map (λ l. l.line_id) ls) j))
                (map (λ x. x.0) (pending_lines db tenant i s))))
          ≡ false)
        × (count_lines db tenant now i [] ls s ≡ (ok xs, s₁))
        × (for_each xs (book_line db tenant now i task) s₁ ≡ (ok tt, s₂))
        × (complete_task db tenant now i s₂ ≡ (ok tt, s'))
  unfolding submit_body
  submit_body-steps tenant now i task ls s s' h =
      let missing = ltb 0 (
        length (
          keep (λ j. not (includes (map (λ l. l.line_id) ls) j))
            (map (λ x. x.0) (pending_lines db tenant i s)))) in
      let count = count_lines db tenant now i [] ls in
      let book = λ (xs : List Submitted). for_each xs (book_line db tenant now i task) in
      let complete = complete_task db tenant now i in
      let (u, s₀, h₀, k₀) =
        >>=-ok (raise_if missing (bad_request missing_lines))
          (λ u. count >>= λ xs. book xs >> complete) s s' tt h in
      let (none_missing, e₀) = raise_if-ok missing (bad_request missing_lines) s s₀ u h₀ in
      let (xs, s₁, h₁, k₁) = >>=-ok count (λ xs. book xs >> complete) s₀ s' tt k₀ in
      let (v, s₂, h₂, k₂) = >>=-ok (book xs) (λ u. complete) s₁ s' tt k₁ in
      (xs, s₁, s₂, none_missing, subst (λ x. count x ≡ (ok xs, s₁)) e₀ h₁, h₂, k₂)

  -- After a failure nothing has changed. After a success the task was in progress, it is completed
  -- at `now`, no line of it is uncounted, no other task has changed, and the stock has changed as
  -- the recorded adjustments say, and that of the other tenants is as it was.
  abbrev pub Completed : ℕ → ℕ → ℕ → List CountResult → Db db → Result (Unit {0}) × Db db → Type 0
  Completed tenant now i ls s (err e, s') = s' ≡ s
  Completed tenant now i ls s (ok _, s') =
      (task : CycleCountTask) × (db.get s.cycle_count_tasks i ≡ some task)
      × ((task.tenant_id ≡ tenant) × (task.status ≡ CycleCountStatus.in_progress))
      × ((j : ℕ)
          → db.get s'.cycle_count_tasks j
            ≡ (if i == j then some (completed now task) else db.get s.cycle_count_tasks j))
      × ((j : ℕ) (r : CycleCountLine)
          → db.get s'.cycle_count_lines j ≡ some r
          → r.cycle_count_task_id ≡ i
          → r.tenant_id ≡ tenant
          → r.counted_at ≢ none)
      × All (IsCounted db tenant now i s.cycle_count_lines s'.cycle_count_lines) ls
      × AreBooked db tenant ls (record s { cycle_count_lines = s'.cycle_count_lines })
          (record s' { cycle_count_tasks = s.cycle_count_tasks })
      × (stock_total db s' +ℤ adjustment_total db s ≡ stock_total db s +ℤ adjustment_total db s')
      × KeepsOthers db tenant s.inventory s'.inventory

  submit_body-Completed :
      (tenant now i : ℕ) (task : CycleCountTask) (ls : List CountResult) (s s' : Db db)
      → submit_body db tenant now i task ls s ≡ (ok tt, s')
      → db.get s.cycle_count_tasks i ≡ some task
      → task.tenant_id ≡ tenant
      → task.status ≡ CycleCountStatus.in_progress
      → Completed tenant now i ls s (ok tt, s')
        × (IsNonneg db s.inventory → IsNonneg db s'.inventory)
  submit_body-Completed tenant now i task ls s s' h g ht hs =
      let (xs, s₁, s₂, none_missing, count, book, complete) =
        submit_body-steps tenant now i task ls s s' h in
      let (t, e₁, p) =
        count_lines_lem db c tenant now i [] ls s s₁ xs count
          (pending_lines-PendingIn tenant i (map (λ l. l.line_id) ls) s none_missing) in
      let (each, submitted) = count_lines-Each db c tenant now i [] ls s s₁ xs count in
      let counts : All (IsCounted db tenant now i s.cycle_count_lines t) ls = rw e₁ at (
        count_lines-IsCounted db c tenant now i ls s.cycle_count_lines s₁.cycle_count_lines each) in
      let same = book_lines-Booked db c tenant now i task xs s₁ in
      let b : Booked db tenant (record s { cycle_count_lines = t }) s₂ =
        subst (λ x. Booked db tenant x s₂) e₁ (subst (λ x. Booked db tenant s₁ x.1) book same) in
      let p₂ : PendingIn db tenant i [] s₂.cycle_count_lines = rw b.lines p in
      let g₂ : db.get s₂.cycle_count_tasks i ≡ some task = rw b.tasks g in
      let e₂ : s'
          ≡ record s₂ { cycle_count_tasks = db.write i (completed now task) s₂.cycle_count_tasks } =
        ap (λ x. x.1) (sym complete ∙ complete_task_lem tenant now i task s₂ p₂ g₂) in
      let in_turn : AreBooked db tenant ls (record s { cycle_count_lines = t }) s₂ =
        subst (λ y. AreBooked db tenant ls y s₂) e₁
          (book_lines-AreBooked db c tenant now i task ls xs s₁ s₂ submitted book) in
      let booked =
        subst
          (λ y.
            AreBooked db tenant ls (record s { cycle_count_lines = y })
              (record s₂ { cycle_count_tasks = s.cycle_count_tasks }))
          (sym b.lines)
          (subst
            (λ y.
              AreBooked db tenant ls (record s { cycle_count_lines = t })
                (record s₂ { cycle_count_tasks = y }))
            b.tasks in_turn) in
      rw e₂ (
        (
          task,
          g,
          (ht, hs),
          λ j.
              c.get-write i (completed now task) task s₂.cycle_count_tasks j g₂
              ∙ ap (λ t. if i == j then some (completed now task) else db.get t j) b.tasks,
          λ j r gj hj tj null. absurd (ground (arith, p₂ j r gj hj tj)),
          rw b.lines counts,
          booked,
          b.balanced,
          b.others,
        ),
        b.nonneg,
      )

  submit_cycle_count-ok :
      (tenant now i : ℕ) (ls : List CountResult) (s s' : Db db)
      → submit_cycle_count db tenant now i ls s ≡ (ok tt, s')
      → Completed tenant now i ls s (ok tt, s')
        × (IsNonneg db s.inventory → IsNonneg db s'.inventory)
  unfolding submit_cycle_count
  submit_cycle_count-ok tenant now i ls s s' h =
      let row = find_by_id db i (λ r. r.tenant_id == tenant) s.cycle_count_tasks in
      let find = or_raise row (not_found cycle_count_task_not_found) in
      let check = λ (x : ℕ × CycleCountTask).
        raise_if (not (is_in_progress x.1.status)) (bad_request must_be_in_progress) in
      let body = λ (x : ℕ × CycleCountTask). transaction (submit_body db tenant now i x.1 ls) in
      let ((j, task), s₁, h₁, k₁) = >>=-ok find (λ x. check x >> body x) s s' tt h in
      let (e, e₁) = or_raise-ok row (not_found cycle_count_task_not_found) s s₁ (j, task) h₁ in
      let (u, s₂, h₂, k₂) = >>=-ok (check (j, task)) (λ u. body (j, task)) s₁ s' tt k₁ in
      let (running, e₂) = raise_if-ok _ (bad_request must_be_in_progress) s₁ s₂ u h₂ in
      let (same, g, t) = find_by_id_lem db c i _ _ j task e in
      submit_body-Completed tenant now i task ls s s'
        (transaction-ok (submit_body db tenant now i task ls) s s' tt
          (subst (λ x. body (j, task) x ≡ (ok tt, s')) (e₂ ∙ e₁) k₂))
        g ((==_iff _ _).0 t) (is_in_progress-eq task.status (ground (arith, running)))

  submit_cycle_count-Atomic :
      (tenant now i : ℕ) (ls : List CountResult) → Atomic (submit_cycle_count db tenant now i ls)
  unfolding submit_cycle_count
  submit_cycle_count-Atomic tenant now i ls =
      let check = λ (x : ℕ × CycleCountTask).
        raise_if {S = Db db} (not (is_in_progress x.1.status)) (bad_request must_be_in_progress) in
      let body = λ (x : ℕ × CycleCountTask). transaction (submit_body db tenant now i x.1 ls) in
      gets-Atomic (λ s. find_by_id db i (λ r. r.tenant_id == tenant) s.cycle_count_tasks)
        (λ o. or_raise o (not_found cycle_count_task_not_found) >>= λ x. check x >> body x)
        λ o.
          >>=-Atomic (or_raise o (not_found cycle_count_task_not_found)) (λ x. check x >> body x)
            (or_raise-Reads o _) (or_raise-Atomic o _)
            λ x.
              >>=-Atomic (check x) (λ u. body x) (raise_if-Reads _ _) (raise_if-Atomic _ _)
                (λ u. transaction-Atomic (submit_body db tenant now i x.1 ls))

  -- A submission that fails leaves the tables as they were. One that succeeds was of a task of the
  -- tenant that was in progress: the task is completed at `now` and no other has changed, each of the
  -- tenant's lines of the task is counted, and each submitted quantity stands in its line, which was one
  -- of the tenant in the task. The submitted lines are booked in turn: one with the expected quantity
  -- changes nothing; for any other, one stock row of the tenant and of the line's product, batch,
  -- location and unit holds the counted quantity, and no other row changes, or nothing changes where
  -- zero was counted. The stock differs from the stock before by what the adjustments recorded on the
  -- way sum up to, and the stock of other tenants is as it was.
  pub submit_cycle_count-Completed :
      (tenant now i : ℕ) (ls : List CountResult) (s : Db db)
      → Completed tenant now i ls s (submit_cycle_count db tenant now i ls s)
  submit_cycle_count-Completed tenant now i ls s = go (submit_cycle_count db tenant now i ls s) refl
    where
      go :
          (x : Result (Unit {0}) × Db db)
          → submit_cycle_count db tenant now i ls s ≡ x
          → Completed tenant now i ls s x
      go (err e, s') h = submit_cycle_count-Atomic tenant now i ls s s' e h
      go (ok tt, s') h = (submit_cycle_count-ok tenant now i ls s s' h).0

  -- However a submission ends, stock that was nowhere negative is nowhere negative.
  pub submit_cycle_count-IsNonneg :
      (tenant now i : ℕ) (ls : List CountResult) (s : Db db)
      → IsNonneg db s.inventory
      → IsNonneg db (submit_cycle_count db tenant now i ls s).1.inventory
  submit_cycle_count-IsNonneg tenant now i ls s n =
      go (submit_cycle_count db tenant now i ls s) refl
    where
      go :
          (x : Result (Unit {0}) × Db db)
          → submit_cycle_count db tenant now i ls s ≡ x
          → IsNonneg db x.1.inventory
      go (err e, s') h = rw (submit_cycle_count-Atomic tenant now i ls s s' e h) n
      go (ok tt, s') h = (submit_cycle_count-ok tenant now i ls s s' h).1 n
