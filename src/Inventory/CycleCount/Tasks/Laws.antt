-- ===== src/Inventory/CycleCount/Tasks/Laws.antt =====
-- Starting a cycle count.
use awmsom.Base.{
  ℕ, ◌≡◌, refl, ◌≢◌, inl, inr, none, some, Option-cases, ◌==◌, if◌then◌else◌, arith, ok, err,
  Result, record_not_found, true, false, not_found, bad_request, cycle_count_task_not_found,
  only_pending_start, Bool-cases, ==_iff,
}
use awmsom.Prisma.{Prisma, IsClient, find_by_id, find_by_id_lem}
use awmsom.Schema.{Db, CycleCountTask, CycleCountStatus, is_pending}
use awmsom.Inventory.CycleCount.Tasks.{start_cycle_count}

abbrev pub started : ℕ → CycleCountTask → CycleCountTask
started now task = record task { status = CycleCountStatus.in_progress; started_at = some now }

is_pending-eq : (x : CycleCountStatus) → is_pending x ≡ true → x ≡ CycleCountStatus.pending
is_pending-eq CycleCountStatus.pending h = refl
is_pending-eq _ h = cc

module _ (db : Prisma) where
  -- After a failure nothing has changed, and the failure is one of the checks. After a success the
  -- task was a pending one of the tenant, it is in progress since `now`, and no other task and no
  -- other table has changed.
  abbrev pub Started : ℕ → ℕ → ℕ → Db db → Result (Unit {0}) × Db db → Type 0
  Started tenant now i s (err e, s') = (s' ≡ s) × (e ≢ record_not_found)
  Started tenant now i s (ok _, s') =
      (task : CycleCountTask) × (db.get s.cycle_count_tasks i ≡ some task)
      × (task.tenant_id ≡ tenant)
      × (task.status ≡ CycleCountStatus.pending)
      × ((j : ℕ)
          → db.get s'.cycle_count_tasks j
            ≡ (if i == j then some (started now task) else db.get s.cycle_count_tasks j))
      × (record s' { cycle_count_tasks = s.cycle_count_tasks } ≡ s)

module _ (db : Prisma) (c : IsClient db) where
  start_cycle_count-missing :
      (tenant now i : ℕ) (s : Db db)
      → find_by_id db i (λ r. r.tenant_id == tenant) s.cycle_count_tasks ≡ none
      → start_cycle_count db tenant now i s ≡ (err (not_found cycle_count_task_not_found), s)
  unfolding start_cycle_count
  start_cycle_count-missing tenant now i s e = rw e

  start_cycle_count-closed :
      (tenant now i : ℕ) (s : Db db) (j : ℕ) (task : CycleCountTask)
      → find_by_id db i (λ r. r.tenant_id == tenant) s.cycle_count_tasks ≡ some (j, task)
      → is_pending task.status ≡ false
      → start_cycle_count db tenant now i s ≡ (err (bad_request only_pending_start), s)
  unfolding start_cycle_count
  start_cycle_count-closed tenant now i s j task e closed = rw (e, closed)

  start_cycle_count-runs :
      (tenant now i : ℕ) (s : Db db) (j : ℕ) (task : CycleCountTask)
      → find_by_id db i (λ r. r.tenant_id == tenant) s.cycle_count_tasks ≡ some (j, task)
      → is_pending task.status ≡ true
      → db.get s.cycle_count_tasks i ≡ some task
      → start_cycle_count db tenant now i s ≡ (
        ok tt,
        record s { cycle_count_tasks = db.write i (started now task) s.cycle_count_tasks },
      )
  unfolding start_cycle_count
  start_cycle_count-runs tenant now i s j task e open_task g = ground arith

  -- A start that fails leaves the tables as they were, and it fails on one of its checks. One that
  -- succeeds was of a pending task of the tenant, which is in progress since `now`; no other task and
  -- no other table has changed.
  pub start_cycle_count-Started :
      (tenant now i : ℕ) (s : Db db)
      → Started db tenant now i s (start_cycle_count db tenant now i s)
  start_cycle_count-Started tenant now i s =
      elim (Option-cases (find_by_id db i (λ r. r.tenant_id == tenant) s.cycle_count_tasks)) [
        | inl missing ↦ rw (start_cycle_count-missing tenant now i s missing) (refl, λ k. cc)
        | inr ((j, task), e) ↦
            let (same, g, t) = find_by_id_lem db c i _ _ j task e in
            elim (Bool-cases (is_pending task.status)) [
              | inr closed ↦
                  rw (start_cycle_count-closed tenant now i s j task e closed) (refl, λ k. cc)
              | inl open_task ↦ rw (start_cycle_count-runs tenant now i s j task e open_task g) (
                task,
                g,
                (==_iff _ _).0 t,
                is_pending-eq task.status open_task,
                λ k. c.get-write i (started now task) task s.cycle_count_tasks k g,
                refl,
              )
            ]
      ]
