-- ===== src/Outbound/Picking/Start.antt =====
-- Starting a picking task.
use awmsom.Base.{
  ℕ, ◌≡◌, refl, ◌≢◌, ◌⊎◌, inl, inr, none, some, Option-cases, ◌==◌, if◌then◌else◌, arith, ok, err,
  Result, record_not_found, true, false, not_found, bad_request, picking_task_not_found,
  cannot_start_picking, Bool-cases, ==_iff,
}
use awmsom.Prisma.{Prisma, IsClient, find_by_id, find_by_id_lem}
use awmsom.Schema.{Db, PickingTask, PickingTaskStatus, is_startable}
use awmsom.Outbound.Picking.{start_picking_task}

abbrev pub picking_since : ℕ → PickingTask → PickingTask
picking_since now task = record task {
  status = PickingTaskStatus.in_progress;
  started_at = some now;
}

is_startable-cases :
    (x : PickingTaskStatus)
    → is_startable x ≡ true
    → (x ≡ PickingTaskStatus.created) ⊎ (x ≡ PickingTaskStatus.assigned)
is_startable-cases PickingTaskStatus.created h = inl refl
is_startable-cases PickingTaskStatus.assigned h = inr refl
is_startable-cases _ h = cc

module _ (db : Prisma) where
  -- After a failure nothing has changed, and the failure is one of the checks. After a success the
  -- task was one of the tenant that had not begun, it is in progress since `now`, and no other task
  -- and no other table has changed.
  abbrev pub PickingStarted : ℕ → ℕ → ℕ → Db db → Result (Unit {0}) × Db db → Type 0
  PickingStarted tenant now i s (err e, s') = (s' ≡ s) × (e ≢ record_not_found)
  PickingStarted tenant now i s (ok _, s') =
      (task : PickingTask) × (db.get s.picking_tasks i ≡ some task)
      × (task.tenant_id ≡ tenant)
      × ((task.status ≡ PickingTaskStatus.created) ⊎ (task.status ≡ PickingTaskStatus.assigned))
      × ((j : ℕ)
          → db.get s'.picking_tasks j
            ≡ (if i == j then some (picking_since now task) else db.get s.picking_tasks j))
      × (record s' { picking_tasks = s.picking_tasks } ≡ s)

module _ (db : Prisma) (c : IsClient db) where
  start_picking_task-missing :
      (tenant now i : ℕ) (s : Db db)
      → find_by_id db i (λ r. r.tenant_id == tenant) s.picking_tasks ≡ none
      → start_picking_task db tenant now i s ≡ (err (not_found picking_task_not_found), s)
  unfolding start_picking_task
  start_picking_task-missing tenant now i s e = ground arith

  start_picking_task-closed :
      (tenant now i : ℕ) (s : Db db) (j : ℕ) (task : PickingTask)
      → find_by_id db i (λ r. r.tenant_id == tenant) s.picking_tasks ≡ some (j, task)
      → is_startable task.status ≡ false
      → start_picking_task db tenant now i s ≡ (err (bad_request cannot_start_picking), s)
  unfolding start_picking_task
  start_picking_task-closed tenant now i s j task e closed = ground arith

  start_picking_task-runs :
      (tenant now i : ℕ) (s : Db db) (j : ℕ) (task : PickingTask)
      → find_by_id db i (λ r. r.tenant_id == tenant) s.picking_tasks ≡ some (j, task)
      → is_startable task.status ≡ true
      → db.get s.picking_tasks i ≡ some task
      → task.tenant_id ≡ tenant
      → start_picking_task db tenant now i s
        ≡ (ok tt, record s { picking_tasks = db.write i (picking_since now task) s.picking_tasks })
  unfolding start_picking_task
  start_picking_task-runs tenant now i s j task e startable g ht = ground arith

  -- A start that fails leaves the tables as they were, and it fails on one of its checks. One that
  -- succeeds was of a created or assigned task of the tenant, which is in progress since `now`; no
  -- other task and no other table has changed.
  pub start_picking_task-PickingStarted :
      (tenant now i : ℕ) (s : Db db)
      → PickingStarted db tenant now i s (start_picking_task db tenant now i s)
  start_picking_task-PickingStarted tenant now i s =
      elim (Option-cases (find_by_id db i (λ r. r.tenant_id == tenant) s.picking_tasks)) [
        | inl missing ↦ rw (start_picking_task-missing tenant now i s missing) (refl, λ k. cc)
        | inr ((j, task), e) ↦
            let (same, g, t) = find_by_id_lem db c i _ _ j task e in
            let own = (==_iff _ _).0 t in
            elim (Bool-cases (is_startable task.status)) [
              | inr closed ↦
                  rw (start_picking_task-closed tenant now i s j task e closed) (refl, λ k. cc)
              | inl startable ↦
                  rw (start_picking_task-runs tenant now i s j task e startable g own) (
                    task,
                    g,
                    own,
                    is_startable-cases task.status startable,
                    λ k. c.get-write i (picking_since now task) task s.picking_tasks k g,
                    refl,
                  )
            ]
      ]
