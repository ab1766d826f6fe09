-- ===== src/Waves/Status.antt =====
-- releaseWave, startWave, completeWave, cancelWave and assignWave: writes to one wave of the tenant.
use awmsom.Base.{ℕ, some, ◌==◌, Action}
use awmsom.Prisma.{Prisma}
use awmsom.Schema.{Db, WaveStatus}
use awmsom.Waves.Generate.{update_wave}

module _ (db : Prisma) where
  unfoldable pub release_wave : ℕ → ℕ → ℕ → Action (Db db) (Unit {0})
  release_wave tenant now wave_id =
      update_wave db wave_id (λ w. w.tenant_id == tenant)
        (λ w. record w { status = WaveStatus.released; released_at = some now })

  unfoldable pub start_wave : ℕ → ℕ → ℕ → Action (Db db) (Unit {0})
  start_wave tenant now wave_id =
      update_wave db wave_id (λ w. w.tenant_id == tenant)
        (λ w. record w { status = WaveStatus.in_progress; started_at = some now })

  unfoldable pub complete_wave : ℕ → ℕ → ℕ → Action (Db db) (Unit {0})
  complete_wave tenant now wave_id =
      update_wave db wave_id (λ w. w.tenant_id == tenant)
        (λ w. record w { status = WaveStatus.completed; completed_at = some now })

  unfoldable pub cancel_wave : ℕ → ℕ → ℕ → Action (Db db) (Unit {0})
  cancel_wave tenant now wave_id =
      update_wave db wave_id (λ w. w.tenant_id == tenant)
        (λ w. record w { status = WaveStatus.cancelled; cancelled_at = some now })

  unfoldable pub assign_wave : ℕ → ℕ → ℕ → Action (Db db) (Unit {0})
  assign_wave tenant picker wave_id =
      update_wave db wave_id (λ w. w.tenant_id == tenant)
        (λ w. record w { picker_user_id = some picker })
