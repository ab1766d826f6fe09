-- ===== src/Common/RateLimit.antt =====
-- common/rate-limit.service.ts: at most 60 requests of a key in a window of a minute. A `Map` is an
-- association list, times are milliseconds, and `Date.now()` is an argument.
pub mod Laws
use awmsom.Base.{
  ℕ, suc, ◌+◌, ◌-◌, Bool, true, false, Option, none, some, List, [], ◌∷◌, ltb, leb, ◌==◌,
  if◌then◌else◌,
}

pub record RateWindow : Type 0 where
  pub count : ℕ
  pub reset_at : ℕ

abbrev pub limit : ℕ
limit = 60

abbrev pub window_ms : ℕ
window_ms = 60000

-- `Map.get`
unfoldable pub lookup : List (ℕ × RateWindow) → ℕ → Option RateWindow
lookup [] k = none
lookup ((j, w) ∷ ws) k = if j == k then some w else lookup ws k

-- `Map.set` keeps the place of a key that is there.
unfoldable pub insert : List (ℕ × RateWindow) → ℕ → RateWindow → List (ℕ × RateWindow)
insert [] k v = (k, v) ∷ []
insert ((j, w) ∷ ws) k v = let rest = insert ws k v in if j == k then (j, v) ∷ ws else (j, w) ∷ rest

-- Delete the windows that are over.
unfoldable pub cleanup_expired : ℕ → List (ℕ × RateWindow) → List (ℕ × RateWindow)
cleanup_expired now [] = []
cleanup_expired now ((j, w) ∷ ws) =
    let rest = cleanup_expired now ws in if leb w.reset_at now then rest else (j, w) ∷ rest

pub record Verdict : Type 0 where
  pub allowed : Bool
  pub remaining : ℕ
  pub reset_at : ℕ

abbrev pub open_window : ℕ → ℕ → List (ℕ × RateWindow) → Verdict × List (ℕ × RateWindow)
open_window key now ws = (
  record { allowed = true; remaining = limit - 1; reset_at = now + window_ms },
  insert ws key (record { count = 1; reset_at = now + window_ms }),
)

-- What `check` does with the window that it finds.
abbrev pub check_window :
    ℕ → ℕ → Option RateWindow → List (ℕ × RateWindow) → Verdict × List (ℕ × RateWindow)
check_window key now none ws = open_window key now ws
check_window key now (some w) ws =
    if ltb w.reset_at now
    then open_window key now ws
    else if leb limit w.count
    then (record { allowed = false; remaining = 0; reset_at = w.reset_at }, ws)
    else (
      record { allowed = true; remaining = limit - (w.count + 1); reset_at = w.reset_at },
      insert ws key (record { count = w.count + 1; reset_at = w.reset_at }),
    )

unfoldable pub check : ℕ → ℕ → List (ℕ × RateWindow) → Verdict × List (ℕ × RateWindow)
unfolding lookup insert cleanup_expired
check key now ws = let live = cleanup_expired now ws in check_window key now (lookup live key) live
