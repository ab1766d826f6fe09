-- ===== src/Common/RateLimit/Laws.antt =====
-- How many requests of a key pass the limit in one window.
use awmsom.Base.{
  ℕ, ◌+◌, ◌-◌, ◌≤◌, ◌<◌, ◌≡◌, refl, inl, inr, true, false, Option, none, some, List, [], ◌∷◌, ltb,
  leb, ◌==◌, if◌then◌else◌, arith, All, Bool-cases, ==_iff, sym,
}
use mathlib.Core.Path.{subst}
use awmsom.Common.RateLimit.{
  RateWindow, limit, window_ms, lookup, insert, cleanup_expired, check_window, check,
}

lookup-insert :
    (ws : List (ℕ × RateWindow)) (k j : ℕ) (v : RateWindow)
    → lookup (insert ws k v) j ≡ (if k == j then some v else lookup ws j)
unfolding lookup insert
lookup-insert [] k j v = refl
lookup-insert ((i, w) ∷ ws) k j v = ground (arith, lookup-insert ws k j v)

lookup-insert-same :
    (ws : List (ℕ × RateWindow)) (k : ℕ) (v : RateWindow) → lookup (insert ws k v) k ≡ some v
lookup-insert-same ws k v = ground (arith, lookup-insert ws k k v)

abbrev fresh : ℕ → RateWindow
fresh now = record { count = 1; reset_at = now + window_ms }

abbrev next : RateWindow → RateWindow
next w = record { count = w.count + 1; reset_at = w.reset_at }

-- A window that is not over survives.
lookup-cleanup_expired :
    (now : ℕ) (ws : List (ℕ × RateWindow)) (k : ℕ) (w : RateWindow)
    → lookup ws k ≡ some w
    → now < w.reset_at
    → lookup (cleanup_expired now ws) k ≡ some w
unfolding lookup cleanup_expired
lookup-cleanup_expired now [] k w g h = cc
lookup-cleanup_expired now ((i, x) ∷ ws) k w g h = ground (arith, lookup-cleanup_expired now ws k w)

-- The requests of a key among (key, time) pairs, and those of them that `check` allows.
abbrev pub requests : ℕ → List (ℕ × ℕ) → ℕ
requests k [] = 0
requests k ((j, now) ∷ xs) = (if j == k then 1 else 0) + requests k xs

abbrev pub allowed_requests : ℕ → List (ℕ × ℕ) → List (ℕ × RateWindow) → ℕ
allowed_requests k [] ws = 0
allowed_requests k ((j, now) ∷ xs) ws =
    let (v, ws') = check j now ws in
    (if j == k then (if v.allowed then 1 else 0) else 0) + allowed_requests k xs ws'

check-hit :
    (k now : ℕ) (ws : List (ℕ × RateWindow)) (w : RateWindow)
    → lookup ws k ≡ some w
    → now < w.reset_at
    → check k now ws ≡ check_window k now (some w) (cleanup_expired now ws)
unfolding check
check-hit k now ws w g h = ground (arith, lookup-cleanup_expired now ws k w g h)

-- A request of another key leaves a window as it is.
check_window-other :
    (j k now : ℕ) (o : Option RateWindow) (ws : List (ℕ × RateWindow)) (w : RateWindow)
    → j == k ≡ false
    → lookup ws k ≡ some w
    → lookup (check_window j now o ws).1 k ≡ some w
check_window-other j k now none ws w ne g = ground (arith, lookup-insert ws j k (fresh now))
check_window-other j k now (some x) ws w ne g =
    ground (arith, lookup-insert ws j k (fresh now), lookup-insert ws j k (next x))

check-other :
    (j k now : ℕ) (ws : List (ℕ × RateWindow)) (w : RateWindow)
    → j == k ≡ false
    → lookup ws k ≡ some w
    → now < w.reset_at
    → lookup (check j now ws).1 k ≡ some w
unfolding check
check-other j k now ws w ne g h =
    check_window-other j k now _ (cleanup_expired now ws) w ne
      (lookup-cleanup_expired now ws k w g h)

abbrev pub min : ℕ → ℕ → ℕ
min a b = if leb a b then a else b

abbrev pub Before : ℕ → List (ℕ × ℕ) → Type 0
Before t xs = All (λ x. x.1 < t) xs

check-full :
    (k now : ℕ) (ws : List (ℕ × RateWindow)) (w : RateWindow)
    → lookup ws k ≡ some w
    → now < w.reset_at
    → limit ≤ w.count
    → ((check k now ws).0.allowed ≡ false) × (lookup (check k now ws).1 k ≡ some w)
check-full k now ws w g h full =
    rw (check-hit k now ws w g h)
      (ground arith, ground (arith, lookup-cleanup_expired now ws k w g h))

check-next :
    (k now : ℕ) (ws : List (ℕ × RateWindow)) (w : RateWindow)
    → lookup ws k ≡ some w
    → now < w.reset_at
    → w.count < limit
    → ((check k now ws).0.allowed ≡ true) × (lookup (check k now ws).1 k ≡ some (next w))
check-next k now ws w g h room =
    rw (check-hit k now ws w g h)
      (ground arith, ground (arith, lookup-insert-same (cleanup_expired now ws) k (next w)))

-- As long as the window is open, it lets through what is left of the limit.
allowed_requests-open :
    (k : ℕ) (xs : List (ℕ × ℕ)) (ws : List (ℕ × RateWindow)) (w : RateWindow)
    → lookup ws k ≡ some w
    → Before w.reset_at xs
    → allowed_requests k xs ws ≡ min (limit - w.count) (requests k xs)
allowed_requests-open k [] ws w g h = ground arith
allowed_requests-open k ((j, now) ∷ xs) ws w g (h, hs) = elim (Bool-cases (j == k)) [
  | inr other ↦
      let rest = allowed_requests-open k xs _ w (check-other j k now ws w other g h) hs in
      ground (arith, other, rest)
  | inl same ↦
      let e = (==_iff j k).0 same in
      elim (Bool-cases (leb limit w.count)) [
        | inl full ↦
            let (v, l) = check-full k now ws w g h (ground arith) in
            let rest = allowed_requests-open k xs _ w l hs in
            subst
              (λ x.
                allowed_requests k ((x, now) ∷ xs) ws
                ≡ min (limit - w.count) (requests k ((x, now) ∷ xs)))
              (sym e) (ground (arith, v, rest))
        | inr room ↦
            let (v, l) = check-next k now ws w g h (ground arith) in
            let rest = allowed_requests-open k xs _ (next w) l hs in
            subst
              (λ x.
                allowed_requests k ((x, now) ∷ xs) ws
                ≡ min (limit - w.count) (requests k ((x, now) ∷ xs)))
              (sym e) (ground (arith, v, rest))
      ]
]

check_window-remaining :
    (k now : ℕ) (o : Option RateWindow) (live : List (ℕ × RateWindow))
    → lookup live k ≡ o
    → let (v, ws) = check_window k now o live in
      (w : RateWindow) × (lookup ws k ≡ some w)
      × (w.reset_at ≡ v.reset_at)
      × (limit - w.count ≡ v.remaining)
check_window-remaining k now none live e =
    (fresh now, lookup-insert-same live k (fresh now), refl, refl)
check_window-remaining k now (some x) live e = elim (Bool-cases (ltb x.reset_at now)) [
  | inl over ↦ rw over (fresh now, lookup-insert-same live k (fresh now), refl, refl)
  | inr live_on ↦ elim (Bool-cases (leb limit x.count)) [
    | inl full ↦ rw (live_on, full) (x, e, refl, ground arith)
    | inr room ↦ rw (live_on, room) (next x, lookup-insert-same live k (next x), refl, refl)
  ]
]

-- What `check` answers is true: of the requests that come after it, before the time that it names,
-- exactly as many of the same key are let through as it says remain, whatever else is checked
-- meanwhile, or all of them if they are fewer.
pub check-remaining :
    (k now : ℕ) (ws : List (ℕ × RateWindow)) (xs : List (ℕ × ℕ))
    → Before (check k now ws).0.reset_at xs
    → allowed_requests k xs (check k now ws).1 ≡ min (check k now ws).0.remaining (requests k xs)
unfolding check
check-remaining k now ws xs h =
    let (w, g, t, r) = check_window-remaining k now _ (cleanup_expired now ws) refl in
    rw (sym r) (allowed_requests-open k xs _ w g (rw t h))
