-- ===== src/Waves/Route/Laws.antt =====
-- A route visits each node once, and goes to a nearest of those that are left.
use awmsom.Base.{
  ℕ, zero, suc, ◌+◌, ◌≤◌, ◌<◌, ◌≡◌, refl, sym, ◌∙◌, ap, ◌⊎◌, inl, inr, Bool, none, some, List, [],
  ◌∷◌, ltb, length, get_elem?, All, Bool-cases, arith,
}
use awmsom.Waves.Grouping.Laws.{count}
use awmsom.Waves.Route.{best_loop, remove_at, visit, nearest_neighbor}

module _ {A : Type 0} where
  -- The node at the position is nearer than `m`, and no node of the list is nearer.
  abbrev Nearer : (A → ℕ) → ℕ → ℕ → List A → ℕ → Type 0
  Nearer d idx m xs r =
      (k : ℕ) × (n : A) × (r ≡ idx + k)
      × (get_elem? xs k ≡ some n)
      × (d n < m)
      × All (λ z. d n ≤ d z) xs

  best_loop-nearer :
      (d : A → ℕ) (idx best m : ℕ) (x : A) (xs : List A)
      → d x < m
      → best_loop d idx best (some m) (x ∷ xs) ≡ best_loop d (suc idx) idx (some (d x)) xs
  unfolding best_loop
  best_loop-nearer d idx best m x xs h = ground arith

  best_loop-passes :
      (d : A → ℕ) (idx best m : ℕ) (x : A) (xs : List A)
      → m ≤ d x
      → best_loop d idx best (some m) (x ∷ xs) ≡ best_loop d (suc idx) best (some m) xs
  unfolding best_loop
  best_loop-passes d idx best m x xs h = ground arith

  All-le :
      (d : A → ℕ) (a b : ℕ) (xs : List A) → a ≤ b → All (λ z. b ≤ d z) xs → All (λ z. a ≤ d z) xs
  All-le d a b [] h k = tt
  All-le d a b (x ∷ xs) h (p, k) = (omega arith, All-le d a b xs h k)

  best_loop_lem :
      (d : A → ℕ) (idx best m : ℕ) (xs : List A)
      → let r = best_loop d idx best (some m) xs in
        ((r ≡ best) × All (λ z. m ≤ d z) xs) ⊎ Nearer d idx m xs r
  unfolding best_loop
  best_loop_lem d idx best m [] = inl (refl, tt)
  best_loop_lem d idx best m (x ∷ xs) = elim (Bool-cases (ltb (d x) m)) [
    | inl lt ↦
        let less : d x < m = ground (arith, lt) in
        rw (best_loop-nearer d idx best m x xs less)
          (elim (best_loop_lem d (suc idx) idx (d x) xs) [
            | inl (e, h) ↦ inr (0, x, omega (arith, e), refl, less, (omega arith, h))
            | inr (k, n, e, g, near, h) ↦
                inr (
                  suc k,
                  n,
                  omega (arith, e),
                  g,
                  omega (arith, near, less),
                  (omega (arith, near), h),
                )
          ])
    | inr ge ↦
        let more : m ≤ d x = ground (arith, ge) in
        rw (best_loop-passes d idx best m x xs more) (elim (best_loop_lem d (suc idx) best m xs) [
          | inl (e, h) ↦ inl (e, (more, h))
          | inr (k, n, e, g, near, h) ↦
              inr (suc k, n, omega (arith, e), g, near, (omega (arith, near, more), h))
        ])
  ]

  -- The chosen position is one of the list, and no node is nearer than its own.
  best_lem :
      (d : A → ℕ) (x : A) (xs : List A)
      → (n : A) × (get_elem? (x ∷ xs) (best_loop d 0 0 none (x ∷ xs)) ≡ some n)
        × All (λ z. d n ≤ d z) (x ∷ xs)
  unfolding best_loop
  best_lem d x xs = elim (best_loop_lem d 1 0 (d x) xs) [
    | inl (e, h) ↦ (x, rw e refl, (omega arith, h))
    | inr (k, n, e, g, near, h) ↦
        let next : best_loop d 1 0 (some (d x)) xs ≡ suc k = omega (arith, e) in
        (n, rw next g, (omega (arith, near), h))
  ]

  count-cons :
      (p : A → Bool) (x : A) (xs : List A) → count p (x ∷ xs) ≡ count p (x ∷ []) + count p xs
  count-cons p x xs = ground arith

  count-remove_at :
      (p : A → Bool) (i : ℕ) (n : A) (xs : List A)
      → get_elem? xs i ≡ some n
      → count p (n ∷ []) + count p (remove_at i xs) ≡ count p xs
  count-remove_at p i n [] h = cc
  count-remove_at p zero n (x ∷ xs) h = ground arith
  count-remove_at p (suc i) n (x ∷ xs) h = ground (arith, count-remove_at p i n xs h)

  length-remove_at :
      (i : ℕ) (n : A) (xs : List A)
      → get_elem? xs i ≡ some n
      → suc (length (remove_at i xs)) ≡ length xs
  length-remove_at i n [] h = cc
  length-remove_at zero n (x ∷ xs) h = refl
  length-remove_at (suc i) n (x ∷ xs) h = omega (arith, length-remove_at i n xs h)

  All-remove_at : (P : A → Type 0) (i : ℕ) (xs : List A) → All P xs → All P (remove_at i xs)
  All-remove_at P i [] h = tt
  All-remove_at P zero (x ∷ xs) (p, h) = h
  All-remove_at P (suc i) (x ∷ xs) (p, h) = (p, All-remove_at P i xs h)

  All-get :
      (P : A → Type 0) (i : ℕ) (n : A) (xs : List A) → All P xs → get_elem? xs i ≡ some n → P n
  All-get P i n [] h g = cc
  All-get P zero n (x ∷ xs) (p, h) g = let e : x ≡ n = cc in rw (sym e) p
  All-get P (suc i) n (x ∷ xs) (p, h) g = All-get P i n xs h g

  visit-cons :
      (fuel : ℕ) (distance : A → A → ℕ) (current x n : A) (xs : List A)
      → get_elem? (x ∷ xs) (best_loop (distance current) 0 0 none (x ∷ xs)) ≡ some n
      → visit (suc fuel) distance current (x ∷ xs)
        ≡ n
          ∷ visit fuel distance n
              (remove_at (best_loop (distance current) 0 0 none (x ∷ xs)) (x ∷ xs))
  unfolding visit
  visit-cons fuel distance current x n xs g = rw (visit, g) refl

  -- From each node the route goes on to a node that is not farther than any that follows.
  abbrev pub IsGreedy : (A → A → ℕ) → List A → Type 0
  IsGreedy distance [] = Unit
  IsGreedy distance (x ∷ []) = Unit
  IsGreedy distance (x ∷ y ∷ ys) =
      All (λ z. distance x y ≤ distance x z) ys × IsGreedy distance (y ∷ ys)

  -- What the rounds do from one node on, with enough fuel.
  visit_count :
      (p : A → Bool) (fuel : ℕ) (distance : A → A → ℕ) (current : A) (xs : List A)
      → length xs ≤ fuel
      → count p (visit fuel distance current xs) ≡ count p xs
  unfolding visit
  visit_count p zero distance current [] h = refl
  visit_count p zero distance current (x ∷ xs) h = absurd (omega arith)
  visit_count p (suc fuel) distance current [] h = refl
  visit_count p (suc fuel) distance current (x ∷ xs) h =
      let i = best_loop (distance current) 0 0 none (x ∷ xs) in
      let (n, g, _) = best_lem (distance current) x xs in
      let shorter = length-remove_at i n (x ∷ xs) g in
      let rest = visit_count p fuel distance n (remove_at i (x ∷ xs)) (omega (arith, shorter, h)) in
      rw (visit-cons fuel distance current x n xs g) (
        count-cons p n (visit fuel distance n (remove_at i (x ∷ xs)))
        ∙ ap (λ k. count p (n ∷ []) + k) rest
        ∙ count-remove_at p i n (x ∷ xs) g)

  All-visit :
      (P : A → Type 0) (fuel : ℕ) (distance : A → A → ℕ) (current : A) (xs : List A)
      → All P xs
      → All P (visit fuel distance current xs)
  unfolding visit
  All-visit P zero distance current xs h = tt
  All-visit P (suc fuel) distance current [] h = tt
  All-visit P (suc fuel) distance current (x ∷ xs) h =
      let i = best_loop (distance current) 0 0 none (x ∷ xs) in
      let (n, g, _) = best_lem (distance current) x xs in
      rw (visit-cons fuel distance current x n xs g) (
        All-get P i n (x ∷ xs) h g,
        All-visit P fuel distance n (remove_at i (x ∷ xs)) (All-remove_at P i (x ∷ xs) h),
      )

  visit-IsGreedy :
      (fuel : ℕ) (distance : A → A → ℕ) (current : A) (xs : List A)
      → IsGreedy distance (current ∷ visit fuel distance current xs)
  unfolding visit
  visit-IsGreedy zero distance current xs = tt
  visit-IsGreedy (suc fuel) distance current [] = tt
  visit-IsGreedy (suc fuel) distance current (x ∷ xs) =
      let i = best_loop (distance current) 0 0 none (x ∷ xs) in
      let (n, g, nearest) = best_lem (distance current) x xs in
      rw (visit-cons fuel distance current x n xs g) (
        All-visit (λ z. distance current n ≤ distance current z) fuel distance n
            (remove_at i (x ∷ xs))
            (All-remove_at (λ z. distance current n ≤ distance current z) i (x ∷ xs) nearest),
        visit-IsGreedy fuel distance n (remove_at i (x ∷ xs)),
      )

  -- Whatever the distances are, the loop comes to its end with a route that visits each node once: any
  -- property of nodes holds for as many on the route as among the nodes. It begins at the first node,
  -- and from each node it goes on to one that is not farther than any node visited later.
  pub nearest_neighbor_lem :
      (distance : A → A → ℕ) (x : A) (xs : List A)
      → let route = nearest_neighbor distance (x ∷ xs) in
        ((p : A → Bool) → count p route ≡ count p (x ∷ xs))
        × (get_elem? route 0 ≡ some x)
        × IsGreedy distance route
  unfolding nearest_neighbor
  nearest_neighbor_lem distance x xs = (
    λ p.
        count-cons p x (visit (length xs) distance x xs)
        ∙ ap (λ k. count p (x ∷ []) + k) (visit_count p (length xs) distance x xs (omega arith))
        ∙ sym (count-cons p x xs),
    refl,
    visit-IsGreedy (length xs) distance x xs,
  )
