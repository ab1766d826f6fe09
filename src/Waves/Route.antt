-- ===== src/Waves/Route.antt =====
-- nearestNeighbor: the order in which the locations of a wave are visited. The distance is a parameter,
-- since generatePickingPathForWave takes it from a cache where it can; it is finite.
pub mod Laws
use awmsom.Base.{
  ℕ, zero, suc, Bool, true, false, Option, none, some, List, [], ◌∷◌, ltb, length, get_elem?,
}

module _ {A : Type 0} where
  -- `remaining.forEach`: the position of the first of the nearest, with `Infinity` as `none`.
  pub best_loop : (A → ℕ) → ℕ → ℕ → Option ℕ → List A → ℕ
  best_loop d idx best m [] = best
  best_loop d idx best none (x ∷ xs) = best_loop d (suc idx) idx (some (d x)) xs
  best_loop d idx best (some m) (x ∷ xs) = elim (ltb (d x) m) [
    | true ↦ best_loop d (suc idx) idx (some (d x)) xs
    | false ↦ best_loop d (suc idx) best (some m) xs
  ]

  -- What `remaining.splice(i, 1)` leaves.
  abbrev pub remove_at : ℕ → List A → List A
  remove_at i [] = []
  remove_at zero (x ∷ xs) = xs
  remove_at (suc i) (x ∷ xs) = x ∷ remove_at i xs

  -- `while (remaining.length)`, for at most `fuel` rounds. Each round takes one node away, so the number
  -- of the remaining nodes is enough.
  pub visit : ℕ → (A → A → ℕ) → A → List A → List A
  unfolding best_loop
  visit zero distance current remaining = []
  visit (suc fuel) distance current [] = []
  visit (suc fuel) distance current (x ∷ xs) =
      elim (get_elem? (x ∷ xs) (best_loop (distance current) 0 0 none (x ∷ xs))) [
        | none ↦ []
        | some next ↦
            next
            ∷ visit fuel distance next
                (remove_at (best_loop (distance current) 0 0 none (x ∷ xs)) (x ∷ xs))
      ]

  unfoldable pub nearest_neighbor : (A → A → ℕ) → List A → List A
  unfolding visit
  nearest_neighbor distance [] = []
  nearest_neighbor distance (x ∷ xs) = x ∷ visit (length xs) distance x xs
