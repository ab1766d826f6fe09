-- ===== src/Replenishment/Suggestion/Laws.antt =====
-- What the suggestion by minimum and maximum reaches.
use awmsom.Base.{
  ◌≡◌, refl, ◌⊎◌, inl, inr, true, ℤ, pos, negsuc, pos_part, neg_part, ◌+ℤ◌, ◌-ℤ◌, ◌≤ℤ◌, ltb_ℤ,
  arith, Bool-cases, -ℤ_parts, +ℤ_parts, ap, eq_of_parts, suc,
}
use awmsom.Replenishment.Suggestion.{
  min_max, ReplenishmentPolicy, or_zero, at_least_zero, compute_suggestion,
}

fills_by :
    (low high stock d : ℤ)
    → d ≡ high -ℤ stock
    → ltb_ℤ stock low ≡ true
    → low ≤ℤ high
    → (pos 1 ≤ℤ at_least_zero d) × (stock +ℤ at_least_zero d ≡ high)
fills_by low high stock (pos n) e l h =
    let d = -ℤ_parts high stock in
    let p : n ≡ pos_part (high -ℤ stock) = ap pos_part e in
    let z : 0 ≡ neg_part (high -ℤ stock) = ap neg_part e in
    (ground arith, let c = +ℤ_parts stock (pos n) in eq_of_parts _ _ (omega arith))
fills_by low high stock (negsuc n) e l h =
    let d = -ℤ_parts high stock in
    let p : 0 ≡ pos_part (high -ℤ stock) = ap pos_part e in
    let z : suc n ≡ neg_part (high -ℤ stock) = ap neg_part e in absurd (ground arith)

fills :
    (low high stock : ℤ)
    → ltb_ℤ stock low ≡ true
    → low ≤ℤ high
    → (pos 1 ≤ℤ at_least_zero (high -ℤ stock)) × (stock +ℤ at_least_zero (high -ℤ stock) ≡ high)
fills low high stock l h = fills_by low high stock (high -ℤ stock) refl l h

is_below : (a b : ℤ) → ltb_ℤ a b ≡ true → a +ℤ pos 1 ≤ℤ b
is_below a b h = let e = +ℤ_parts a (pos 1) in ground (arith, h, e)

module _ (shortfall : ℤ → ℤ → ℤ) where
  -- By minimum and maximum, where the minimum is at most the maximum, and for quantities of whole units:
  -- either the stock is at the minimum or above and the suggestion is 0, or the stock is below the
  -- minimum and the suggestion is positive and fills it up to the maximum exactly.
  pub min_max_suggestion_lem :
      (policy : ReplenishmentPolicy) (stock : ℤ)
      → policy.method ≡ min_max
      → or_zero policy.min_qty ≤ℤ or_zero policy.max_qty
      → let q = compute_suggestion shortfall policy stock in
        ((or_zero policy.min_qty ≤ℤ stock) × (q ≡ pos 0))
        ⊎ ((stock +ℤ pos 1 ≤ℤ or_zero policy.min_qty)
            × (pos 1 ≤ℤ q)
            × (stock +ℤ q ≡ or_zero policy.max_qty))
  unfolding compute_suggestion
  min_max_suggestion_lem policy stock e h =
      elim (Bool-cases (ltb_ℤ stock (or_zero policy.min_qty))) [
        | inr enough ↦ rw (e, enough) (inl (ground (arith, enough), refl))
        | inl low ↦
            let (positive, full) = fills _ _ _ low h in
            rw (e, low) (inr (is_below stock (or_zero policy.min_qty) low, positive, full))
      ]
