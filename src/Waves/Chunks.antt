-- ===== src/Waves/Chunks.antt =====
-- chunkArray: a list cut into pieces of one size.
use awmsom.Base.{
  ℕ, zero, suc, ◌+◌, ◌≤◌, ◌≡◌, refl, sym, ◌∙◌, ap, List, [], ◌∷◌, ◌++◌, take, length, arith,
}

module _ {A : Type 0} where
  -- `arr.slice(size)`
  abbrev pub drop : ℕ → List A → List A
  drop zero xs = xs
  drop (suc n) [] = []
  drop (suc n) (x ∷ xs) = drop n xs

  -- The rounds of the loop from one position on, at most `fuel` of them.
  pub chunks_from : ℕ → ℕ → List A → List (List A)
  chunks_from zero size xs = []
  chunks_from (suc fuel) size [] = []
  chunks_from (suc fuel) size (x ∷ xs) =
      let rest = chunks_from fuel size (drop size (x ∷ xs)) in take size (x ∷ xs) ∷ rest

  -- Each round takes one element at least, so the length of the list is enough fuel.
  unfoldable pub chunk_array : List A → ℕ → List (List A)
  unfolding chunks_from
  chunk_array xs zero = xs ∷ []
  chunk_array xs (suc n) = chunks_from (length xs) (suc n) xs

  abbrev pub join : List (List A) → List A
  join [] = []
  join (xs ∷ xss) = xs ++ join xss

  -- Each piece but the last has the size, and the last has one element at least and the size at most.
  abbrev pub IsCut : ℕ → List (List A) → Type 0
  IsCut n [] = Unit
  IsCut n (xs ∷ []) = (1 ≤ length xs) × (length xs ≤ n)
  IsCut n (xs ∷ ys ∷ xss) = (length xs ≡ n) × IsCut n (ys ∷ xss)

  take-drop : (n : ℕ) (xs : List A) → take n xs ++ drop n xs ≡ xs
  take-drop zero xs = refl
  take-drop (suc n) [] = refl
  take-drop (suc n) (x ∷ xs) = ap (λ l. x ∷ l) (take-drop n xs)

  length-take : (n : ℕ) (xs : List A) → length (take n xs) ≤ n
  length-take zero xs = omega arith
  length-take (suc n) [] = omega arith
  length-take (suc n) (x ∷ xs) = omega (arith, length-take n xs)

  length-drop : (n : ℕ) (xs : List A) → length (take n xs) + length (drop n xs) ≡ length xs
  length-drop zero xs = omega arith
  length-drop (suc n) [] = refl
  length-drop (suc n) (x ∷ xs) = omega (arith, length-drop n xs)

  -- What is left is nothing, or the piece was whole.
  take-whole :
      (n : ℕ) (xs : List A) (y : A) (ys : List A) → drop n xs ≡ y ∷ ys → length (take n xs) ≡ n
  take-whole zero xs y ys h = refl
  take-whole (suc n) [] y ys h = cc
  take-whole (suc n) (x ∷ xs) y ys h = omega (arith, take-whole n xs y ys h)

  first_filled : (n : ℕ) (c : List A) (cs : List (List A)) → IsCut (suc n) (c ∷ cs) → 1 ≤ length c
  first_filled n c [] h = h.0
  first_filled n c (d ∷ cs) h = omega (arith, h.0)

  IsCut-cons :
      (n : ℕ) (piece : List A) (cs : List (List A))
      → 1 ≤ length piece
      → length piece ≤ suc n
      → IsCut (suc n) cs
      → ((y : A) (ys : List A) → join cs ≡ y ∷ ys → length piece ≡ suc n)
      → IsCut (suc n) (piece ∷ cs)
  IsCut-cons n piece [] lo hi h whole = (lo, hi)
  IsCut-cons n piece ([] ∷ cs) lo hi h whole = absurd (omega (arith, first_filled n [] cs h))
  IsCut-cons n piece ((y ∷ ys) ∷ cs) lo hi h whole = (whole y (ys ++ join cs) refl, h)

  append_nil : (xs : List A) → xs ++ [] ≡ xs
  append_nil [] = refl
  append_nil (x ∷ xs) = ap (λ l. x ∷ l) (append_nil xs)

  chunks_from_lem :
      (fuel n : ℕ) (xs : List A)
      → length xs ≤ fuel
      → (join (chunks_from fuel (suc n) xs) ≡ xs) × IsCut (suc n) (chunks_from fuel (suc n) xs)
  unfolding chunks_from
  chunks_from_lem zero n [] h = (refl, tt)
  chunks_from_lem zero n (x ∷ xs) h = absurd (omega arith)
  chunks_from_lem (suc fuel) n [] h = (refl, tt)
  chunks_from_lem (suc fuel) n (x ∷ xs) h =
      let (same, cut) = chunks_from_lem fuel n (drop n xs) (omega (arith, length-drop n xs)) in
      (
        ap (λ l. x ∷ take n xs ++ l) same ∙ ap (λ l. x ∷ l) (take-drop n xs),
        IsCut-cons n (x ∷ take n xs) (chunks_from fuel (suc n) (drop n xs)) (omega arith)
            (omega (arith, length-take n xs)) cut
            (λ y ys e. let whole = take-whole n xs y ys (sym same ∙ e) in omega (arith, whole)),
      )

  -- The pieces put together again are the list, and each has the size, but for the last one, which
  -- may be shorter and is not empty.
  pub chunk_array_lem :
      (xs : List A) (n : ℕ)
      → (join (chunk_array xs (suc n)) ≡ xs) × IsCut (suc n) (chunk_array xs (suc n))
  unfolding chunk_array
  chunk_array_lem xs n = chunks_from_lem (length xs) n xs (omega arith)

  pub join-chunk_array : (xs : List A) (n : ℕ) → join (chunk_array xs n) ≡ xs
  unfolding chunk_array
  join-chunk_array xs zero = append_nil xs
  join-chunk_array xs (suc n) = (chunks_from_lem (length xs) n xs (omega arith)).0
