-- ===== src/Slotting/Abc/Laws.antt =====
-- The classes of calculateAbc: what they share and how they are ordered.
use awmsom.Base.{
  ℕ, zero, suc, ◌+◌, ◌*◌, ◌≤◌, ◌≡◌, refl, sym, ◌∙◌, ap, ◌⊎◌, inl, inr, Bool, true, false, leb,
  if◌then◌else◌, List, [], ◌∷◌, map, All, arith, Bool-cases,
}
use awmsom.Slotting.Abc.{
  AbcClass, class_a, class_b, class_c, place_entry, sort_entries, sum_entries, or_one, class_of,
  classify, calculate_abc,
}

abbrev pub rank : AbcClass → ℕ
rank class_a = 0
rank class_b = 1
rank class_c = 2

-- The consumption of the classes up to a rank.
abbrev pub consumed_up_to : ℕ → List ((ℕ × ℕ) × AbcClass) → ℕ
consumed_up_to k [] = 0
consumed_up_to k (x ∷ xs) = (if leb (rank x.1) k then x.0.1 else 0) + consumed_up_to k xs

-- How many entries pass a test.
abbrev pub number : (ℕ × ℕ → Bool) → List (ℕ × ℕ) → ℕ
number p [] = 0
number p (x ∷ xs) = (if p x then 1 else 0) + number p xs

-- No entry consumes more than one before it, nor has a better class.
abbrev pub IsRanked : List ((ℕ × ℕ) × AbcClass) → Type 0
IsRanked [] = Unit
IsRanked (x ∷ xs) = All (λ y. (y.0.1 ≤ x.0.1) × (rank x.1 ≤ rank y.1)) xs × IsRanked xs

abbrev IsDescending : List (ℕ × ℕ) → Type 0
IsDescending [] = Unit
IsDescending (x ∷ xs) = All (λ y. y.1 ≤ x.1) xs × IsDescending xs

number-place_entry :
    (p : ℕ × ℕ → Bool) (x : ℕ × ℕ) (ys : List (ℕ × ℕ))
    → number p (place_entry x ys) ≡ (if p x then 1 else 0) + number p ys
number-place_entry p x [] = refl
number-place_entry p x (y ∷ ys) = elim (Bool-cases (leb y.1 x.1)) [
  | inl h ↦ rw h refl
  | inr h ↦ rw (h, number-place_entry p x ys) (omega arith)
]

number-sort_entries :
    (p : ℕ × ℕ → Bool) (xs : List (ℕ × ℕ)) → number p (sort_entries xs) ≡ number p xs
number-sort_entries p [] = refl
number-sort_entries p (x ∷ xs) =
    rw (number-place_entry p x (sort_entries xs), number-sort_entries p xs) refl

classify-entries :
    (total from : ℕ) (xs : List (ℕ × ℕ)) → map (λ y. y.0) (classify total from xs) ≡ xs
classify-entries total from [] = refl
classify-entries total from (x ∷ xs) = ap (λ ys. x ∷ ys) (classify-entries total (from + x.1) xs)

bounded-place_entry :
    (b : ℕ) (x : ℕ × ℕ) (ys : List (ℕ × ℕ))
    → x.1 ≤ b
    → All (λ y. y.1 ≤ b) ys
    → All (λ y. y.1 ≤ b) (place_entry x ys)
bounded-place_entry b x [] h a = (h, tt)
bounded-place_entry b x (y ∷ ys) h a = elim (Bool-cases (leb y.1 x.1)) [
  | inl e ↦ rw e (h, a)
  | inr e ↦ rw e (a.0, bounded-place_entry b x ys h a.1)
]

bounded-below :
    (b c : ℕ) (ys : List (ℕ × ℕ)) → b ≤ c → All (λ y. y.1 ≤ b) ys → All (λ y. y.1 ≤ c) ys
bounded-below b c [] h a = tt
bounded-below b c (y ∷ ys) h a = (omega (arith, a.0), bounded-below b c ys h a.1)

place_entry-IsDescending :
    (x : ℕ × ℕ) (ys : List (ℕ × ℕ)) → IsDescending ys → IsDescending (place_entry x ys)
place_entry-IsDescending x [] d = (tt, tt)
place_entry-IsDescending x (y ∷ ys) d = elim (Bool-cases (leb y.1 x.1)) [
  | inl e ↦ let h : y.1 ≤ x.1 = ground (arith, e) in rw e ((h, bounded-below y.1 x.1 ys h d.0), d)
  | inr e ↦
      rw e (bounded-place_entry y.1 x ys (ground (arith, e)) d.0, place_entry-IsDescending x ys d.1)
]

sort_entries-IsDescending : (xs : List (ℕ × ℕ)) → IsDescending (sort_entries xs)
sort_entries-IsDescending [] = tt
sort_entries-IsDescending (x ∷ xs) =
    place_entry-IsDescending x (sort_entries xs) (sort_entries-IsDescending xs)

class_of_mono : (total a b : ℕ) → a ≤ b → rank (class_of total a) ≤ rank (class_of total b)
class_of_mono total a b h = ground arith

classify_below :
    (total at from b : ℕ) (xs : List (ℕ × ℕ))
    → at ≤ from
    → All (λ y. y.1 ≤ b) xs
    → All (λ y. (y.0.1 ≤ b) × (rank (class_of total at) ≤ rank y.1)) (classify total from xs)
classify_below total at from b [] h a = tt
classify_below total at from b (x ∷ xs) h a = (
  (a.0, class_of_mono total at (from + x.1) (omega arith)),
  classify_below total at (from + x.1) b xs (omega arith) a.1,
)

classify-IsRanked :
    (total from : ℕ) (xs : List (ℕ × ℕ)) → IsDescending xs → IsRanked (classify total from xs)
classify-IsRanked total from [] d = tt
classify-IsRanked total from (x ∷ xs) d = (
  classify_below total (from + x.1) (from + x.1) x.1 xs (omega arith) d.0,
  classify-IsRanked total (from + x.1) xs d.1,
)

-- A class up to rank `k` is given only where the cumulative consumption is within the limit `m`.
abbrev Limits : ℕ → ℕ → ℕ → Type 0
Limits k m total =
    (at : ℕ)
    → ((leb (rank (class_of total at)) k ≡ true) × (at * 100 ≤ m))
      ⊎ (leb (rank (class_of total at)) k ≡ false)

limit_of_a : (total : ℕ) → Limits 0 (total * 80) total
limit_of_a total at = elim (Bool-cases (leb (at * 10) (total * 8))) [
  | inl h ↦ inl (rw h refl, ground (arith, h))
  | inr h ↦ inr (ground (arith, h))
]

limit_of_b : (total : ℕ) → Limits 1 (total * 95) total
limit_of_b total at = elim (Bool-cases (leb (at * 10) (total * 8))) [
  | inl h ↦ inl (rw h refl, ground (arith, h))
  | inr h ↦ elim (Bool-cases (leb (at * 100) (total * 95))) [
    | inl h' ↦ inl (rw (h, h') refl, ground (arith, h'))
    | inr h' ↦ inr (rw (h, h') refl)
  ]
]

counted_in :
    (from q c m : ℕ)
    → (from + q) * 100 ≤ m
    → (c ≡ 0) ⊎ ((from + q + c) * 100 ≤ m)
    → (q + c ≡ 0) ⊎ ((from + (q + c)) * 100 ≤ m)
counted_in from q c m h (inl e) = inr (omega arith)
counted_in from q c m h (inr e) = inr (omega arith)

passed_over :
    (from q c m : ℕ)
    → (c ≡ 0) ⊎ ((from + q + c) * 100 ≤ m)
    → (0 + c ≡ 0) ⊎ ((from + (0 + c)) * 100 ≤ m)
passed_over from q c m (inl e) = inl (omega arith)
passed_over from q c m (inr e) = inr (omega arith)

classify_within :
    (k m total : ℕ)
    → Limits k m total
    → (from : ℕ) (xs : List (ℕ × ℕ))
    → let c = consumed_up_to k (classify total from xs) in (c ≡ 0) ⊎ ((from + c) * 100 ≤ m)
classify_within k m total limit from [] = inl refl
classify_within k m total limit from (x ∷ xs) =
    let rest = classify_within k m total limit (from + x.1) xs in
    elim (limit (from + x.1)) [
      | inl h ↦ rw (h.0) (counted_in from x.1 _ m h.1 rest)
      | inr h ↦ rw h (passed_over from x.1 _ m rest)
    ]

sum-place_entry :
    (x : ℕ × ℕ) (ys : List (ℕ × ℕ)) → sum_entries (place_entry x ys) ≡ x.1 + sum_entries ys
sum-place_entry x [] = refl
sum-place_entry x (y ∷ ys) = elim (Bool-cases (leb y.1 x.1)) [
  | inl h ↦ rw h refl
  | inr h ↦ rw (h, sum-place_entry x ys) (omega arith)
]

sum-sort_entries : (xs : List (ℕ × ℕ)) → sum_entries (sort_entries xs) ≡ sum_entries xs
sum-sort_entries [] = refl
sum-sort_entries (x ∷ xs) = rw (sum-place_entry x (sort_entries xs), sum-sort_entries xs) refl

within_total :
    (c total share : ℕ)
    → share ≤ 99
    → (c ≡ 0) ⊎ ((0 + c) * 100 ≤ or_one total * share)
    → c * 100 ≤ total * share
within_total c total share s (inl e) = omega arith
within_total c zero share s (inr e) = omega arith
within_total c (suc n) share s (inr e) = omega arith

-- The classes of the products, each with its consumption: every product has one; the products come by
-- their consumption, the largest first, and none has a better class than one before it; those of class
-- A together take at most 80 percent of the whole consumption, and those of A and B at most 95 percent.
pub calculate_abc_lem :
    (consumptions : List (ℕ × ℕ))
    → let classes = calculate_abc consumptions in
      ((p : ℕ × ℕ → Bool) → number p (map (λ y. y.0) classes) ≡ number p consumptions)
      × IsRanked classes
      × (consumed_up_to 0 classes * 100 ≤ sum_entries consumptions * 80)
      × (consumed_up_to 1 classes * 100 ≤ sum_entries consumptions * 95)
unfolding calculate_abc
calculate_abc_lem cs =
    let entries = sort_entries cs in
    let total = or_one (sum_entries entries) in
    let sums = sum-sort_entries cs in
    (
      λ p. ap (number p) (classify-entries total 0 entries) ∙ number-sort_entries p cs,
      classify-IsRanked total 0 entries (sort_entries-IsDescending cs),
      rw (sym sums) (
          within_total _ (sum_entries entries) 80 (omega arith)
            (classify_within 0 _ total (limit_of_a total) 0 entries)),
      rw (sym sums) (
          within_total _ (sum_entries entries) 95 (omega arith)
            (classify_within 1 _ total (limit_of_b total) 0 entries)),
    )
