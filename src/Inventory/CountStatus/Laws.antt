-- ===== src/Inventory/CountStatus/Laws.antt =====
-- Which status determineCountStockStatus chooses among the sums by status.
use awmsom.Base.{
  ◌≡◌, refl, ◌⊎◌, inl, inr, Bool, true, false, none, some, List, [], ◌∷◌, ℤ, pos, ◌≤ℤ◌, ltb_ℤ, ◌&&◌,
  find, All, arith, ap, ◌∙◌, ◌≢◌, Bool-cases, Option-cases,
}
use awmsom.Schema.{StockStatus, available, rank, same_status}
use awmsom.Inventory.CountStatus.{predominant, choose_status}

-- The group is one of the list.
abbrev pub In : StockStatus × ℤ → List (StockStatus × ℤ) → Type 0
In g [] = ⊥
In g (h ∷ hs) = (g ≡ h) ⊎ In g hs

abbrev is_available_stock : StockStatus × ℤ → Bool
is_available_stock g = same_status g.0 available && ltb_ℤ (pos 0) g.1

pub status-available : (a : StockStatus) → rank a ≡ 0 → a ≡ available
status-available available h = refl
status-available _ h = absurd (omega arith)

available_stock :
    (g : StockStatus × ℤ) → is_available_stock g ≡ true → (g.0 ≡ available) × (pos 1 ≤ℤ g.1)
available_stock g h = (status-available g.0 (ground arith), ground arith)

no_available_stock :
    (g : StockStatus × ℤ) → is_available_stock g ≡ false → (g.0 ≢ available) ⊎ (g.1 ≤ℤ pos 0)
no_available_stock g h = elim (Bool-cases (ltb_ℤ (pos 0) g.1)) [
  | inl positive ↦ inl (λ e. ground (arith, ap rank e))
  | inr negative ↦ inr (ground arith)
]

-- The reduction returns a group whose sum no other group of the list exceeds.
predominant-some :
    (c : StockStatus × ℤ) (gs : List (StockStatus × ℤ))
    → (g : StockStatus × ℤ) × (predominant (some c) gs ≡ some g)
      × ((g ≡ c) ⊎ In g gs)
      × (c.1 ≤ℤ g.1)
      × All (λ h. h.1 ≤ℤ g.1) gs
unfolding predominant
predominant-some c [] = (c, refl, inl refl, omega arith, tt)
predominant-some c (h ∷ gs) = elim (Bool-cases (ltb_ℤ c.1 h.1)) [
  | inl more ↦
      let (g, e, i, le, all) = predominant-some h gs in
      rw more (g, e, inr i, ground arith, (le, all))
  | inr less ↦
      let (g, e, i, le, all) = predominant-some c gs in
      rw less (g, e, later g i, le, (ground arith, all))
]
  where
    later : (g : StockStatus × ℤ) → (g ≡ c) ⊎ In g gs → (g ≡ c) ⊎ ((g ≡ h) ⊎ In g gs)
    later g (inl e) = inl e
    later g (inr i) = inr (inr i)

find-some :
    (gs : List (StockStatus × ℤ)) (g : StockStatus × ℤ)
    → find is_available_stock gs ≡ some g
    → In g gs × (is_available_stock g ≡ true)
find-some [] g h = cc
find-some (x ∷ gs) g h = elim (Bool-cases (is_available_stock x)) [
  | inl hit ↦ (inl (ground arith), ground arith)
  | inr miss ↦ let (i, t) = find-some gs g (rw miss at h) in (inr i, t)
]

find-none :
    (gs : List (StockStatus × ℤ))
    → find is_available_stock gs ≡ none
    → All (λ g. (g.0 ≢ available) ⊎ (g.1 ≤ℤ pos 0)) gs
find-none [] h = tt
find-none (x ∷ gs) h = elim (Bool-cases (is_available_stock x)) [
  | inl hit ↦ cc (rw hit at h)
  | inr miss ↦ (no_available_stock x miss, find-none gs (rw miss at h))
]

choose_status-nil : choose_status [] ≡ available
unfolding choose_status
choose_status-nil = refl

choose_status-found :
    (gs : List (StockStatus × ℤ)) (g : StockStatus × ℤ)
    → find is_available_stock gs ≡ some g
    → choose_status gs ≡ available
unfolding choose_status
choose_status-found gs g e = rw (e, choose_status)

choose_status-predominant :
    (gs : List (StockStatus × ℤ)) (g : StockStatus × ℤ)
    → find is_available_stock gs ≡ none
    → predominant none gs ≡ some g
    → choose_status gs ≡ g.0
unfolding choose_status
choose_status-predominant gs g e p = rw (e, p, choose_status)

predominant-cons :
    (x : StockStatus × ℤ) (gs : List (StockStatus × ℤ))
    → predominant none (x ∷ gs) ≡ predominant (some x) gs
unfolding predominant
predominant-cons x gs = refl

-- Where the available stock is positive, or there is no stock at all, the status is `available`;
-- otherwise it is that of a group whose sum no other group exceeds.
pub choose_status_lem :
    (groups : List (StockStatus × ℤ))
    → ((choose_status groups ≡ available)
        × ((groups ≡ [])
            ⊎ ((g : StockStatus × ℤ) × In g groups × (g.0 ≡ available) × (pos 1 ≤ℤ g.1))))
      ⊎ (All (λ h. (h.0 ≢ available) ⊎ (h.1 ≤ℤ pos 0)) groups
          × ((g : StockStatus × ℤ) × In g groups
              × (choose_status groups ≡ g.0)
              × All (λ h. h.1 ≤ℤ g.1) groups))
choose_status_lem [] = inl (choose_status-nil, inl refl)
choose_status_lem (x ∷ groups) = elim (Option-cases (find is_available_stock (x ∷ groups))) [
  | inr (g, e) ↦
      let (i, t) = find-some (x ∷ groups) g e in
      let (a, q) = available_stock g t in
      inl (choose_status-found (x ∷ groups) g e, inr (g, i, a, q))
  | inl e ↦
      let (g, p, i, le, all) = predominant-some x groups in
      inr (
        find-none (x ∷ groups) e,
        (
          g,
          i,
          choose_status-predominant (x ∷ groups) g e (predominant-cons x groups ∙ p),
          (le, all),
        ),
      )
]
