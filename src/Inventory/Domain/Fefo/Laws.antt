-- ===== src/Inventory/Domain/Fefo/Laws.antt =====
-- What is selected is eligible and no other lot is due before it.
use awmsom.Base.{
  ℕ, zero, suc, ◌≤◌, ◌≡◌, ◌≢◌, refl, ◌⊎◌, inl, inr, Bool, true, false, Option, none, some, List, [],
  ◌∷◌, keep, All, arith, Bool-cases, ok, err, ap, plain_error, no_fefo_lot,
}
use awmsom.Schema.{available, same_status-eq}
use awmsom.Inventory.Domain.Stock.{StockItem}
use awmsom.Inventory.Domain.Fefo.{
  has_lot, is_eligible, created_before, expires_before, sorts_before, place_lot, sort_lots,
  first_of, select_fefo_lot,
}

abbrev pub LotIn : StockItem → List StockItem → Type 0
LotIn x [] = ⊥
LotIn x (y ∷ ys) = (x ≡ y) ⊎ LotIn x ys

-- Every lot has a creation date.
abbrev pub HasCreation : List StockItem → Type 0
HasCreation items = All (λ x. x.created_at ≢ none) items

-- The comparison puts no lot of the list before `x`.
abbrev pub IsForemost : StockItem → List StockItem → Type 0
IsForemost x items = All (λ y. expires_before y x ≡ false) items

created_before_trans :
    (a b c : Option ℕ)
    → b ≢ none
    → created_before b a ≡ false
    → created_before c b ≡ false
    → created_before c a ≡ false
created_before_trans a none c h p q = absurd (h refl)
created_before_trans none (some b) none h p q = refl
created_before_trans none (some b) (some c) h p q = refl
created_before_trans (some a) (some b) none h p q = refl
created_before_trans (some a) (some b) (some c) h p q = ground arith

sorts_before_trans :
    (ea eb ec a b c : Option ℕ)
    → b ≢ none
    → sorts_before eb ea b a ≡ false
    → sorts_before ec eb c b ≡ false
    → sorts_before ec ea c a ≡ false
sorts_before_trans none none none a b c h p q = created_before_trans a b c h p q
sorts_before_trans none none (some z) a b c h p q = cc
sorts_before_trans none (some y) none a b c h p q = cc
sorts_before_trans none (some y) (some z) a b c h p q = cc
sorts_before_trans (some x) none none a b c h p q = refl
sorts_before_trans (some x) none (some z) a b c h p q = cc
sorts_before_trans (some x) (some y) none a b c h p q = refl
sorts_before_trans (some x) (some y) (some z) a b c h p q = ground arith

sorts_before_asym :
    (ea eb a b : Option ℕ) → sorts_before ea eb a b ≡ true → sorts_before eb ea b a ≡ false
sorts_before_asym none none none b h = cc
sorts_before_asym none none (some x) none h = cc
sorts_before_asym none none (some x) (some y) h = ground arith
sorts_before_asym none (some y) a b h = cc
sorts_before_asym (some x) none a b h = refl
sorts_before_asym (some x) (some y) a b h = ground arith

sorts_before_self : (e a : Option ℕ) → sorts_before e e a a ≡ false
sorts_before_self none none = refl
sorts_before_self none (some x) = ground arith
sorts_before_self (some x) a = ground arith

-- A lot that is due no later than `y` is due no later than those that `y` is due no later than.
IsForemost-trans :
    (x y : StockItem) (ys : List StockItem)
    → y.created_at ≢ none
    → expires_before y x ≡ false
    → IsForemost y ys
    → IsForemost x ys
IsForemost-trans x y [] h p q = tt
IsForemost-trans x y (z ∷ ys) h p (q, qs) = (
  sorts_before_trans x.expiration_date y.expiration_date z.expiration_date x.created_at y.created_at
      z.created_at h p q,
  IsForemost-trans x y ys h p qs,
)

-- What stands first after sorting.
sort_lots-IsForemost :
    (items : List StockItem)
    → HasCreation items
    → ((items ≡ []) × (sort_lots items ≡ []))
      ⊎ ((x : StockItem) × (rest : List StockItem) × (sort_lots items ≡ x ∷ rest)
          × LotIn x items
          × (x.created_at ≢ none)
          × IsForemost x items)
unfolding sort_lots place_lot
sort_lots-IsForemost [] h = inl (refl, refl)
sort_lots-IsForemost (y ∷ items) (h, hs) = inr (go (sort_lots-IsForemost items hs))
  where
    go :
        ((items ≡ []) × (sort_lots items ≡ []))
          ⊎ ((x : StockItem) × (rest : List StockItem) × (sort_lots items ≡ x ∷ rest)
              × LotIn x items
              × (x.created_at ≢ none)
              × IsForemost x items)
        → (x : StockItem) × (rest : List StockItem) × (place_lot y (sort_lots items) ≡ x ∷ rest)
          × LotIn x (y ∷ items)
          × (x.created_at ≢ none)
          × IsForemost x (y ∷ items)
    go (inl (none_left, e)) = (
      y,
      [],
      rw e refl,
      inl refl,
      h,
      rw none_left (sorts_before_self y.expiration_date y.created_at, tt),
    )
    go (inr (x, rest, e, i, c, f)) = elim (Bool-cases (expires_before x y)) [
      | inl due ↦ (
        x,
        place_lot y rest,
        rw (e, due) refl,
        inr i,
        c,
        (sorts_before_asym x.expiration_date y.expiration_date x.created_at y.created_at due, f),
      )
      | inr later ↦ (
        y,
        x ∷ rest,
        rw (e, later) refl,
        inl refl,
        h,
        (sorts_before_self y.expiration_date y.created_at, IsForemost-trans y x items c later f),
      )
    ]

HasCreation-keep :
    (p : StockItem → Bool) (lots : List StockItem) → HasCreation lots → HasCreation (keep p lots)
HasCreation-keep p [] h = tt
HasCreation-keep p (x ∷ lots) (h, hs) = elim (Bool-cases (p x)) [
  | inl kept ↦ rw kept (h, HasCreation-keep p lots hs)
  | inr left_out ↦ rw left_out (HasCreation-keep p lots hs)
]

-- Available, under a lot code that is not empty.
abbrev pub IsEligible : StockItem → Type 0
IsEligible x = (x.stock_state ≡ available) × (n : ℕ) × (x.lot_code ≡ some (suc n))

is_eligible-IsEligible : (x : StockItem) → is_eligible x ≡ true → IsEligible x
is_eligible-IsEligible x h =
    let (n, e) = code x.lot_code (ground (arith, h)) in
    (same_status-eq x.stock_state available (ground (arith, h)), n, e)
  where
    code : (o : Option ℕ) → has_lot o ≡ true → (n : ℕ) × (o ≡ some (suc n))
    code none e = cc
    code (some zero) e = cc
    code (some (suc n)) e = (n, refl)

IsEligible-is_eligible : (x : StockItem) → IsEligible x → is_eligible x ≡ true
IsEligible-is_eligible x (e, n, k) = rw (e, k) refl

-- The first date is no later than the second; a missing creation date settles nothing.
abbrev pub CreatedBy : Option ℕ → Option ℕ → Type 0
CreatedBy (some a) (some b) = a ≤ b
CreatedBy (some a) none = Unit
CreatedBy none b = Unit

-- The first lot is due no later than the second: by the expiration dates, a missing one being the last,
-- and by the creation dates where neither expires.
abbrev pub DueBy : Option ℕ → Option ℕ → Option ℕ → Option ℕ → Type 0
DueBy (some a) (some b) ca cb = a ≤ b
DueBy (some a) none ca cb = Unit
DueBy none (some b) ca cb = ⊥
DueBy none none ca cb = CreatedBy ca cb

abbrev pub IsDueBy : StockItem → StockItem → Type 0
IsDueBy x y = DueBy x.expiration_date y.expiration_date x.created_at y.created_at

sorts_before-DueBy : (ea eb a b : Option ℕ) → sorts_before eb ea b a ≡ false → DueBy ea eb a b
sorts_before-DueBy (some x) (some y) a b h = ground (arith, h)
sorts_before-DueBy (some x) none a b h = tt
sorts_before-DueBy none (some y) a b h = cc
sorts_before-DueBy none none (some x) (some y) h = ground (arith, h)
sorts_before-DueBy none none (some x) none h = tt
sorts_before-DueBy none none none b h = tt

LotIn-keep :
    (x : StockItem) (lots : List StockItem)
    → LotIn x (keep is_eligible lots)
    → LotIn x lots × (is_eligible x ≡ true)
LotIn-keep x [] h = absurd h
LotIn-keep x (y ∷ lots) h = elim (Bool-cases (is_eligible y)) [
  | inr left_out ↦ let (i, k) = LotIn-keep x lots (rw left_out at h) in (inr i, k)
  | inl kept ↦ elim (the_kept kept) [
    | inl same ↦ (inl same, rw same kept)
    | inr later ↦ let (i, k) = LotIn-keep x lots later in (inr i, k)
  ]
]
  where
    the_kept : is_eligible y ≡ true → (x ≡ y) ⊎ LotIn x (keep is_eligible lots)
    the_kept e = rw e at h

none_kept : (lots : List StockItem) → keep is_eligible lots ≡ [] → All (λ y. IsEligible y → ⊥) lots
none_kept [] h = tt
none_kept (y ∷ lots) h = elim (Bool-cases (is_eligible y)) [
  | inl kept ↦ absurd (ground (arith, h, kept))
  | inr left_out ↦
      (λ e. ground (arith, left_out, IsEligible-is_eligible y e), none_kept lots (rw left_out at h))
]

IsForemost-keep :
    (x : StockItem) (lots : List StockItem)
    → IsForemost x (keep is_eligible lots)
    → All (λ y. IsEligible y → IsDueBy x y) lots
IsForemost-keep x [] h = tt
IsForemost-keep x (y ∷ lots) h = elim (Bool-cases (is_eligible y)) [
  | inl kept ↦
      let (first, rest) = the_kept kept in
      (
        λ e. sorts_before-DueBy x.expiration_date y.expiration_date x.created_at y.created_at first,
        IsForemost-keep x lots rest,
      )
  | inr left_out ↦ (
    λ e. absurd (ground (arith, left_out, IsEligible-is_eligible y e)),
    IsForemost-keep x lots (rw left_out at h),
  )
]
  where
    the_kept :
        is_eligible y ≡ true → (expires_before y x ≡ false) × IsForemost x (keep is_eligible lots)
    the_kept e = rw e at h

-- Where every lot has a creation date, either no lot is available under a lot code that is not empty,
-- and the selection throws, or it returns one of the lots that are, and each other of them is due no
-- earlier: by the expiration date, a missing one last, or by the creation date where neither expires.
pub select_fefo_lot_lem :
    (lots : List StockItem)
    → HasCreation lots
    → (All (λ y. IsEligible y → ⊥) lots × (select_fefo_lot lots ≡ err (plain_error no_fefo_lot)))
      ⊎ ((x : StockItem) × (select_fefo_lot lots ≡ ok x)
          × LotIn x lots
          × IsEligible x
          × All (λ y. IsEligible y → IsDueBy x y) lots)
unfolding select_fefo_lot
select_fefo_lot_lem lots h =
    elim (sort_lots-IsForemost (keep is_eligible lots) (HasCreation-keep is_eligible lots h)) [
      | inl (none_left, e) ↦ inl (none_kept lots none_left, ap first_of e)
      | inr (x, rest, e, i, c, f) ↦
          let (inside, eligible) = LotIn-keep x lots i in
          inr
            (x, ap first_of e, inside, is_eligible-IsEligible x eligible, IsForemost-keep x lots f)
    ]
