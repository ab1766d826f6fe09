-- ===== src/Waves/Grouping/Laws.antt =====
-- The orders of a run of generateWaves are divided among its waves.
use awmsom.Base.{
  ℕ, zero, suc, ◌+◌, ◌≤◌, ◌≡◌, refl, sym, ◌∙◌, ap, inl, inr, Bool, true, Option, none, some, List,
  [], ◌∷◌, ◌++◌, length, keep, All, arith, Bool-cases,
}
use awmsom.Schema.{OutboundOrder, WavePickingStrategy}
use awmsom.Waves.Chunks.{chunk_array, chunk_array_lem, join, join-chunk_array, IsCut}
use awmsom.Waves.Grouping.{
  GroupingKey, code, hour, no_window, level, build_grouping_key, same_key, push_order, group_orders,
  wave_size, cut_groups, plan_waves,
}

-- How many of them meet a test.
abbrev pub count {ℓ} : {A : Type ℓ} → (A → Bool) → List A → ℕ
count p xs = length (keep p xs)

pub count-append {ℓ} :
    {A : Type ℓ} (p : A → Bool) (xs ys : List A) → count p (xs ++ ys) ≡ count p xs + count p ys
count-append p [] ys = omega arith
count-append p (x ∷ xs) ys = ground (arith, count-append p xs ys)

append_assoc : {A : Type 0} (xs ys zs : List A) → (xs ++ ys) ++ zs ≡ xs ++ (ys ++ zs)
append_assoc [] ys zs = refl
append_assoc (x ∷ xs) ys zs = ap (λ l. x ∷ l) (append_assoc xs ys zs)

join-append : {A : Type 0} (xss yss : List (List A)) → join (xss ++ yss) ≡ join xss ++ join yss
join-append [] yss = refl
join-append (xs ∷ xss) yss =
    ap (λ l. xs ++ l) (join-append xss yss) ∙ sym (append_assoc xs (join xss) (join yss))

module _ {A : Type 0} (P : A → Type 0) where
  All-append : (xs ys : List A) → All P xs → All P ys → All P (xs ++ ys)
  All-append [] ys h k = k
  All-append (x ∷ xs) ys (p, h) k = (p, All-append xs ys h k)

  All-left : (xs ys : List A) → All P (xs ++ ys) → All P xs
  All-left [] ys h = tt
  All-left (x ∷ xs) ys (p, h) = (p, All-left xs ys h)

  All-right : (xs ys : List A) → All P (xs ++ ys) → All P ys
  All-right [] ys h = h
  All-right (x ∷ xs) ys (p, h) = All-right xs ys h

  All-pieces : (xss : List (List A)) → All P (join xss) → All (All P) xss
  All-pieces [] h = tt
  All-pieces (xs ∷ xss) h = (All-left xs (join xss) h, All-pieces xss (All-right xs (join xss) h))

abbrev Groups : Type 0
Groups = List (GroupingKey × List (ℕ × OutboundOrder))

abbrev total : (ℕ × OutboundOrder → Bool) → Groups → ℕ
total p [] = 0
total p (g ∷ groups) = count p g.1 + total p groups

push_order-total :
    (p : ℕ × OutboundOrder → Bool) (key : GroupingKey) (o : ℕ × OutboundOrder) (groups : Groups)
    → total p (push_order key o groups) ≡ count p (o ∷ []) + total p groups
unfolding push_order
push_order-total p key o [] = refl
push_order-total p key o ((k, os) ∷ groups) = elim (Bool-cases (same_key k key)) [
  | inl same ↦ rw same (omega (arith, count-append p os (o ∷ [])))
  | inr other ↦ rw other (omega (arith, push_order-total p key o groups))
]

group_orders-total :
    (strategy : WavePickingStrategy) (p : ℕ × OutboundOrder → Bool) (os : List (ℕ × OutboundOrder))
    (groups : Groups)
    → total p (group_orders strategy os groups) ≡ count p os + total p groups
unfolding group_orders
group_orders-total strategy p [] groups = omega arith
group_orders-total strategy p (o ∷ os) groups =
    let key = build_grouping_key strategy o.1 in
    let one = count-append p (o ∷ []) os in
    omega (
      arith,
      group_orders-total strategy p os (push_order key o groups),
      push_order-total p key o groups,
      one,
    )

cut_groups-total :
    (p : ℕ × OutboundOrder → Bool) (max : Option ℕ) (groups : Groups)
    → count p (join (cut_groups max groups)) ≡ total p groups
unfolding cut_groups
cut_groups-total p max [] = refl
cut_groups-total p max (g ∷ groups) =
    let pieces = chunk_array g.1 (wave_size max g.1) in
    rw
      (
        join-append pieces (cut_groups max groups),
        count-append p (join pieces) (join (cut_groups max groups)),
        join-chunk_array g.1 (wave_size max g.1),
        cut_groups-total p max groups,
      )
      refl

-- The orders of a group have its key.
abbrev HasKey : WavePickingStrategy → GroupingKey → ℕ × OutboundOrder → Type 0
HasKey strategy k o = same_key k (build_grouping_key strategy o.1) ≡ true

same_key_refl : (k : GroupingKey) → same_key k k ≡ true
same_key_refl (code a) = ground arith
same_key_refl (hour a) = ground arith
same_key_refl no_window = refl
same_key_refl (level a) = ground arith

push_order-HasKey :
    (strategy : WavePickingStrategy) (o : ℕ × OutboundOrder) (groups : Groups)
    → All (λ g. All (HasKey strategy g.0) g.1) groups
    → All
        (λ g. All (HasKey strategy g.0) g.1)
        (push_order (build_grouping_key strategy o.1) o groups)
unfolding push_order
push_order-HasKey strategy o [] h = ((same_key_refl (build_grouping_key strategy o.1), tt), tt)
push_order-HasKey strategy o ((k, os) ∷ groups) (here, h) =
    elim (Bool-cases (same_key k (build_grouping_key strategy o.1))) [
      | inl same ↦ rw same (All-append (HasKey strategy k) os (o ∷ []) here (same, tt), h)
      | inr other ↦ rw other (here, push_order-HasKey strategy o groups h)
    ]

group_orders-HasKey :
    (strategy : WavePickingStrategy) (os : List (ℕ × OutboundOrder)) (groups : Groups)
    → All (λ g. All (HasKey strategy g.0) g.1) groups
    → All (λ g. All (HasKey strategy g.0) g.1) (group_orders strategy os groups)
unfolding group_orders
group_orders-HasKey strategy [] groups h = h
group_orders-HasKey strategy (o ∷ os) groups h =
    group_orders-HasKey strategy os _ (push_order-HasKey strategy o groups h)

-- The orders of a wave have a key in common, and there are no more of them than allowed.
abbrev pub IsAlike : WavePickingStrategy → List (ℕ × OutboundOrder) → Type 0
IsAlike strategy wave =
    (k : GroupingKey) × All (λ o. same_key k (build_grouping_key strategy o.1) ≡ true) wave

abbrev pub IsSized : Option ℕ → List (ℕ × OutboundOrder) → Type 0
IsSized none wave = Unit
IsSized (some zero) wave = Unit
IsSized (some (suc n)) wave = (1 ≤ length wave) × (length wave ≤ suc n)

IsAlike-pieces :
    (strategy : WavePickingStrategy) (k : GroupingKey) (xss : List (List (ℕ × OutboundOrder)))
    → All (All (HasKey strategy k)) xss
    → All (IsAlike strategy) xss
IsAlike-pieces strategy k [] h = tt
IsAlike-pieces strategy k (xs ∷ xss) (here, h) = ((k, here), IsAlike-pieces strategy k xss h)

cut_groups-IsAlike :
    (strategy : WavePickingStrategy) (max : Option ℕ) (groups : Groups)
    → All (λ g. All (HasKey strategy g.0) g.1) groups
    → All (IsAlike strategy) (cut_groups max groups)
unfolding cut_groups
cut_groups-IsAlike strategy max [] h = tt
cut_groups-IsAlike strategy max ((k, os) ∷ groups) (here, h) =
    let pieces = chunk_array os (wave_size max os) in
    All-append (IsAlike strategy) pieces (cut_groups max groups)
      (IsAlike-pieces strategy k pieces
        (All-pieces (HasKey strategy k) pieces (rw (join-chunk_array os (wave_size max os)) here)))
      (cut_groups-IsAlike strategy max groups h)

IsCut-IsSized :
    (n : ℕ) (xss : List (List (ℕ × OutboundOrder)))
    → IsCut (suc n) xss
    → All (IsSized (some (suc n))) xss
IsCut-IsSized n [] h = tt
IsCut-IsSized n (xs ∷ []) h = (h, tt)
IsCut-IsSized n (xs ∷ ys ∷ xss) (e, h) =
    ((omega (arith, e), omega (arith, e)), IsCut-IsSized n (ys ∷ xss) h)

unsized : (xss : List (List (ℕ × OutboundOrder))) → All (λ xs. Unit {0}) xss
unsized [] = tt
unsized (xs ∷ xss) = (tt, unsized xss)

cut_groups-IsSized : (max : Option ℕ) (groups : Groups) → All (IsSized max) (cut_groups max groups)
unfolding cut_groups
cut_groups-IsSized none groups = unsized (cut_groups none groups)
cut_groups-IsSized (some zero) groups = unsized (cut_groups (some zero) groups)
cut_groups-IsSized (some (suc n)) [] = tt
cut_groups-IsSized (some (suc n)) (g ∷ groups) =
    All-append (IsSized (some (suc n))) (chunk_array g.1 (suc n)) (cut_groups (some (suc n)) groups)
      (IsCut-IsSized n (chunk_array g.1 (suc n)) (chunk_array_lem g.1 n).1)
      (cut_groups-IsSized (some (suc n)) groups)

-- However orders are planned into waves: any property of orders holds for as many in all waves
-- together as in what was planned, so that each order is in one wave, once; the orders of a wave have
-- one key of the strategy in common; and where a largest number is given that is not zero, no wave is
-- empty or has more.
pub plan_waves_lem :
    (strategy : WavePickingStrategy) (max : Option ℕ) (orders : List (ℕ × OutboundOrder))
    → ((p : ℕ × OutboundOrder → Bool)
        → count p (join (plan_waves strategy max orders)) ≡ count p orders)
      × All (IsAlike strategy) (plan_waves strategy max orders)
      × All (IsSized max) (plan_waves strategy max orders)
unfolding plan_waves
plan_waves_lem strategy max orders =
    let groups = group_orders strategy orders [] in
    (
      λ p. omega (arith, cut_groups-total p max groups, group_orders-total strategy p orders []),
      cut_groups-IsAlike strategy max groups (group_orders-HasKey strategy orders [] tt),
      cut_groups-IsSized max groups,
    )
