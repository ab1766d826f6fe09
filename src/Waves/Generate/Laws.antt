-- ===== src/Waves/Generate/Laws.antt =====
-- What generateWaves guarantees on every path.
use awmsom.Base.{
  ℕ, ◌+◌, ◌≡◌, refl, sym, ◌∙◌, ap, Bool, true, false, List, [], ◌∷◌, ℤ, pos, ◌+ℤ◌, if◌then◌else◌,
  length, arith, int_laws, ok, err, Result, Action, pure, for_each, >>=-ok, ◌>>◌, raise_if,
  invalid_data, ◌&&◌, transaction, transaction-ok, transaction-Atomic, +ℤ_zero,
}
use awmsom.Prisma.{Prisma, IsClient}
use awmsom.Schema.{Db, OutboundOrder}
use awmsom.Waves.Chunks.{join}
use awmsom.Waves.Grouping.{plan_waves}
use awmsom.Waves.Grouping.Laws.{count, count-append, plan_waves_lem}
use awmsom.Waves.Generate.Placement.{Placed, make_waves-Placed}
use awmsom.Waves.Generate.{
  GenerateInput, wave_row, wave_order, create_wave_order, update_wave, count_lines_of,
  count_units_of, is_fraction, make_wave, selected_orders, generate_waves,
}

module _ (db : Prisma) where
  -- How many rows of waves are of the orders that meet a test.
  abbrev pub linked : (ℕ → Bool) → Db db → ℤ
  linked p s = db.sum (λ i w. if p w.outbound_order_id then pos 1 else pos 0) s.wave_orders

  for_each-nil :
      {A : Type 0} (body : A → Action (Db db) (Unit {0})) (s : Db db)
      → for_each [] body s ≡ (ok tt, s)
  unfolding for_each
  for_each-nil body s = refl

  for_each-cons :
      {A : Type 0} (x : A) (xs : List A) (body : A → Action (Db db) (Unit {0})) (s s' : Db db)
      → for_each (x ∷ xs) body s ≡ (ok tt, s')
      → (s₁ : Db db) × (body x s ≡ (ok tt, s₁)) × (for_each xs body s₁ ≡ (ok tt, s'))
  unfolding for_each
  for_each-cons x xs body s s' h =
      let (tt, s₁, first, rest) = >>=-ok (body x) (λ u. for_each xs body) s s' tt h in
      (s₁, first, rest)

  abbrev link : ℕ → ℕ → ℕ × OutboundOrder → Action (Db db) (Unit {0})
  link tenant wave x = create_wave_order db (wave_order tenant wave x.0) >> pure tt

one_more : (a b : ℤ) (n m : ℕ) → b ≡ a +ℤ pos n → b +ℤ pos m ≡ a +ℤ pos (n + m)
one_more a b n m h = grind int_laws

module _ (db : Prisma) (c : IsClient db) (p : ℕ → Bool) where
  link-linked :
      (tenant wave : ℕ) (x : ℕ × OutboundOrder) (s s' : Db db)
      → link db tenant wave x s ≡ (ok tt, s')
      → linked db p s' ≡ linked db p s +ℤ pos (count (λ o. p o.0) (x ∷ []))
  link-linked tenant wave x s s' h =
      let e : s'
          ≡ record s { wave_orders = (db.create (wave_order tenant wave x.0) s.wave_orders).1 } =
        sym (ap (λ y. y.1) h) in
      rw e (
        c.sum-create (λ i w. if p w.outbound_order_id then pos 1 else pos 0)
          (wave_order tenant wave x.0) s.wave_orders
        ∙ ap (λ d. linked db p s +ℤ d) (counted (p x.0)))
    where
      counted : (b : Bool) → (if b then pos 1 else pos 0) ≡ pos (length (if b then x ∷ [] else []))
      counted true = refl
      counted false = refl

  links-linked :
      (tenant wave : ℕ) (xs : List (ℕ × OutboundOrder)) (s s' : Db db)
      → for_each xs (link db tenant wave) s ≡ (ok tt, s')
      → linked db p s' ≡ linked db p s +ℤ pos (count (λ o. p o.0) xs)
  links-linked tenant wave [] s s' h =
      let e : s' ≡ s = ap (λ y. y.1) (sym h ∙ for_each-nil db (link db tenant wave) s) in
      rw e (sym (+ℤ_zero _))
  links-linked tenant wave (x ∷ xs) s s' h =
      let (s₁, first, rest) = for_each-cons db x xs (link db tenant wave) s s' h in
      links-linked tenant wave xs s₁ s' rest
      ∙ one_more (linked db p s) (linked db p s₁) (count (λ o. p o.0) (x ∷ []))
          (count (λ o. p o.0) xs) (link-linked tenant wave x s s₁ first)
      ∙ ap (λ n. linked db p s +ℤ pos n) (sym (count-append (λ o. p o.0) (x ∷ []) xs))

  make_wave-linked :
      (tenant : ℕ) (strict : Bool) (dto : GenerateInput) (batch : List (ℕ × OutboundOrder))
      (s s' : Db db)
      → make_wave db strict tenant dto batch s ≡ (ok tt, s')
      → linked db p s' ≡ linked db p s +ℤ pos (count (λ o. p o.0) batch)
  unfolding make_wave
  make_wave-linked tenant strict dto [] s s' h =
      let e : s' ≡ s = ap (λ y. y.1) (sym h) in rw e (sym (+ℤ_zero _))
  make_wave-linked tenant strict dto (o ∷ os) s s' h =
      let (wave, waves) = db.create (wave_row tenant dto o.1) s.waves in
      let s₁ : Db db = record s { waves = waves } in
      let end : Action (Db db) (Unit {0}) = λ y.
        (raise_if (strict && is_fraction (count_units_of db (o ∷ os) y)) invalid_data
            >> update_wave db wave (λ w. true)
                (λ w. record w {
                  total_orders = length (o ∷ os);
                  total_lines = count_lines_of db (o ∷ os) y;
                  total_units = count_units_of db (o ∷ os) y;
                }))
          y in
      let (u, s₂, run, close) =
        >>=-ok (for_each (o ∷ os) (link db tenant wave)) (λ u. end) s₁ s' tt h in
      let same : s'.wave_orders ≡ s₂.wave_orders = ground (arith, close) in
      ap (λ t. db.sum (λ i w. if p w.outbound_order_id then pos 1 else pos 0) t) same
      ∙ links-linked tenant wave (o ∷ os) s₁ s₂ run

  make_waves-linked :
      (tenant : ℕ) (strict : Bool) (dto : GenerateInput) (batches : List (List (ℕ × OutboundOrder)))
      (s s' : Db db)
      → for_each batches (make_wave db strict tenant dto) s ≡ (ok tt, s')
      → linked db p s' ≡ linked db p s +ℤ pos (count (λ o. p o.0) (join batches))
  make_waves-linked tenant strict dto [] s s' h =
      let e : s' ≡ s = ap (λ y. y.1) (sym h ∙ for_each-nil db (make_wave db strict tenant dto) s) in
      rw e (sym (+ℤ_zero _))
  make_waves-linked tenant strict dto (b ∷ bs) s s' h =
      let (s₁, first, rest) = for_each-cons db b bs (make_wave db strict tenant dto) s s' h in
      make_waves-linked tenant strict dto bs s₁ s' rest
      ∙ one_more (linked db p s) (linked db p s₁) (count (λ o. p o.0) b)
          (count (λ o. p o.0) (join bs)) (make_wave-linked tenant strict dto b s s₁ first)
      ∙ ap (λ n. linked db p s +ℤ pos n) (sym (count-append (λ o. p o.0) b (join bs)))

module _ (db : Prisma) (c : IsClient db) where
  -- After a success each selected order has one more row in a wave, and no other order has.
  abbrev pub Planned : ℕ → GenerateInput → Db db → Result (Unit {0}) × Db db → Type 0
  Planned tenant dto s (err e, s') = s' ≡ s
  Planned tenant dto s (ok _, s') =
      ((p : ℕ → Bool)
        → linked db p s'
          ≡ linked db p s +ℤ pos (count (λ o. p o.0) (selected_orders db tenant dto s)))
      × Placed db tenant s s'

  -- A run that fails leaves the tables as they were. One that succeeds adds one row of a wave for each
  -- order that it selects and none for another: for any choice of orders, the rows of waves of these
  -- orders grow in number by as many of them as are selected. Each row that is new is one of the tenant,
  -- and of a wave that was not there before and stands now, as one of the tenant; and the waves that
  -- were there stand, with their tenants.
  pub generate_waves-Planned :
      (tenant : ℕ) (strict : Bool) (dto : GenerateInput) (s : Db db)
      → Planned tenant dto s (generate_waves db strict tenant dto s)
  unfolding generate_waves
  generate_waves-Planned tenant strict dto s = go (transaction body s) refl
    where
      orders : List (ℕ × OutboundOrder)
      orders = selected_orders db tenant dto s

      body : Action (Db db) (Unit {0})
      body =
          for_each (plan_waves dto.strategy dto.max_orders_per_wave orders)
            (make_wave db strict tenant dto)

      go : (x : Result (Unit {0}) × Db db) → transaction body s ≡ x → Planned tenant dto s x
      go (err e, s') h = transaction-Atomic body s s' e h
      go (ok u, s') h = (
        λ p.
            make_waves-linked db c p tenant strict dto
              (plan_waves dto.strategy dto.max_orders_per_wave orders) s s'
              (transaction-ok body s s' u h)
            ∙ ap (λ n. linked db p s +ℤ pos n)
                ((plan_waves_lem dto.strategy dto.max_orders_per_wave orders).0 (λ o. p o.0)),
        make_waves-Placed db c tenant strict dto
            (plan_waves dto.strategy dto.max_orders_per_wave orders) s s'
            (transaction-ok body s s' u h),
      )
