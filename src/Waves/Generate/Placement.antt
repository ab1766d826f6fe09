-- ===== src/Waves/Generate/Placement.antt =====
-- The waves to which generateWaves links the orders.
use awmsom.Base.{
  ℕ, ◌≡◌, refl, sym, ◌∙◌, ap, ◌⊎◌, inl, inr, Bool, true, none, some, List, [], ◌∷◌, ◌==◌,
  if◌then◌else◌, length, arith, ok, Action, pure, for_each, >>=-ok, ◌>>◌, raise_if, invalid_data,
  ◌&&◌, Option-cases, Bool-cases,
}
use awmsom.Prisma.{Prisma, IsClient}
use awmsom.Schema.{Db, OutboundOrder, Wave, WaveOrder}
use awmsom.Waves.Generate.{
  GenerateInput, wave_row, wave_order, create_wave_order, update_wave, count_lines_of,
  count_units_of, is_fraction, make_wave,
}

module _ (db : Prisma) where
  -- From `s` to `s'` the waves stay, with their tenants, and a row that is new is one of the tenant and
  -- of a wave of the tenant that is new too.
  pub record Placed (tenant : ℕ) (s s' : Db db) : Type 0 where
    pub waves :
        (i : ℕ) (v : Wave)
        → db.get s.waves i ≡ some v
        → (v' : Wave) × (db.get s'.waves i ≡ some v') × (v'.tenant_id ≡ v.tenant_id)
    pub rows :
        (k : ℕ) (w : WaveOrder)
        → db.get s'.wave_orders k ≡ some w
        → (db.get s.wave_orders k ≡ some w)
          ⊎ ((v : Wave) × (w.tenant_id ≡ tenant)
              × (db.get s.waves w.wave_id ≡ none)
              × (db.get s'.waves w.wave_id ≡ some v)
              × (v.tenant_id ≡ tenant))

  pub Placed-refl : (tenant : ℕ) (s : Db db) → Placed tenant s s
  Placed-refl tenant s = record { waves = λ i v g. (v, g, refl); rows = λ k w g. inl g }

  missing_before :
      {tenant : ℕ} {s s₁ : Db db} (i : ℕ)
      → Placed tenant s s₁
      → db.get s₁.waves i ≡ none
      → db.get s.waves i ≡ none
  missing_before {s = s} i m e = elim (Option-cases (db.get s.waves i)) [
    | inl missing ↦ missing
    | inr (v, g) ↦ let (v', g', _) = m.waves i v g in absurd (ground (arith, e, g'))
  ]

  pub Placed-trans :
      {tenant : ℕ} {s s₁ s₂ : Db db} → Placed tenant s s₁ → Placed tenant s₁ s₂ → Placed tenant s s₂
  Placed-trans m n = record {
    waves = λ i v g.
        let (v₁, g₁, e₁) = m.waves i v g in let (v₂, g₂, e₂) = n.waves i v₁ g₁ in (v₂, g₂, e₂ ∙ e₁);
    rows = λ k w g. elim (n.rows k w g) [
      | inr (v, t, fresh, gv, tv) ↦ inr (v, t, missing_before w.wave_id m fresh, gv, tv)
      | inl g₁ ↦ elim (m.rows k w g₁) [
        | inl g₀ ↦ inl g₀
        | inr (v, t, fresh, gv, tv) ↦
            let (v₂, g₂, e₂) = n.waves w.wave_id v gv in inr (v₂, t, fresh, g₂, e₂ ∙ tv)
      ]
    ];
  }

  abbrev link : ℕ → ℕ → ℕ × OutboundOrder → Action (Db db) (Unit {0})
  link tenant wave x = create_wave_order db (wave_order tenant wave x.0) >> pure tt

  -- The rows that are new are of the given wave.
  abbrev InWave : ℕ → ℕ → Db db → Db db → Type 0
  InWave tenant wave s s' =
      (s'.waves ≡ s.waves)
      × ((k : ℕ) (w : WaveOrder)
          → db.get s'.wave_orders k ≡ some w
          → (db.get s.wave_orders k ≡ some w) ⊎ ((w.tenant_id ≡ tenant) × (w.wave_id ≡ wave)))

module _ (db : Prisma) (c : IsClient db) where
  links-InWave :
      (tenant wave : ℕ) (xs : List (ℕ × OutboundOrder)) (s s' : Db db)
      → for_each xs (link db tenant wave) s ≡ (ok tt, s')
      → InWave db tenant wave s s'
  unfolding for_each
  links-InWave tenant wave [] s s' h =
      let e : s' ≡ s = ap (λ y. y.1) (sym h) in rw e (refl, λ k w g. inl g)
  links-InWave tenant wave (x ∷ xs) s s' h =
      let row = wave_order tenant wave x.0 in
      let t = (db.create row s.wave_orders).1 in
      let (same, rest) = links-InWave tenant wave xs (record s { wave_orders = t }) s' h in
      (same, λ k w g. elim (rest k w g) [ inr new ↦ inr new | inl g₁ ↦ new_or_old row k w g₁ ])
    where
      new_or_old :
          (row : WaveOrder) (k : ℕ) (w : WaveOrder)
          → db.get (db.create row s.wave_orders).1 k ≡ some w
          → (db.get s.wave_orders k ≡ some w)
            ⊎ ((w.tenant_id ≡ row.tenant_id) × (w.wave_id ≡ row.wave_id))
      new_or_old row k w g =
          let e = c.get-create row s.wave_orders k in
          elim (Bool-cases ((db.create row s.wave_orders).0 == k)) [
            | inl hit ↦
                let same : row ≡ w = ground (arith, e, g, hit) in
                inr (ap (λ z. z.tenant_id) (sym same), ap (λ z. z.wave_id) (sym same))
            | inr miss ↦ inl (ground (arith, e, g, miss))
          ]

  old_wave :
      (wave i : ℕ) (v row closed : Wave) (t t₁ t₂ : db.Table Wave)
      → db.get t wave ≡ none
      → db.get t i ≡ some v
      → db.get t₁ i ≡ (if wave == i then some row else db.get t i)
      → db.get t₂ i ≡ (if wave == i then some closed else db.get t₁ i)
      → db.get t₂ i ≡ some v
  old_wave wave i v row closed t t₁ t₂ fresh g e₁ e₂ = elim (Bool-cases (wave == i)) [
    | inl hit ↦ absurd (ground (arith, hit, fresh, g))
    | inr miss ↦ ground (arith, miss, g, e₁, e₂)
  ]

  pub make_wave-Placed :
      (tenant : ℕ) (strict : Bool) (dto : GenerateInput) (batch : List (ℕ × OutboundOrder))
      (s s' : Db db)
      → make_wave db strict tenant dto batch s ≡ (ok tt, s')
      → Placed db tenant s s'
  unfolding make_wave
  make_wave-Placed tenant strict dto [] s s' h =
      let e : s' ≡ s = ap (λ y. y.1) (sym h) in rw e (Placed-refl db tenant s)
  make_wave-Placed tenant strict dto (o ∷ os) s s' h =
      let row = wave_row tenant dto o.1 in
      let (wave, waves) = db.create row s.waves in
      let s₁ : Db db = record s { waves = waves } in
      let end : Action (Db db) (Unit {0}) = λ y.
        (raise_if (strict && is_fraction (count_units_of db (o ∷ os) y)) invalid_data
            >> update_wave db wave (λ w. true)
                (λ w. record w {
                  total_orders = length (o ∷ os);
                  total_lines = count_lines_of db (o ∷ os) y;
                  total_units = count_units_of db (o ∷ os) y;
                }))
          y in
      let (u, s₂, run, close) =
        >>=-ok (for_each (o ∷ os) (link db tenant wave)) (λ u. end) s₁ s' tt h in
      let (kept, new) = links-InWave tenant wave (o ∷ os) s₁ s₂ run in
      let fresh = c.create_fresh row s.waves in
      let made : db.get s₂.waves wave ≡ some row =
        rw kept (ground (arith, c.get-create row s.waves wave)) in
      let closed : Wave = record row {
        total_orders = length (o ∷ os);
        total_lines = count_lines_of db (o ∷ os) s₂;
        total_units = count_units_of db (o ∷ os) s₂;
      } in
      let same : s'.wave_orders ≡ s₂.wave_orders = ground (arith, close) in
      let written : s'.waves ≡ db.write wave closed s₂.waves = ground (arith, close, made) in
      let at = λ (i : ℕ). c.get-write wave closed row s₂.waves i made in
      record {
        waves = λ i v g. (
          v,
          rw written (
              old_wave wave i v row closed s.waves s₂.waves (db.write wave closed s₂.waves) fresh g
                (rw kept (c.get-create row s.waves i)) (at i)),
          refl,
        );
        rows = λ k w g. elim (new k w (rw same at g)) [
          | inl old ↦ inl old
          | inr (t, e) ↦
              inr (closed, t, rw e fresh, rw (e, written) (ground (arith, at wave)), refl)
        ];
      }

  pub make_waves-Placed :
      (tenant : ℕ) (strict : Bool) (dto : GenerateInput) (batches : List (List (ℕ × OutboundOrder)))
      (s s' : Db db)
      → for_each batches (make_wave db strict tenant dto) s ≡ (ok tt, s')
      → Placed db tenant s s'
  unfolding for_each
  make_waves-Placed tenant strict dto [] s s' h =
      let e : s' ≡ s = ap (λ y. y.1) (sym h) in rw e (Placed-refl db tenant s)
  make_waves-Placed tenant strict dto (b ∷ bs) s s' h =
      let (u, s₁, first, rest) =
        >>=-ok (make_wave db strict tenant dto b)
          (λ u. for_each bs (make_wave db strict tenant dto)) s s' tt h in
      Placed-trans db (make_wave-Placed tenant strict dto b s s₁ first)
        (make_waves-Placed tenant strict dto bs s₁ s' rest)
