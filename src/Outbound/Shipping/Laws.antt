-- ===== src/Outbound/Shipping/Laws.antt =====
-- What dispatchShipment leaves behind.
use mathlib.Core.Path.{subst}
use awmsom.Base.{
  ℤ, pos, ◌+ℤ◌, +ℤ_zero, int_laws, ◌⊎◌, sym, ap, ◌∙◌, ℕ, ◌≡◌, refl, inl, inr, true, false, Option,
  none, some, List, [], ◌∷◌, ◌==◌, length, if◌then◌else◌, Action, Result, ok, err, Error, not_found,
  bad_request, shipment_not_found, shipment_not_dispatchable, for_each, Option-cases, Bool-cases,
  ==_iff, ◌>>◌, ◌&&◌, pure, arith, transaction,
}
use awmsom.Prisma.{Prisma, IsClient, find_by_id, find_by_id_lem}
use awmsom.Schema.{
  Db, HandlingUnitLine, HandlingUnit, MovementLine, MovementHeader, Shipment, ShipmentStatus,
  is_dispatchable,
}
use awmsom.Inventory.Tables.{create_movement_line}
use awmsom.Outbound.Shipping.{
  dispatch_movement, dispatch_header, log_lines, dispatch_body, dispatch_shipment,
}

abbrev pub dispatched : ℕ → Option ℕ → Shipment → Shipment
dispatched now departure r = record r {
  status = ShipmentStatus.dispatched;
  actual_departure = some (elim departure [ some d ↦ d | none ↦ now ]);
}

two_logged : (a b d q r : ℤ) → b ≡ a +ℤ q → d ≡ b +ℤ r → d ≡ a +ℤ (q +ℤ r)
two_logged a b d q r h k = grind int_laws

is_dispatchable-open :
    (x : ShipmentStatus)
    → is_dispatchable x ≡ true
    → (x ≡ ShipmentStatus.planned) ⊎ (x ≡ ShipmentStatus.loading)
is_dispatchable-open ShipmentStatus.planned h = inl refl
is_dispatchable-open ShipmentStatus.loading h = inr refl
is_dispatchable-open _ h = cc

module _ (db : Prisma) where
  -- The quantity that the movement lines log in all.
  abbrev pub logged : db.Table MovementLine → ℤ
  logged t = db.sum (λ i m. m.quantity) t

  -- The lines of a handling unit, and their quantities.
  abbrev pub contents : ℕ → Db db → List (ℕ × HandlingUnitLine)
  contents unit s =
      db.find_many (λ i l. l.handling_unit_id == unit) (λ a b. false) s.handling_unit_lines

  abbrev pub quantities : List (ℕ × HandlingUnitLine) → ℤ
  quantities [] = pos 0
  quantities (l ∷ lines) = l.1.quantity +ℤ quantities lines

  -- What a list of handling units holds in all.
  abbrev pub loaded : List (ℕ × HandlingUnit) → Db db → ℤ
  loaded [] s = pos 0
  loaded (u ∷ units) s = quantities (contents u.0 s) +ℤ loaded units s

  -- The tenant's handling units for which there is a row of the shipment.
  abbrev pub units_aboard : ℕ → ℕ → Db db → List (ℕ × HandlingUnit)
  units_aboard tenant i s =
      db.find_many
        (λ u r.
          (elim (db.find_first
            (λ k x. x.handling_unit_id == u && (x.shipment_id == i && x.tenant_id == tenant))
            s.shipment_handling_units) [ none ↦ false | some _ ↦ true ])
          && r.tenant_id == tenant)
        (λ a b. false) s.handling_units

  -- An action that only logs movement lines, of a quantity `q` in all at `s`, and does not fail.
  abbrev Logs : Action (Db db) (Unit {0}) → ℤ → Db db → Type 0
  Logs m q s =
      (t : db.Table MovementLine) × (m s ≡ (ok tt, record s { movement_lines = t }))
      × (logged t ≡ logged s.movement_lines +ℤ q)

module _ (db : Prisma) (c : IsClient db) where
  lines-Logs :
      (tenant header : ℕ) (lines : List (ℕ × HandlingUnitLine)) (s : Db db)
      → Logs db
          (for_each lines
            (λ line. create_movement_line db (dispatch_movement tenant header line.1) >> pure tt))
          (quantities db lines)
          s
  unfolding for_each
  lines-Logs tenant header [] s = (s.movement_lines, refl, sym (+ℤ_zero _))
  lines-Logs tenant header (line ∷ lines) s =
      let row = dispatch_movement tenant header line.1 in
      let (t, e, total) =
        lines-Logs tenant header lines
          (record s { movement_lines = (db.create row s.movement_lines).1 }) in
      (t, e, two_logged _ _ _ _ _ (c.sum-create (λ i m. m.quantity) row s.movement_lines) total)

  units-Logs :
      (tenant header : ℕ) (units : List (ℕ × HandlingUnit)) (s : Db db)
      → Logs db (for_each units (log_lines db tenant header)) (loaded db units s) s
  unfolding for_each log_lines
  units-Logs tenant header [] s = (s.movement_lines, refl, sym (+ℤ_zero _))
  units-Logs tenant header (u ∷ units) s =
      let (t, e, total) = lines-Logs tenant header (contents db u.0 s) s in
      let s₁ : Db db = record s { movement_lines = t } in
      let (t', e', total') = units-Logs tenant header units s₁ in
      let same = loaded-same units s t in
      (t', rw e e', two_logged _ _ _ _ _ total (total' ∙ ap (λ q. logged db t +ℤ q) same))
    where
      loaded-same :
          (units : List (ℕ × HandlingUnit)) (s : Db db) (t : db.Table MovementLine)
          → loaded db units (record s { movement_lines = t }) ≡ loaded db units s
      loaded-same [] s t = refl
      loaded-same (u ∷ units) s t =
          ap (λ q. quantities db (contents db u.0 s) +ℤ q) (loaded-same units s t)

  dispatch_body-runs :
      (tenant now i : ℕ) (shipment : Shipment) (departure : Option ℕ) (s : Db db)
      → db.get s.shipments i ≡ some shipment
      → (shipment.tenant_id == tenant) ≡ true
      → (lines : db.Table MovementLine) × (headers : db.Table MovementHeader) × (dispatch_body db
            tenant now i shipment departure s
          ≡ (
            ok tt,
            record s {
              movement_lines = lines;
              movement_headers = headers;
              shipments = db.write i (dispatched now departure shipment) s.shipments;
            },
          ))
        × (logged db lines ≡ logged db s.movement_lines +ℤ loaded db (units_aboard db tenant i s) s)
  unfolding dispatch_body
  dispatch_body-runs tenant now i shipment departure s g h =
      let headers = db.create (dispatch_header tenant i shipment) s.movement_headers in
      let units = units_aboard db tenant i s in
      let s₁ : Db db = record s { movement_headers = headers.1 } in
      let (t, e, total) = units-Logs tenant headers.0 units s₁ in
      (
        t,
        headers.1,
        rw e (ground (arith, g, h)),
        total ∙ ap (λ q. logged db s.movement_lines +ℤ q) (at_headers units s headers.1),
      )
    where
      at_headers :
          (units : List (ℕ × HandlingUnit)) (s : Db db) (t : db.Table MovementHeader)
          → loaded db units (record s { movement_headers = t }) ≡ loaded db units s
      at_headers [] s t = refl
      at_headers (u ∷ units) s t =
          ap (λ q. quantities db (contents db u.0 s) +ℤ q) (at_headers units s t)

module _ (db : Prisma) where
  -- After a failure nothing has changed. After a success the shipment was one of the tenant that was
  -- planned or being loaded, it is dispatched, and but for the movements nothing else has changed.
  abbrev pub Dispatched : ℕ → ℕ → ℕ → Option ℕ → Db db → Result (Unit {0}) × Db db → Type 0
  Dispatched tenant now i departure s (err e, s') = s' ≡ s
  Dispatched tenant now i departure s (ok _, s') =
      (shipment : Shipment) × (db.get s.shipments i ≡ some shipment)
      × (shipment.tenant_id ≡ tenant)
      × ((shipment.status ≡ ShipmentStatus.planned) ⊎ (shipment.status ≡ ShipmentStatus.loading))
      × ((j : ℕ)
          → db.get s'.shipments j
            ≡ (if i == j then some (dispatched now departure shipment) else db.get s.shipments j))
      × (logged db s'.movement_lines
          ≡ logged db s.movement_lines +ℤ loaded db (units_aboard db tenant i s) s)
      × (record s' {
        movement_lines = s.movement_lines;
        movement_headers = s.movement_headers;
        shipments = s.shipments;
      }
          ≡ s)

module _ (db : Prisma) (c : IsClient db) where
  transaction-ended :
      (m : Action (Db db) (Unit {0})) (s s' : Db db)
      → m s ≡ (ok tt, s')
      → transaction m s ≡ (ok tt, s')
  transaction-ended m s s' e = ground arith

  closed_of :
      (o other : Option Shipment) (r found : Shipment) (i : ℕ)
      → o ≡ (if i == i then some r else other)
      → o ≡ some found
      → is_dispatchable r.status ≡ false
      → is_dispatchable found.status ≡ false
  closed_of o other r found i e e' h = ground arith

  dispatch_shipment-runs :
      (tenant now i j : ℕ) (departure : Option ℕ) (shipment : Shipment) (s : Db db)
      → find_by_id db i (λ r. r.tenant_id == tenant) s.shipments ≡ some (j, shipment)
      → is_dispatchable shipment.status ≡ true
      → (length (db.find_many (λ i' r. r.shipment_id == i) (λ a b. false) s.shipment_handling_units)
          == 0)
        ≡ false
      → dispatch_shipment db tenant now i departure s
        ≡ transaction (dispatch_body db tenant now i shipment departure) s
  unfolding dispatch_shipment
  dispatch_shipment-runs tenant now i j departure shipment s e o u = rw (e, o, u) refl

  -- A dispatch that fails leaves the tables as they were. One that succeeds was of a shipment of the
  -- tenant that was planned or being loaded; it is dispatched, at the given time or now, no other
  -- shipment has changed, the logged movements have grown by what the handling units of the shipment
  -- hold in all, and but for the movements no other table has changed.
  pub dispatch_shipment-Dispatched :
      (tenant now i : ℕ) (departure : Option ℕ) (s : Db db)
      → Dispatched db tenant now i departure s (dispatch_shipment db tenant now i departure s)
  unfolding dispatch_shipment
  dispatch_shipment-Dispatched tenant now i departure s =
      elim (Option-cases (find_by_id db i (λ r. r.tenant_id == tenant) s.shipments)) [
        | inl missing ↦ rw missing refl
        | inr ((j, shipment), e) ↦ elim (Bool-cases (is_dispatchable shipment.status)) [
          | inr closed ↦ rw (e, closed) refl
          | inl open_shipment ↦
              let links =
                db.find_many (λ i' r. r.shipment_id == i) (λ a b. false)
                  s.shipment_handling_units in
              elim (Bool-cases (length links == 0)) [
                | inl empty ↦ rw (e, open_shipment, empty) refl
                | inr units ↦
                    let (_, g, own) =
                      find_by_id_lem db c i (λ r. r.tenant_id == tenant) s.shipments j shipment e in
                    let (lines, headers, runs, total) =
                      dispatch_body-runs db c tenant now i shipment departure s g own in
                    rw
                      (
                        dispatch_shipment-runs tenant now i j departure shipment s e open_shipment
                            units,
                        transaction-ended (dispatch_body db tenant now i shipment departure) s _
                            runs,
                      )
                      (
                        shipment,
                        g,
                        (==_iff shipment.tenant_id tenant).0 own,
                        is_dispatchable-open shipment.status open_shipment,
                        λ k.
                            c.get-write i (dispatched now departure shipment) shipment s.shipments k
                              g,
                        total,
                        refl,
                      )
              ]
        ]
      ]

  -- After a dispatch that succeeds, no other dispatch of that shipment by the tenant does.
  pub dispatch_shipment-twice :
      (tenant now later i : ℕ) (departure again : Option ℕ) (s s' : Db db)
      → dispatch_shipment db tenant now i departure s ≡ (ok tt, s')
      → (e : Error) × (dispatch_shipment db tenant later i again s' ≡ (err e, s'))
  unfolding dispatch_shipment
  dispatch_shipment-twice tenant now later i departure again s s' h =
      let d : Dispatched db tenant now i departure s (ok tt, s') =
        subst (Dispatched db tenant now i departure s) h
          (dispatch_shipment-Dispatched tenant now i departure s) in
      let (shipment, g, own, open_shipment, rows, total, rest) = d in
      elim (Option-cases (find_by_id db i (λ r. r.tenant_id == tenant) s'.shipments)) [
        | inl missing ↦ (not_found shipment_not_found, rw missing refl)
        | inr ((j, found), e) ↦
            let (_, g', _) =
              find_by_id_lem db c i (λ r. r.tenant_id == tenant) s'.shipments j found e in
            let closed : is_dispatchable found.status ≡ false =
              closed_of _ _ (dispatched now departure shipment) found i (rows i) g' refl in
            (bad_request shipment_not_dispatchable, rw (e, closed) refl)
      ]
