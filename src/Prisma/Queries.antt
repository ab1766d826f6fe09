-- ===== src/Prisma/Queries.antt =====
-- What a test on all the rows that `find_many` returns says of the rows of the table.
use awmsom.Base.{
  ℕ, ◌≡◌, Bool, true, false, List, [], ◌∷◌, ◌==◌, includes, map, every, any, All, arith, some, inl,
  inr, Bool-cases, ==_iff,
}
use awmsom.Prisma.Interface.{Prisma, IsClient, find_many-found}

module _ (db : Prisma) {R : Type 0} (t : db.Table R) (q : R → Bool) where
  every_row :
      (rows : List (ℕ × R)) (i : ℕ) (r : R)
      → All (λ x. db.get t x.0 ≡ some x.1) rows
      → every (λ x. q x.1) rows ≡ true
      → includes (map (λ x. x.0) rows) i ≡ true
      → db.get t i ≡ some r
      → q r ≡ true
  every_row [] i r a h k g = cc
  every_row ((j, x) ∷ rows) i r (e, a) h k g = elim (Bool-cases (j == i)) [
    | inl same ↦
        let e' : j ≡ i = (==_iff j i).0 same in
        let xr : x ≡ r = ground (arith, e, g, e') in ground (arith, h, xr)
    | inr other ↦ every_row rows i r a (ground (arith, h)) (ground (arith, k, other)) g
  ]

  no_row :
      (rows : List (ℕ × R)) (i : ℕ) (r : R)
      → All (λ x. db.get t x.0 ≡ some x.1) rows
      → any (λ x. q x.1) rows ≡ false
      → includes (map (λ x. x.0) rows) i ≡ true
      → db.get t i ≡ some r
      → q r ≡ false
  no_row [] i r a h k g = cc
  no_row ((j, x) ∷ rows) i r (e, a) h k g = elim (Bool-cases (j == i)) [
    | inl same ↦
        let e' : j ≡ i = (==_iff j i).0 same in
        let xr : x ≡ r = ground (arith, e, g, e') in ground (arith, h, xr)
    | inr other ↦ no_row rows i r a (ground (arith, h)) (ground (arith, k, other)) g
  ]

  failing_row :
      (p : ℕ → R → Bool) (rows : List (ℕ × R))
      → All (λ x. (db.get t x.0 ≡ some x.1) × (p x.0 x.1 ≡ true)) rows
      → every (λ x. q x.1) rows ≡ false
      → (i : ℕ) × (r : R) × (db.get t i ≡ some r) × (p i r ≡ true) × (q r ≡ false)
  failing_row p [] a h = cc
  failing_row p ((j, x) ∷ rows) ((e, k), a) h = elim (Bool-cases (q x)) [
    | inl holds ↦ failing_row p rows a (ground (arith, h, holds))
    | inr fails ↦ (j, x, e, k, fails)
  ]

  passing_row :
      (p : ℕ → R → Bool) (rows : List (ℕ × R))
      → All (λ x. (db.get t x.0 ≡ some x.1) × (p x.0 x.1 ≡ true)) rows
      → any (λ x. q x.1) rows ≡ true
      → (i : ℕ) × (r : R) × (db.get t i ≡ some r) × (p i r ≡ true) × (q r ≡ true)
  passing_row p [] a h = cc
  passing_row p ((j, x) ∷ rows) ((e, k), a) h = elim (Bool-cases (q x)) [
    | inl holds ↦ (j, x, e, k, holds)
    | inr fails ↦ passing_row p rows a (ground (arith, h, fails))
  ]

  module _ (c : IsClient db) (p : ℕ → R → Bool) (first : R → R → Bool) where
    pub every-found :
        every (λ x. q x.1) (db.find_many p first t) ≡ true
        → (i : ℕ) (r : R) → db.get t i ≡ some r
        → p i r ≡ true
        → q r ≡ true
    every-found h i r g k =
        every_row (db.find_many p first t) i r (find_many-found db c p first t) h
          (c.many_complete p first t i r g k) g

    pub none-found :
        any (λ x. q x.1) (db.find_many p first t) ≡ false
        → (i : ℕ) (r : R) → db.get t i ≡ some r
        → p i r ≡ true
        → q r ≡ false
    none-found h i r g k =
        no_row (db.find_many p first t) i r (find_many-found db c p first t) h
          (c.many_complete p first t i r g k) g

    pub failing-found :
        every (λ x. q x.1) (db.find_many p first t) ≡ false
        → (i : ℕ) × (r : R) × (db.get t i ≡ some r) × (p i r ≡ true) × (q r ≡ false)
    failing-found h = failing_row p (db.find_many p first t) (c.many_found p first t) h

    pub any-found :
        any (λ x. q x.1) (db.find_many p first t) ≡ true
        → (i : ℕ) × (r : R) × (db.get t i ≡ some r) × (p i r ≡ true) × (q r ≡ true)
    any-found h = passing_row p (db.find_many p first t) (c.many_found p first t) h
