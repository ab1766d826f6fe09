-- ===== src/Prisma/Interface.antt =====
-- What the services use of `PrismaClient` (src/prisma/prisma.service.ts extends it). `find_first`,
-- `find_many`, `create`, `update` and the `_sum` of `aggregate` and `groupBy` act on one table; the
-- order of rows that no `orderBy` fixes, and the new identifiers, are the client's to choose.
use awmsom.Base.{
  ℕ, ◌≡◌, Bool, true, false, Option, none, some, List, [], ◌∷◌, ℤ, ◌+ℤ◌, ◌==◌, if◌then◌else◌, All,
  includes, map, ◌&&◌, arith,
}

-- No identifier stands twice in a result.
abbrev pub Distinct {ℓ} : {R : Type ℓ} → List (ℕ × R) → Type 0
Distinct [] = Unit
Distinct ((i, r) ∷ rows) = (includes (map (λ x. x.0) rows) i ≡ false) × Distinct rows

pub record Prisma : Type 1 where
  pub Table : Type 0 → Type 0
  -- `findUnique({ where: { id } })`
  pub get : {R : Type 0} → Table R → ℕ → Option R
  pub find_first : {R : Type 0} → (ℕ → R → Bool) → Table R → Option (ℕ × R)
  -- `findMany({ where, orderBy })`: the second argument says which row comes first.
  pub find_many : {R : Type 0} → (ℕ → R → Bool) → (R → R → Bool) → Table R → List (ℕ × R)
  -- `create({ data })` returns the new identifier.
  pub create : {R : Type 0} → R → Table R → ℕ × Table R
  -- `update({ where: { id }, data })` of a row that is there.
  pub write : {R : Type 0} → ℕ → R → Table R → Table R
  -- `_sum`, with the weight 0 for a row that `where` leaves out.
  pub sum : {R : Type 0} → (ℕ → R → ℤ) → Table R → ℤ
  -- `groupBy({ where, by, _sum })`, with the equality of the values of the column `by`.
  pub group_by :
      {R K : Type 0} → (ℕ → R → Bool) → (K → K → Bool) → (R → K) → (R → ℤ) → Table R → List (K × ℤ)

module _ (db : Prisma) where
  open db use {Table, get, find_first, find_many, create, write, sum}

  -- The documented behaviour on which the theorems rest.
  pub record IsClient : Type 1 where
    pub found :
        {R : Type 0} (p : ℕ → R → Bool) (t : Table R) (i : ℕ) (r : R)
        → find_first p t ≡ some (i, r)
        → (get t i ≡ some r) × (p i r ≡ true)
    pub not_found :
        {R : Type 0} (p : ℕ → R → Bool) (t : Table R) (i : ℕ) (r : R)
        → find_first p t ≡ none
        → get t i ≡ some r
        → p i r ≡ false
    pub many_found :
        {R : Type 0} (p : ℕ → R → Bool) (first : R → R → Bool) (t : Table R)
        → All (λ x. (get t x.0 ≡ some x.1) × (p x.0 x.1 ≡ true)) (find_many p first t)
    pub many_distinct :
        {R : Type 0} (p : ℕ → R → Bool) (first : R → R → Bool) (t : Table R)
        → Distinct (find_many p first t)
    pub many_complete :
        {R : Type 0} (p : ℕ → R → Bool) (first : R → R → Bool) (t : Table R) (i : ℕ) (r : R)
        → get t i ≡ some r
        → p i r ≡ true
        → includes (map (λ x. x.0) (find_many p first t)) i ≡ true
    pub create_fresh : {R : Type 0} (r : R) (t : Table R) → get t (create r t).0 ≡ none
    pub get-create :
        {R : Type 0} (r : R) (t : Table R) (j : ℕ)
        → get (create r t).1 j ≡ (if (create r t).0 == j then some r else get t j)
    pub sum-create :
        {R : Type 0} (w : ℕ → R → ℤ) (r : R) (t : Table R)
        → sum w (create r t).1 ≡ sum w t +ℤ w (create r t).0 r
    pub get-write :
        {R : Type 0} (i : ℕ) (r old : R) (t : Table R) (j : ℕ)
        → get t i ≡ some old
        → get (write i r t) j ≡ (if i == j then some r else get t j)
    pub sum-write :
        {R : Type 0} (w : ℕ → R → ℤ) (i : ℕ) (r old : R) (t : Table R)
        → get t i ≡ some old
        → sum w (write i r t) +ℤ w i old ≡ sum w t +ℤ w i r

  -- `update({ where: { id, ...filter }, data })`: `none` where no row fits, and Prisma throws.
  abbrev pub updated : {R : Type 0} → ℕ → (R → Bool) → (R → R) → Table R → Option (Table R)
  updated i p f t = elim (get t i) [
    | none ↦ none
    | some r ↦ if p r then some (write i (f r) t) else none
  ]

  -- `findFirst({ where: { id, ...filter } })`
  abbrev pub find_by_id : {R : Type 0} → ℕ → (R → Bool) → Table R → Option (ℕ × R)
  find_by_id i p = find_first (λ j r. j == i && p r)

  pub find_by_id_lem :
      IsClient
      → {R : Type 0} (i : ℕ) (p : R → Bool) (t : Table R) (j : ℕ) (r : R)
      → find_by_id i p t ≡ some (j, r)
      → (j ≡ i) × (get t i ≡ some r) × (p r ≡ true)
  find_by_id_lem c i p t j r h =
      let (g, k) = c.found (λ j r. j == i && p r) t j r h in
      let e : j ≡ i = ground (arith, k) in (e, rw e at g, ground (arith, k))

  -- What `find_many` returns is there.
  pub find_many-found :
      IsClient
      → {R : Type 0} (p : ℕ → R → Bool) (first : R → R → Bool) (t : Table R)
      → All (λ x. get t x.0 ≡ some x.1) (find_many p first t)
  find_many-found c {R} p first t = go (find_many p first t) (c.many_found p first t)
    where
      go :
          (rows : List (ℕ × R))
          → All (λ x. (get t x.0 ≡ some x.1) × (p x.0 x.1 ≡ true)) rows
          → All (λ x. get t x.0 ≡ some x.1) rows
      go [] h = tt
      go (x ∷ rows) ((e, _), h) = (e, go rows h)
