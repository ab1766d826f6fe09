-- ===== src/Prisma/Memory/Laws.antt =====
-- The database in memory behaves as documented.
use awmsom.Base.{
  ℕ, zero, suc, ◌+◌, ◌≡◌, refl, Bool, true, false, none, some, List, [], ◌∷◌, ◌++◌, ℤ, ◌+ℤ◌, ◌==◌,
  if◌then◌else◌, All, length, get_elem?, set, includes, map, arith, int_laws, Bool-cases, inl, inr,
}
use native.Mathlib.Nat.{add-zero, zero-add}
use awmsom.Prisma.Interface.{IsClient, Distinct}
use awmsom.Prisma.Memory.{first_from, many_from, place, sum_from, memory}

shift : (n m : ℕ) → n + suc m ≡ suc n + m
shift n m = omega arith

module _ {R : Type 0} where
  -- A row found from position n on stands at its position.
  abbrev Placed : (ℕ → R → Bool) → ℕ → List R → ℕ × R → Type 0
  Placed p n rows (i, r) = (k : ℕ) × (i ≡ n + k) × (get_elem? rows k ≡ some r) × (p i r ≡ true)

  Placed-cons :
      (p : ℕ → R → Bool) (n : ℕ) (x : R) (rows : List R) (y : ℕ × R)
      → Placed p (suc n) rows y
      → Placed p n (x ∷ rows) y
  Placed-cons p n x rows y (k, e, g, t) = (suc k, omega arith, g, t)

  first_from-Placed :
      (p : ℕ → R → Bool) (n : ℕ) (rows : List R) (i : ℕ) (r : R)
      → first_from p n rows ≡ some (i, r)
      → Placed p n rows (i, r)
  unfolding first_from
  first_from-Placed p n [] i r h = cc
  first_from-Placed p n (x ∷ rows) i r h = elim (Bool-cases (p n x)) [
    | inl hit ↦ (0, ground arith, ground arith, ground arith)
    | inr miss ↦ Placed-cons p n x rows (i, r) (first_from-Placed p (suc n) rows i r (ground arith))
  ]

  first_from-none :
      (p : ℕ → R → Bool) (n : ℕ) (rows : List R) (k : ℕ) (r : R)
      → first_from p n rows ≡ none
      → get_elem? rows k ≡ some r
      → p (n + k) r ≡ false
  unfolding first_from
  first_from-none p n [] k r h g = cc
  first_from-none p n (x ∷ rows) zero r h g = rw add-zero (ground arith)
  first_from-none p n (x ∷ rows) (suc k) r h g = ground (arith, first_from-none p (suc n) rows k r)

  get_elem?-append :
      (rows : List R) (r : R) (j : ℕ)
      → get_elem? (rows ++ r ∷ []) j ≡ (if length rows == j then some r else get_elem? rows j)
  get_elem?-append [] r zero = refl
  get_elem?-append [] r (suc j) = ground arith
  get_elem?-append (x ∷ rows) r zero = ground arith
  get_elem?-append (x ∷ rows) r (suc j) = ground (arith, get_elem?-append rows r j)

  get_elem?-length : (rows : List R) → get_elem? rows (length rows) ≡ none
  get_elem?-length [] = refl
  get_elem?-length (x ∷ rows) = get_elem?-length rows

  get_elem?-set :
      (rows : List R) (i : ℕ) (r old : R) (j : ℕ)
      → get_elem? rows i ≡ some old
      → get_elem? (set rows i r) j ≡ (if i == j then some r else get_elem? rows j)
  get_elem?-set [] i r old j h = cc
  get_elem?-set (x ∷ rows) zero r old zero h = refl
  get_elem?-set (x ∷ rows) zero r old (suc j) h = ground arith
  get_elem?-set (x ∷ rows) (suc i) r old zero h = ground arith
  get_elem?-set (x ∷ rows) (suc i) r old (suc j) h = ground (arith, get_elem?-set rows i r old j h)

  sum_from-append :
      (w : ℕ → R → ℤ) (n : ℕ) (rows : List R) (r : R)
      → sum_from w n (rows ++ r ∷ []) ≡ sum_from w n rows +ℤ w (n + length rows) r
  unfolding sum_from
  sum_from-append w n [] r = rw add-zero (grind int_laws)
  sum_from-append w n (x ∷ rows) r =
      rw (sum_from-append w (suc n) rows r, shift n (length rows)) (grind int_laws)

  sum_from-set :
      (w : ℕ → R → ℤ) (n : ℕ) (rows : List R) (i : ℕ) (r old : R)
      → get_elem? rows i ≡ some old
      → sum_from w n (set rows i r) +ℤ w (n + i) old ≡ sum_from w n rows +ℤ w (n + i) r
  unfolding sum_from
  sum_from-set w n [] i r old h = cc
  sum_from-set w n (x ∷ rows) zero r old h =
      let e : x ≡ old = cc in rw (add-zero, e) (grind int_laws)
  sum_from-set w n (x ∷ rows) (suc i) r old h =
      rw (shift n i) (grind (int_laws, sum_from-set w (suc n) rows i r old h))

  place-All :
      (P : ℕ × R → Type 0) (first : R → R → Bool) (x : ℕ × R) (ys : List (ℕ × R))
      → P x
      → All P ys
      → All P (place first x ys)
  unfolding place
  place-All P first x [] hx hy = (hx, tt)
  place-All P first x (y ∷ ys) hx hy = elim (Bool-cases (first y.1 x.1)) [
    | inl later ↦ rw later (hy.0, place-All P first x ys hx hy.1)
    | inr now ↦ rw now (hx, hy)
  ]

  All-cons :
      (p : ℕ → R → Bool) (n : ℕ) (x : R) (rows : List R) (ys : List (ℕ × R))
      → All (Placed p (suc n) rows) ys
      → All (Placed p n (x ∷ rows)) ys
  All-cons p n x rows [] h = tt
  All-cons p n x rows (y ∷ ys) h = (Placed-cons p n x rows y h.0, All-cons p n x rows ys h.1)

  many_from-Placed :
      (p : ℕ → R → Bool) (first : R → R → Bool) (n : ℕ) (rows : List R)
      → All (Placed p n rows) (many_from p first n rows)
  unfolding many_from
  many_from-Placed p first n [] = tt
  many_from-Placed p first n (x ∷ rows) =
      let rest = All-cons p n x rows _ (many_from-Placed p first (suc n) rows) in
      elim (Bool-cases (p n x)) [
        | inl hit ↦ rw hit (place-All _ first (n, x) _ (0, omega arith, refl, hit) rest)
        | inr miss ↦ rw miss rest
      ]

  includes-place :
      (first : R → R → Bool) (x : ℕ × R) (ys : List (ℕ × R)) (i : ℕ)
      → includes (map (λ y. y.0) (place first x ys)) i
        ≡ (if x.0 == i then true else includes (map (λ y. y.0) ys) i)
  unfolding place
  includes-place first x [] i = ground arith
  includes-place first x (y ∷ ys) i = ground (arith, includes-place first x ys i)

  place-Distinct :
      (first : R → R → Bool) (x : ℕ × R) (ys : List (ℕ × R))
      → includes (map (λ y. y.0) ys) x.0 ≡ false
      → Distinct ys
      → Distinct (place first x ys)
  unfolding place
  place-Distinct first x [] h d = (refl, tt)
  place-Distinct first x (y ∷ ys) h d = elim (Bool-cases (first y.1 x.1)) [
    | inl later ↦ rw later (
      ground (arith, includes-place first x ys y.0),
      place-Distinct first x ys (ground arith) d.1,
    )
    | inr now ↦ rw now (h, d)
  ]

  Placed-above :
      (p : ℕ → R → Bool) (n : ℕ) (rows : List R) (ys : List (ℕ × R))
      → All (Placed p (suc n) rows) ys
      → includes (map (λ y. y.0) ys) n ≡ false
  Placed-above p n rows [] h = refl
  Placed-above p n rows ((i, r) ∷ ys) ((k, e, g, t), h) = ground (arith, Placed-above p n rows ys h)

  many_from-Distinct :
      (p : ℕ → R → Bool) (first : R → R → Bool) (n : ℕ) (rows : List R)
      → Distinct (many_from p first n rows)
  unfolding many_from
  many_from-Distinct p first n [] = tt
  many_from-Distinct p first n (x ∷ rows) = elim (Bool-cases (p n x)) [
    | inl hit ↦ rw hit (
        place-Distinct first (n, x) _
          (Placed-above p n rows _ (many_from-Placed p first (suc n) rows))
          (many_from-Distinct p first (suc n) rows))
    | inr miss ↦ rw miss (many_from-Distinct p first (suc n) rows)
  ]

  many_from_complete :
      (p : ℕ → R → Bool) (first : R → R → Bool) (n : ℕ) (rows : List R) (k : ℕ) (r : R)
      → get_elem? rows k ≡ some r
      → p (n + k) r ≡ true
      → includes (map (λ y. y.0) (many_from p first n rows)) (n + k) ≡ true
  unfolding many_from
  many_from_complete p first n [] k r g t = cc
  many_from_complete p first n (x ∷ rows) zero r g t =
      ground (arith, includes-place first (n, x) (many_from p first (suc n) rows) (n + 0))
  many_from_complete p first n (x ∷ rows) (suc k) r g t =
      let rest = many_from_complete p first (suc n) rows k r g (rw (shift n k) at t) in
      rw (shift n k) (
        ground
          (arith, rest, includes-place first (n, x) (many_from p first (suc n) rows) (suc n + k)))

  -- From position zero the offset is the position.
  Placed-found :
      (p : ℕ → R → Bool) (rows : List R) (i : ℕ) (r : R)
      → Placed p 0 rows (i, r)
      → (get_elem? rows i ≡ some r) × (p i r ≡ true)
  Placed-found p rows i r (k, e, g, t) = let e' : i ≡ k = omega arith in (rw e' g, t)

  All-found :
      (p : ℕ → R → Bool) (rows : List R) (ys : List (ℕ × R))
      → All (Placed p 0 rows) ys
      → All (λ x. (get_elem? rows x.0 ≡ some x.1) × (p x.0 x.1 ≡ true)) ys
  All-found p rows [] h = tt
  All-found p rows ((i, r) ∷ ys) h = (Placed-found p rows i r h.0, All-found p rows ys h.1)

pub memory-IsClient : IsClient memory
unfolding memory
memory-IsClient = record {
  found = λ p t i r h. Placed-found p t i r (first_from-Placed p 0 t i r h);
  not_found = λ p t i r h g. rw (zero-add i) at (first_from-none p 0 t i r h g);
  many_found = λ p first t. All-found p t _ (many_from-Placed p first 0 t);
  many_distinct = λ p first t. many_from-Distinct p first 0 t;
  many_complete = λ p first t i r g h.
      rw (zero-add i) at (many_from_complete p first 0 t i r g (rw (zero-add i) h));
  create_fresh = λ r t. get_elem?-length t;
  get-create = λ r t j. get_elem?-append t r j;
  sum-create = λ w r t. rw zero-add at (sum_from-append w 0 t r);
  get-write = λ i r old t j h. get_elem?-set t i r old j h;
  sum-write = λ w i r old t h. rw zero-add at (sum_from-set w 0 t i r old h);
}
