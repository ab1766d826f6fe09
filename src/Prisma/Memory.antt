-- ===== src/Prisma/Memory.antt =====
-- A database in memory, which shows that the assumptions on the client can be met.
pub mod Laws
use awmsom.Base.{
  ℕ, suc, ◌+◌, ◌≡◌, ◌≢◌, refl, Bool, true, false, Option, none, some, List, [], ◌∷◌, ◌++◌, ℤ, pos,
  ◌+ℤ◌, ◌==◌, if◌then◌else◌, All, length, get_elem?, set,
}
use awmsom.Prisma.Interface.{Prisma}

module _ {R : Type 0} where
  first_from : (ℕ → R → Bool) → ℕ → List R → Option (ℕ × R)
  first_from p n [] = none
  first_from p n (r ∷ rows) = if p n r then some (n, r) else first_from p (suc n) rows

  place : (R → R → Bool) → ℕ × R → List (ℕ × R) → List (ℕ × R)
  place first x [] = x ∷ []
  place first x (y ∷ ys) = if first y.1 x.1 then y ∷ place first x ys else x ∷ y ∷ ys

  many_from : (ℕ → R → Bool) → (R → R → Bool) → ℕ → List R → List (ℕ × R)
  many_from p first n [] = []
  many_from p first n (r ∷ rows) =
      let rest = many_from p first (suc n) rows in if p n r then place first (n, r) rest else rest

  sum_from : (ℕ → R → ℤ) → ℕ → List R → ℤ
  sum_from w n [] = pos 0
  sum_from w n (r ∷ rows) = w n r +ℤ sum_from w (suc n) rows

module _ {K : Type 0} where
  add_group : (K → K → Bool) → K × ℤ → List (K × ℤ) → List (K × ℤ)
  add_group same g [] = g ∷ []
  add_group same g (h ∷ hs) =
      if same g.0 h.0 then (h.0, h.1 +ℤ g.1) ∷ hs else h ∷ add_group same g hs

  groups_from :
      {R : Type 0} → (ℕ → R → Bool) → (K → K → Bool) → (R → K) → (R → ℤ) → ℕ → List R → List (K × ℤ)
  groups_from p same k q n [] = []
  groups_from p same k q n (r ∷ rows) =
      let rest = groups_from p same k q (suc n) rows in
      if p n r then add_group same (k r, q r) rest else rest

unfoldable pub memory : Prisma
unfolding first_from many_from sum_from place add_group groups_from
memory = record {
  Table = List;
  get = get_elem?;
  find_first = λ p t. first_from p 0 t;
  find_many = λ p first t. many_from p first 0 t;
  create = λ r t. (length t, t ++ r ∷ []);
  write = λ i r t. set t i r;
  sum = λ w t. sum_from w 0 t;
  group_by = λ p same k q t. groups_from p same k q 0 t;
}
