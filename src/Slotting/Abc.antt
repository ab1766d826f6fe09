-- ===== src/Slotting/Abc.antt =====
-- calculateAbc: the classes of products by their share of the consumption, which is a number of
-- ten-thousandths, not negative. Shares are compared exactly.
pub mod Laws
use awmsom.Base.{ℕ, zero, suc, ◌+◌, ◌*◌, leb, if◌then◌else◌, List, [], ◌∷◌}

pub data AbcClass : Type 0 where
  class_a class_b class_c : AbcClass

-- `sort((a, b) => b[1] - a[1])`, a stable sort. An entry is a product with its consumption.
abbrev pub place_entry : ℕ × ℕ → List (ℕ × ℕ) → List (ℕ × ℕ)
place_entry x [] = x ∷ []
place_entry x (y ∷ ys) = let rest = place_entry x ys in if leb y.1 x.1 then x ∷ y ∷ ys else y ∷ rest

abbrev pub sort_entries : List (ℕ × ℕ) → List (ℕ × ℕ)
sort_entries [] = []
sort_entries (x ∷ xs) = place_entry x (sort_entries xs)

abbrev pub sum_entries : List (ℕ × ℕ) → ℕ
sum_entries [] = 0
sum_entries (x ∷ xs) = x.1 + sum_entries xs

-- `|| 1`
abbrev pub or_one : ℕ → ℕ
or_one zero = 1
or_one (suc n) = suc n

-- `ratio <= 0.8` and `ratio <= 0.95`
abbrev pub class_of : ℕ → ℕ → AbcClass
class_of total cumulative =
    if leb (cumulative * 10) (total * 8)
    then class_a
    else if leb (cumulative * 100) (total * 95)
    then class_b
    else class_c

-- Each entry with its class.
abbrev pub classify : ℕ → ℕ → List (ℕ × ℕ) → List ((ℕ × ℕ) × AbcClass)
classify total cumulative [] = []
classify total cumulative (x ∷ xs) =
    (x, class_of total (cumulative + x.1)) ∷ classify total (cumulative + x.1) xs

unfoldable pub calculate_abc : List (ℕ × ℕ) → List ((ℕ × ℕ) × AbcClass)
calculate_abc consumptions =
    let entries = sort_entries consumptions in classify (or_one (sum_entries entries)) 0 entries
