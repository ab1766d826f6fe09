-- ===== src/Common/Pagination/Laws.antt =====
-- The pages of a list lie side by side.
use awmsom.Base.{ℕ, ◌+◌, ◌-◌, ◌*◌, ◌≤◌, ◌≡◌, Option, none, some, ℤ, pos, ◌≤ℤ◌, arith}
use awmsom.Common.Pagination.{at_least_one, build_pagination_params}

page_before : (n : ℕ) → at_least_one (pos (n + 1)) - 1 ≡ n
page_before n = ground arith

page_after : (n : ℕ) → at_least_one (pos (n + 2)) - 1 ≡ n + 1
page_after n = ground arith

next_page : (n x : ℕ) → (n + 1) * x ≡ n * x + x
next_page n x = grind arith

-- A page holds from 1 to 200 rows, whatever the arguments are. A page that is left out, and page 1 or
-- one below it, begins at the first row; and the page after page n, from n = 1, begins where page n
-- ends.
pub build_pagination_params_lem :
    (page : Option ℤ) (limit : Option ℤ) (p : ℤ) (n : ℕ)
    → p ≤ℤ pos 1
    → (1 ≤ (build_pagination_params page limit).take)
      × ((build_pagination_params page limit).take ≤ 200)
      × ((build_pagination_params none limit).skip ≡ 0)
      × ((build_pagination_params (some p) limit).skip ≡ 0)
      × ((build_pagination_params (some (pos (n + 2))) limit).skip
          ≡ (build_pagination_params (some (pos (n + 1))) limit).skip
            + (build_pagination_params (some (pos (n + 1))) limit).take)
unfolding build_pagination_params
build_pagination_params_lem page none p n h =
    (ground arith, ground arith, ground arith, ground arith, ground arith)
build_pagination_params_lem page (some l) p n h = (
  ground arith,
  ground arith,
  ground arith,
  ground arith,
  rw (page_before n, page_after n) (next_page n _),
)
