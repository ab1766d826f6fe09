-- ===== src/Common/Pagination.antt =====
-- common/pagination/pagination.service.ts, on whole numbers, which may be negative.
pub mod Laws
use awmsom.Base.{ℕ, ◌-◌, ◌*◌, ℤ, pos, leb, leb_ℤ, pos_part, Option, none, some, if◌then◌else◌}

-- `Math.max(x, 1)`, which is never negative
abbrev pub at_least_one : ℤ → ℕ
at_least_one x = if leb_ℤ x (pos 1) then 1 else pos_part x

pub record PaginationParams : Type 0 where
  pub skip : ℕ
  pub take : ℕ

-- `page = 1, limit = 50` where they are left out
unfoldable pub build_pagination_params : Option ℤ → Option ℤ → PaginationParams
build_pagination_params page limit =
    let asked = at_least_one (elim limit [ none ↦ pos 50 | some l ↦ l ]) in
    let safe_limit = if leb asked 200 then asked else 200 in
    let safe_page = at_least_one (elim page [ none ↦ pos 1 | some p ↦ p ]) in
    record { skip = (safe_page - 1) * safe_limit; take = safe_limit }
