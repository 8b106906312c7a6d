-- ===== src/Shared/Pagination.antt =====
-- internal/shared/pagination/pagination.go and
-- internal/todo/domain/valueobject/todo_filters.go. `atoi` is strconv.Atoi, with none for an error
-- or a negative number, which the code treats alike; a negative page is 0 here, which is below 1
-- too. The page count is rounded up in floating point, which is exact for totals below 2 ^ 53.
use go_codebase.Prelude.{
  ℕ, ◌+◌, ◌-◌, ◌*◌, ◌/◌, ◌≤◌, String, Option, none, some, ltb, str_eq, if◌then◌else◌, arith,
}

pub record Pagination : Type 0 where
  pub page : ℕ
  pub per_page : ℕ
  pub total : ℕ
  pub total_pages : ℕ

pub record PaginatedResponse (D : Type 0) : Type 0 where
  pub data_of : D
  pub pagination : Pagination

abbrev positive_or : ℕ → Option ℕ → ℕ
positive_or default none = default
positive_or default (some n) = if ltb 0 n then n else default

abbrev asked : (atoi : String → Option ℕ) → (default : ℕ) → String → ℕ
asked atoi default p = if str_eq p "" then default else positive_or default (atoi p)

-- `page` and `per_page` are the query's values; the result is the page and the page size.
unfoldable pub new_pagination :
    (atoi : String → Option ℕ) (page per_page : String) (default_per_page max_per_page : ℕ) → ℕ × ℕ
new_pagination atoi page per_page default_per_page max_per_page =
    let size = asked atoi default_per_page per_page in
    (asked atoi 1 page, if ltb max_per_page size then max_per_page else size)

-- For a page size of at least 1.
unfoldable pub calculate : (total : ℕ) → Pagination → Pagination
calculate total p = record p { total = total; total_pages = (total + p.per_page - 1) / p.per_page }

unfoldable pub offset : Pagination → ℕ
offset p = (p.page - 1) * p.per_page

unfoldable pub new_paginated_response :
    {D : Type 0} → D → (page per_page total : ℕ) → PaginatedResponse D
unfolding calculate
new_paginated_response d page per_page total = record {
  data_of = d;
  pagination =
      calculate total (record { page = page; per_page = per_page; total = total; total_pages = 0 });
}

pub record TodoFilters : Type 0 where
  pub query : String
  pub page : ℕ
  pub per_page : ℕ

abbrev at_least_one : ℕ → (default : ℕ) → ℕ
at_least_one n default = if ltb n 1 then default else n

abbrev at_most_100 : ℕ → ℕ
at_most_100 n = if ltb 100 n then 100 else n

unfoldable pub new_todo_filters : (query : String) (page per_page : ℕ) → TodoFilters
new_todo_filters query page per_page = record {
  query = query;
  page = at_least_one page 1;
  per_page = at_most_100 (at_least_one per_page 20);
}

unfoldable pub filters_offset : TodoFilters → ℕ
filters_offset f = (f.page - 1) * f.per_page

-- Whatever page and page size a request for todos names, the page is at least 1 and its size from
-- 1 to 100.
pub new_todo_filters-bounded :
    (query : String) (page per_page : ℕ)
    → (1 ≤ (new_todo_filters query page per_page).page)
      × (1 ≤ (new_todo_filters query page per_page).per_page)
      × ((new_todo_filters query page per_page).per_page ≤ 100)
unfolding new_todo_filters
new_todo_filters-bounded query page per_page = (ground arith, ground arith, ground arith)

-- Whatever a request's query says, the page is at least 1, and the size is at least 1 and at most
-- the maximum, if the maximum and the default are at least 1.
pub new_pagination-bounded :
    (atoi : String → Option ℕ) (page per_page : String) (default_per_page max_per_page : ℕ)
    → 1 ≤ default_per_page
    → 1 ≤ max_per_page
    → (1 ≤ (new_pagination atoi page per_page default_per_page max_per_page).0)
      × (1 ≤ (new_pagination atoi page per_page default_per_page max_per_page).1)
      × ((new_pagination atoi page per_page default_per_page max_per_page).1 ≤ max_per_page)
unfolding new_pagination
new_pagination-bounded atoi page per_page default_per_page max_per_page d m =
    (ground arith, ground arith, ground arith)
