-- ===== src/Pagination.antt =====
-- The page window of a list: Cutelyst/Plugins/Utils/Pagination/pagination.cpp. Where the
-- arithmetic leaves an `int`, there is no result.
pub mod Window
mod Tests
use cutelyst.Common.{
  ℕ, zero, suc, ◌+◌, ◌-◌, ◌*◌, ◌/◌, min, ltb, leb, ◌==◌, ◌||◌, Option, none, some, if◌then◌else◌,
  Bool, false, not, List, [], ◌∷◌,
}
use cutelyst.Common.Int.{ℤ, pos, negsuc, sub_ℕ}

-- The greatest `int`, of 32 bits.
abbrev pub int_max : ℕ
int_max = 2147483647

-- What the constructor does to its last three arguments.
abbrev pub at_least_one : ℤ → ℕ
at_least_one (pos zero) = 1
at_least_one (pos (suc n)) = suc n
at_least_one (negsuc n) = 1

-- `((numberOfItems - 1) / itemsPerPage) + 1`, with the division of C, which drops the fraction.
abbrev last_page_of : ℤ → ℕ → ℤ
last_page_of (pos zero) per_page = sub_ℕ 1 (1 / per_page)
last_page_of (pos (suc n)) per_page = pos (n / per_page + 1)
last_page_of (negsuc n) per_page = sub_ℕ 1 ((n + 2) / per_page)

-- `std::ranges::min` of a number that is not negative and another.
abbrev lower_of : ℕ → ℤ → ℤ
lower_of a (pos b) = pos (min a b)
lower_of a (negsuc b) = negsuc b

abbrev pub start_page_of : ℤ → ℕ → ℕ
start_page_of (pos current) links = if ltb current (links + 1) then 1 else current - links
start_page_of (negsuc current) links = 1

-- The rounds of `for (int i = startPage; i <= endPage; ++i)`, of which there are `count`.
pub pages_from : ℕ → ℕ → List ℕ
pages_from i zero = []
pages_from i (suc count) = i ∷ pages_from (suc i) count

abbrev pages_between : ℕ → ℤ → List ℕ
pages_between start (pos end) = pages_from start (end + 1 - start)
pages_between start (negsuc end) = []

-- The values that the constructor inserts.
pub record Pagination : Type 0 where
  pub limit : ℕ
  pub offset : ℕ
  pub current_page : ℕ
  pub enable_first : Bool
  pub enable_last : Bool
  pub pages : List ℕ
  pub last_page : ℤ
  pub number_of_items : ℤ

abbrev above_one : ℤ → Bool
above_one (pos n) = ltb 1 n
above_one (negsuc n) = false

abbrev same_int : ℤ → ℤ → Bool
same_int (pos a) (pos b) = a == b
same_int (negsuc a) (negsuc b) = a == b
same_int _ _ = false

-- The static function Pagination::offset.
abbrev offset_of : ℤ → ℤ → Option ℕ
offset_of items_per_page current_page =
    let offset = (at_least_one current_page - 1) * at_least_one items_per_page in
    if ltb int_max offset then none else some offset

-- `numberOfItems - 1` is below the least `int`.
abbrev below_int : ℤ → Bool
below_int (pos n) = false
below_int (negsuc n) = leb int_max n

abbrev is_int_max : ℤ → Bool
is_int_max (pos n) = n == int_max
is_int_max (negsuc n) = false

-- The values, from arguments that are positive.
pub page_window : ℤ → ℕ → ℕ → ℕ → Pagination
page_window number_of_items per_page asked links =
    let result_last_page = last_page_of number_of_items per_page in
    let current = lower_of asked result_last_page in
    let start_page = start_page_of current links in
    record {
      limit = per_page;
      offset = (asked - 1) * per_page;
      current_page = asked;
      enable_first = above_one current;
      enable_last = not (same_int current result_last_page);
      pages = pages_between start_page (lower_of (links * 2 + start_page) result_last_page);
      last_page = result_last_page;
      number_of_items = number_of_items;
    }

-- Whether an addition, a multiplication or the `++i` behind the last page leaves an `int`.
abbrev leaves_int : ℤ → ℕ → ℕ → ℕ → Bool
leaves_int number_of_items per_page asked links =
    let result_last_page = last_page_of number_of_items per_page in
    let start_page = start_page_of (lower_of asked result_last_page) links in
    ltb int_max ((asked - 1) * per_page)
    || below_int number_of_items
    || ltb int_max (links * 2 + start_page)
    || is_int_max (lower_of (links * 2 + start_page) result_last_page)

pub paginate : ℤ → ℤ → ℤ → ℤ → Option Pagination
unfolding page_window
paginate number_of_items items_per_page current_page page_links =
    let per_page = at_least_one items_per_page in
    let asked = at_least_one current_page in
    let links = at_least_one page_links in
    if leaves_int number_of_items per_page asked links
    then none
    else some (page_window number_of_items per_page asked links)
