-- ===== src/Pagination/Window.antt =====
-- The pages that Cutelyst/Plugins/Utils/Pagination/pagination.cpp shows.
use cutelyst.Common.{
  ltb, ◌==◌, false, some, ℕ, zero, suc, ◌+◌, ◌-◌, ◌*◌, ◌/◌, min, ◌≤◌, ◌<◌, List, [], ◌∷◌, length,
  All, ◌≡◌, ◌⊎◌, inl, inr, refl, ap, arith,
}
use native.Mathlib.Nat.{div-mul-le_self, lt-div-mul-add}
use cutelyst.Common.Int.{ℤ, pos, negsuc}
use cutelyst.Pagination.{
  int_max, at_least_one, start_page_of, pages_from, Pagination, page_window, paginate,
}

-- A page is among those shown.
abbrev Shows : ℕ → List ℕ → Type 0
Shows p [] = ⊥
Shows p (q ∷ ps) = (p ≡ q) ⊎ Shows p ps

Nat-cases : (i p : ℕ) → i ≤ p → (p ≡ i) ⊎ (suc i ≤ p)
Nat-cases i p h = ground arith

pages_from-All :
    (count i last : ℕ)
    → 1 ≤ i
    → i + count ≤ last + 1
    → All (λ p. (1 ≤ p) × (p ≤ last)) (pages_from i count)
unfolding pages_from
pages_from-All zero i last l h = tt
pages_from-All (suc count) i last l h =
    ((l, omega arith), pages_from-All count (suc i) last (omega arith) (omega arith))

length-pages_from : (i count : ℕ) → length (pages_from i count) ≡ count
unfolding pages_from
length-pages_from i zero = refl
length-pages_from i (suc count) = ap suc (length-pages_from (suc i) count)

pages_from-Shows : (count i p : ℕ) → i ≤ p → p < i + count → Shows p (pages_from i count)
unfolding pages_from
pages_from-Shows zero i p l h = absurd (omega arith)
pages_from-Shows (suc count) i p l h = elim (Nat-cases i p l) [
  | inl e ↦ inl e
  | inr h' ↦ inr (pages_from-Shows count (suc i) p h' (omega arith))
]

-- What a page window is to be, for `items` items.
pub record IsWindow (items : ℕ) (r : Pagination) (links asked : ℕ) : Type 0 where
  pub last : ℕ
  pub is_last : r.last_page ≡ pos last
  pub covers : items ≤ last * r.limit
  pub no_more : (last - 1) * r.limit < items
  pub between : All (λ p. (1 ≤ p) × (p ≤ last)) r.pages
  pub short : length r.pages ≤ 2 * links + 1
  pub shows_current : Shows (min asked last) r.pages

at_least_one-positive : (z : ℤ) → 1 ≤ at_least_one z
at_least_one-positive (pos zero) = omega arith
at_least_one-positive (pos (suc n)) = omega arith
at_least_one-positive (negsuc n) = omega arith

-- The last page holds the last item, and no page before it does.
last-covers : (n per_page : ℕ) → 1 ≤ per_page → suc n ≤ (n / per_page + 1) * per_page
last-covers n per_page h = let above = lt-div-mul-add {a = n} {b = per_page} h in omega arith

last-no_more : (n per_page : ℕ) → (n / per_page + 1 - 1) * per_page < suc n
last-no_more n per_page =
    let below = div-mul-le_self n per_page in
    let same : n / per_page + 1 - 1 ≡ n / per_page = omega arith in rw same (omega arith)

-- There are no more pages than items.
last-fits : (n per_page : ℕ) → 1 ≤ per_page → n / per_page ≤ n
last-fits n per_page h = omega (arith, div-mul-le_self n per_page)

start_page_of-bounds :
    (current links : ℕ)
    → 1 ≤ current
    → (1 ≤ start_page_of (pos current) links)
      × (start_page_of (pos current) links ≤ current)
      × (current ≤ start_page_of (pos current) links + links)
start_page_of-bounds current links h = ground arith

-- For at least one item and any page size, page asked for and number of links, those that are not
-- positive taken as 1, where an `int` holds the offset, the sum of twice the links and the page asked
-- for, and a number above the number of items: there is a result, and in it the last page is the one
-- that holds the last item, the pages shown lie between 1 and the last page, are at most one more than
-- twice the links, and show the page asked for, or the last page where that lies behind it.
pub paginate-IsWindow :
    (n : ℕ) (items_per_page current_page page_links : ℤ)
    → suc n < int_max
    → (at_least_one current_page - 1) * at_least_one items_per_page ≤ int_max
    → at_least_one page_links * 2 + at_least_one current_page ≤ int_max
    → (r : Pagination) × (paginate (pos (suc n)) items_per_page current_page page_links ≡ some r)
      × IsWindow (suc n) r (at_least_one page_links) (at_least_one current_page)
unfolding paginate page_window
paginate-IsWindow n items_per_page current_page page_links few near_offset near_links =
    let per_page = at_least_one items_per_page in
    let asked = at_least_one current_page in
    let links = at_least_one page_links in
    let last = n / per_page + 1 in
    let start = start_page_of (pos (min asked last)) links in
    let count = min (links * 2 + start) last + 1 - start in
    let one = at_least_one-positive current_page in
    let (low, high, near) = start_page_of-bounds (min asked last) links (omega arith) in
    let pages = pages_from start count in
    let last_fits = last-fits n per_page (at_least_one-positive items_per_page) in
    let a : ltb int_max ((asked - 1) * per_page) ≡ false = ground arith in
    let b : ltb int_max (links * 2 + start) ≡ false = ground arith in
    let c : (min (links * 2 + start) last == int_max) ≡ false = ground arith in
    (
      page_window (pos (suc n)) per_page asked links,
      rw (a, b, c) refl,
      record {
        last = last;
        is_last = refl;
        covers = last-covers n per_page (at_least_one-positive items_per_page);
        no_more = last-no_more n per_page;
        between = pages_from-All count start last low (omega arith);
        short = rw (length-pages_from start count) (omega arith);
        shows_current = pages_from-Shows count start (min asked last) high (omega arith);
      },
    )
