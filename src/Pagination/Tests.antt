-- ===== src/Pagination/Tests.antt =====
-- A page of Cutelyst/Plugins/Utils/Pagination/pagination.cpp.
use cutelyst.Common.{ℕ, ◌≡◌, refl, List, [], ◌∷◌, Option, none, some, arith}
use cutelyst.Common.Int.{pos, negsuc}
use cutelyst.Pagination.{at_least_one, pages_from, Pagination, page_window, paginate}
use cutelyst.Pagination.Window.{IsWindow, paginate-IsWindow}

-- Page 5 of 100 items, 10 on a page, with 2 links to either side.
pages_of : Option Pagination → List ℕ
pages_of none = []
pages_of (some r) = r.pages

middle_pages : pages_of (paginate (pos 100) (pos 10) (pos 5) (pos 2)) ≡ 3 ∷ 4 ∷ 5 ∷ 6 ∷ 7 ∷ []
unfolding paginate page_window pages_from pages_of
middle_pages = refl

too_many_links : paginate (pos 100) (pos 10) (pos 5) (pos 0x40000000) ≡ none
unfolding paginate
too_many_links = refl

paginate-IsWindow_example :
    (r : Pagination) × (paginate (pos 100) (pos 10) (negsuc 0) (pos 2) ≡ some r)
    × IsWindow 100 r (at_least_one (pos 2)) (at_least_one (negsuc 0))
paginate-IsWindow_example =
    paginate-IsWindow 99 (pos 10) (negsuc 0) (pos 2) (omega arith) (omega arith) (omega arith)
