-- ===== src/Pages/Tests.antt =====
-- Pages of a concrete list.
use featuresignals_unified.Base.{
  ℕ, ◌+◌, ◌≤◌, ◌<◌, ◌≡◌, ◌↔◌, refl, true, List, [], ◌∷◌, length, arith,
}
use featuresignals_unified.Base.Int.{ℤ, pos}
use featuresignals_unified.Base.Text.{Text, bytes, text_eq}
use featuresignals_unified.Pages.{parse_pagination, parse_sort, new_response, paginate}
use featuresignals_unified.Pages.Laws.{
  parse_pagination_bounds, SafeSort, parse_sort-SafeSort, walk, walk-last_page,
  new_response-has_more,
}

-- A parser that reads the empty text as 0 and any other as 70.
abbrev toy_atoi : Text → ℤ
toy_atoi [] = pos 0
toy_atoi (c ∷ s) = pos 70

parse_pagination_bounds_test :
    (1 ≤ (parse_pagination toy_atoi (bytes "70") []).limit)
    × ((parse_pagination toy_atoi (bytes "70") []).limit ≤ 100)
    × ((n : ℕ)
        → toy_atoi (bytes "70") ≡ pos n
        → 1 ≤ n
        → n ≤ 100
        → (parse_pagination toy_atoi (bytes "70") []).limit ≡ n)
    × ((n : ℕ) → toy_atoi [] ≡ pos n → (parse_pagination toy_atoi (bytes "70") []).offset ≡ n)
parse_pagination_bounds_test = parse_pagination_bounds toy_atoi (bytes "70") []

sorts :
    (parse_sort (bytes "name:desc") (bytes "flags") ≡ (bytes "name", bytes "DESC"))
    × (parse_sort (bytes "id;drop") (bytes "flags") ≡ (bytes "created_at", bytes "DESC"))
unfolding parse_sort text_eq
sorts = (refl, refl)

parse_sort-SafeSort_test : SafeSort (bytes "flags") (parse_sort (bytes "name:desc") (bytes "flags"))
parse_sort-SafeSort_test = parse_sort-SafeSort (bytes "name:desc") (bytes "flags")

abbrev five : List ℕ
five = 11 ∷ 12 ∷ 13 ∷ 14 ∷ 15 ∷ []

abbrev middle : List ℕ
middle = 13 ∷ 14 ∷ []

walk-last_page_example : walk 2 0 (new_response middle (length five) 2 2).last_page five ≡ five
walk-last_page_example = walk-last_page five middle 2 2 (omega arith)

second_page :
    (paginate five (record { limit = 2; offset = 2 }) ≡ (middle, 5))
    × ((new_response middle 5 2 2).last_page ≡ 3)
unfolding paginate new_response
second_page = (refl, refl)

new_response-has_more_test :
    ((new_response
        (paginate five (record { limit = 2; offset = 2 })).0
        (paginate five (record { limit = 2; offset = 2 })).1
        2
        2).has_more
      ≡ true)
    ↔ (2 + 2 < length five)
new_response-has_more_test = new_response-has_more five (record { limit = 2; offset = 2 })
