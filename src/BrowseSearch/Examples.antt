-- ===== src/BrowseSearch/Examples.antt =====
-- A search with two matches and room for one.
use mathlib.Core.List.{Perm}
use resticscope.Prelude.{
  ◌≡◌, refl, false, List, [], ◌∷◌, codes, map, take, length, ◌==◌, if◌then◌else◌, IsSorted,
}
use resticscope.Fuzzy.{is_blank, better_fuzzy, rank_entries}
use resticscope.BrowseSearch.{Row, entry_of_row, default_search_limit, search}
use resticscope.BrowseSearch.Best.{ranked, search-ranked}

abbrev rows : List Row
rows = (codes "/etc", codes "hosts.bak") ∷ (codes "/etc", codes "hosts") ∷ []

not_blank : is_blank (λ c. c == b' ') (codes "ho") ≡ false
unfolding is_blank
not_blank = refl

search-ranked_example :
    (search (λ c. c) (codes "ho") (λ c. c == b' ') 1 rows ≡ (
      map
          (λ r. r.entry)
          (take
            (if 1 == 0 then default_search_limit else 1)
            (ranked [] (rank_entries (λ c. c) (map entry_of_row rows) (codes "ho")))),
      length (rank_entries (λ c. c) (map entry_of_row rows) (codes "ho")),
    ))
    × Perm
        (ranked [] (rank_entries (λ c. c) (map entry_of_row rows) (codes "ho")))
        (rank_entries (λ c. c) (map entry_of_row rows) (codes "ho"))
    × IsSorted better_fuzzy (ranked [] (rank_entries (λ c. c) (map entry_of_row rows) (codes "ho")))
search-ranked_example = search-ranked (λ c. c) (codes "ho") (λ c. c == b' ') 1 rows not_blank
