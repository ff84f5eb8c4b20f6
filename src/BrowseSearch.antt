-- ===== src/BrowseSearch.antt =====
-- Search and insertTopN of internal/browsedb/queries.go: the matches of a snapshot's rows, the best of
-- them kept in a list of the limit's length.
pub mod Best
mod Examples
use resticscope.Prelude.{
  ℕ, zero, suc, ◌+◌, Text, Bool, true, false, ◌&&◌, not, none, some, List, [], ◌∷◌, length, take,
  map, ltb, leb, ◌==◌, if◌then◌else◌,
}
use resticscope.Paths.{join_browse_path}
use resticscope.Fuzzy.{FuzzyRank, BrowseEntry, better_fuzzy, fuzzy_score, is_blank}

-- In front of the first rank that it outranks: `sort.Search` on a list in order.
unfoldable pub insert_ranked : FuzzyRank → List FuzzyRank → List FuzzyRank
unfolding better_fuzzy
insert_ranked r [] = r ∷ []
insert_ranked r (y ∷ ys) = if better_fuzzy r y then r ∷ y ∷ ys else y ∷ insert_ranked r ys

-- Whether a rank beats the last one.
unfoldable pub beats_worst : FuzzyRank → List FuzzyRank → Bool
unfolding better_fuzzy
beats_worst r [] = true
beats_worst r (y ∷ []) = better_fuzzy r y
beats_worst r (y ∷ z ∷ ys) = beats_worst r (z ∷ ys)

unfoldable pub insert_top_n : List FuzzyRank → FuzzyRank → ℕ → List FuzzyRank
unfolding beats_worst insert_ranked
insert_top_n top r limit =
    if leb limit (length top) && not (beats_worst r top)
    then top
    else if ltb (length top) limit
    then insert_ranked r top
    else take (length top) (insert_ranked r top)

abbrev pub default_search_limit : ℕ
default_search_limit = 200

-- A row of the query: the parent's path and the name. The database chooses the rows.
abbrev pub Row : Type 0
Row = Text × Text

unfoldable pub entry_of_row : Row → BrowseEntry
unfolding join_browse_path
entry_of_row (parent, name) = record { name = name; path = join_browse_path parent name }

module _ (fold : ℕ → ℕ) (query : Text) where
  -- The loop over the rows, with the best ranks and the count so far. The errors of the query and of
  -- its rows are not modelled, nor are the fields of an entry besides its name and path.
  unfoldable pub scan_rows : List FuzzyRank → ℕ → ℕ → List Row → List FuzzyRank × ℕ
  unfolding fuzzy_score insert_top_n entry_of_row
  scan_rows top total limit [] = (top, total)
  scan_rows top total limit (row ∷ rows) = elim (fuzzy_score fold row.1 query) [
    | none ↦ scan_rows top total limit rows
    | some m ↦
        scan_rows (insert_top_n top (record { entry = entry_of_row row; match = m }) limit)
          (total + 1) limit rows
  ]

  -- The entries that are shown, and the count of all matches. A limit that is not positive is zero.
  unfoldable pub search : (ℕ → Bool) → ℕ → List Row → List BrowseEntry × ℕ
  unfolding is_blank scan_rows
  search is_space limit rows =
      if is_blank is_space query
      then ([], 0)
      else (let (top, total) =
            scan_rows [] 0 (if limit == 0 then default_search_limit else limit) rows in
          (map (λ r. r.entry) top, total))
