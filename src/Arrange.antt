-- ===== src/Arrange.antt =====
-- The orders of the lists: `urgencyRank`, `sortRows`, `browseLess` and `sortedBrowseRows` of
-- internal/tui/arrange.go. `strings.ToLower` is the parameter `lower`.
pub mod Order
pub mod Examples
use resticscope.Prelude.{
  ℕ, Bool, true, false, not, ◌&&◌, List, [], ◌∷◌, Text, text_eq, text_lt, ltb, ◌==◌, sort_stable,
  if◌then◌else◌,
}
use resticscope.Status.{Status, green, amber, red, grey, error, RepoStatus, is_zero}

pub data SortMode : Type 0 where
  sort_config sort_urgency sort_name : SortMode

unfoldable pub urgency_rank : Status → ℕ
urgency_rank error = 0
urgency_rank red = 1
urgency_rank amber = 2
urgency_rank green = 3
urgency_rank grey = 4

unfoldable pub repo_before : (Text → Text) → SortMode → RepoStatus → RepoStatus → Bool
repo_before lower sort_config a b = false
repo_before lower sort_urgency a b = ltb (urgency_rank a.status) (urgency_rank b.status)
repo_before lower sort_name a b = text_lt (lower a.name) (lower b.name)

unfoldable pub sort_rows : (Text → Text) → List RepoStatus → SortMode → List RepoStatus
sort_rows lower rows sort_config = rows
sort_rows lower rows sort_urgency = sort_stable (repo_before lower sort_urgency) rows
sort_rows lower rows sort_name = sort_stable (repo_before lower sort_name) rows

pub data BrowseSortMode : Type 0 where
  browse_sort_name browse_sort_size browse_sort_modified : BrowseSortMode

-- The fields of `BrowseEntry` that the order reads; a size is not negative.
pub record BrowseRow : Type 0 where
  pub path : Text
  pub name : Text
  pub is_dir : Bool
  pub size : ℕ
  pub mod_time : ℕ

-- By lowercase name, exact name, then path.
unfoldable pub name_before : (Text → Text) → BrowseRow → BrowseRow → Bool
name_before lower a b =
    if not (text_eq (lower a.name) (lower b.name))
    then text_lt (lower a.name) (lower b.name)
    else if not (text_eq a.name b.name)
    then text_lt a.name b.name
    else text_lt a.path b.path

unfoldable pub size_before : (Text → Text) → BrowseRow → BrowseRow → Bool
size_before lower a b =
    let by_name = name_before lower a b in if a.size == b.size then by_name else ltb b.size a.size

unfoldable pub modified_before : (Text → Text) → BrowseRow → BrowseRow → Bool
modified_before lower a b =
    let by_name = name_before lower a b in
    if is_zero a.mod_time
    then (if is_zero b.mod_time then by_name else false)
    else if is_zero b.mod_time
    then true
    else if a.mod_time == b.mod_time
    then by_name
    else ltb b.mod_time a.mod_time

unfoldable pub browse_key_before : (Text → Text) → BrowseSortMode → BrowseRow → BrowseRow → Bool
browse_key_before lower browse_sort_name a b = name_before lower a b
browse_key_before lower browse_sort_size a b = size_before lower a b
browse_key_before lower browse_sort_modified a b = modified_before lower a b

unfoldable pub browse_less : (Text → Text) → BrowseSortMode → BrowseRow → BrowseRow → Bool
browse_less lower mode a b =
    if a.is_dir
    then (if b.is_dir then browse_key_before lower mode a b else true)
    else if b.is_dir
    then false
    else browse_key_before lower mode a b

unfoldable pub sorted_browse_rows : (Text → Text) → List BrowseRow → BrowseSortMode → List BrowseRow
sorted_browse_rows lower canonical browse_sort_name = canonical
sorted_browse_rows lower canonical browse_sort_size =
    sort_stable (browse_less lower browse_sort_size) canonical
sorted_browse_rows lower canonical browse_sort_modified =
    sort_stable (browse_less lower browse_sort_modified) canonical
