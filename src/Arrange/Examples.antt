-- ===== src/Arrange/Examples.antt =====
-- Two rows of a list and two of a directory.
use mathlib.Core.List.{Perm}
use resticscope.Prelude.{◌≡◌, ◌⊎◌, false, none, List, [], ◌∷◌, codes}
use resticscope.Status.{RepoStatus, RepoState, green, red}
use resticscope.Arrange.{BrowseRow, browse_sort_name, browse_sort_size, sorted_browse_rows}
use resticscope.Arrange.Order.{AreShown, sorted_browse_rows-AreShown}

abbrev unknown_state : RepoState
unknown_state = record {
  name = [];
  refreshed_at = 0;
  last_snapshot = 0;
  locked_since = none;
  last_error = [];
}

abbrev rows : List RepoStatus
rows =
    record { name = codes "a"; status = green; state = unknown_state; stale = false }
    ∷ record { name = codes "b"; status = red; state = unknown_state; stale = false }
    ∷ []

abbrev listing : List BrowseRow
listing =
    record { path = codes "/a"; name = codes "a"; is_dir = false; size = 1; mod_time = 0 }
    ∷ record { path = codes "/b"; name = codes "b"; is_dir = false; size = 2; mod_time = 0 }
    ∷ []

sorted_browse_rows-AreShown_example :
    ((browse_sort_size ≡ browse_sort_name)
      × (sorted_browse_rows (λ s. s) listing browse_sort_size ≡ listing))
    ⊎ (Perm (sorted_browse_rows (λ s. s) listing browse_sort_size) listing
        × AreShown (λ s. s) browse_sort_size (sorted_browse_rows (λ s. s) listing browse_sort_size))
sorted_browse_rows-AreShown_example = sorted_browse_rows-AreShown (λ s. s) listing browse_sort_size
