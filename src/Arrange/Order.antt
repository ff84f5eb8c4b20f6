-- ===== src/Arrange/Order.antt =====
-- The orders are strict, so the sorted lists are in order.
use mathlib.Core.List.Perm
use mathlib.Core.List.{Perm}
use resticscope.Prelude.{
  ◌≡◌, refl, true, false, arith, List, [], ◌∷◌, All, Text, text_lt, text_eq_iff, text_lt_total,
  text_lt-order, IsSorted, ◌<◌, ◌⊎◌, inl, inr, All-impl, sort_stable, IsStrictOrder,
  sort_stable-perm, sort_stable-IsSorted,
}
use resticscope.Status.{RepoStatus, is_zero}
use resticscope.Arrange.{
  SortMode, sort_config, sort_urgency, sort_name, repo_before, sort_rows, BrowseSortMode,
  browse_sort_name, browse_sort_size, browse_sort_modified, BrowseRow, name_before, size_before,
  modified_before, browse_key_before, browse_less, sorted_browse_rows,
}

module _ (lower : Text → Text) where
  repo_before-asym :
      (mode : SortMode) (a b : RepoStatus)
      → repo_before lower mode a b ≡ true
      → repo_before lower mode b a ≡ false
  unfolding repo_before
  repo_before-asym sort_config a b h = refl
  repo_before-asym sort_urgency a b h = ground arith
  repo_before-asym sort_name a b h = text_lt-order.asym (lower a.name) (lower b.name) h

  repo_before_trans :
      (mode : SortMode) (a b c : RepoStatus)
      → repo_before lower mode b a ≡ false
      → repo_before lower mode c b ≡ false
      → repo_before lower mode c a ≡ false
  unfolding repo_before
  repo_before_trans sort_config a b c h k = refl
  repo_before_trans sort_urgency a b c h k = ground arith
  repo_before_trans sort_name a b c h k =
      text_lt-order.not_less_trans (lower a.name) (lower b.name) (lower c.name) h k

  repo_before-order : (mode : SortMode) → IsStrictOrder (repo_before lower mode)
  repo_before-order mode = record {
    asym = repo_before-asym mode;
    not_less_trans = repo_before_trans mode;
  }

  none_before :
      (x : RepoStatus) (rows : List RepoStatus)
      → All (λ y. repo_before lower sort_config y x ≡ false) rows
  unfolding repo_before
  none_before x [] = tt
  none_before x (r ∷ rows) = (refl, none_before x rows)

  unsorted : (rows : List RepoStatus) → IsSorted (repo_before lower sort_config) rows
  unsorted [] = tt
  unsorted (r ∷ rows) = (none_before r rows, unsorted rows)

  -- Sorting the repositories keeps the rows, and in the modes of urgency and name no row stands
  -- behind one that it is before.
  pub sort_rows-IsSorted :
      (rows : List RepoStatus) (mode : SortMode)
      → Perm (sort_rows lower rows mode) rows
        × IsSorted (repo_before lower mode) (sort_rows lower rows mode)
  unfolding sort_rows
  sort_rows-IsSorted rows sort_config = (Perm.refl rows, unsorted rows)
  sort_rows-IsSorted rows sort_urgency = (
    sort_stable-perm (repo_before lower sort_urgency) rows,
    sort_stable-IsSorted (repo_before lower sort_urgency) (repo_before-order sort_urgency) rows,
  )
  sort_rows-IsSorted rows sort_name = (
    sort_stable-perm (repo_before lower sort_name) rows,
    sort_stable-IsSorted (repo_before lower sort_name) (repo_before-order sort_name) rows,
  )

  name_before-asym :
      (a b : BrowseRow) → name_before lower a b ≡ true → name_before lower b a ≡ false
  unfolding name_before
  name_before-asym a b h = ground (
    arith,
    text_eq_iff (lower a.name) (lower b.name),
    text_eq_iff (lower b.name) (lower a.name),
    text_eq_iff a.name b.name,
    text_eq_iff b.name a.name,
    text_lt-order.asym (lower a.name) (lower b.name),
    text_lt-order.asym a.name b.name,
    text_lt-order.asym a.path b.path,
  )

  browse_less-asym :
      (mode : BrowseSortMode) (a b : BrowseRow)
      → browse_less lower mode a b ≡ true
      → browse_less lower mode b a ≡ false
  unfolding browse_less browse_key_before size_before modified_before is_zero
  browse_less-asym browse_sort_name a b h = ground (arith, name_before-asym a b)
  browse_less-asym browse_sort_size a b h = ground (arith, name_before-asym a b)
  browse_less-asym browse_sort_modified a b h = ground (arith, name_before-asym a b)

  text_trans : (s t u : Text) → text_lt t s ≡ false → text_lt u t ≡ false → text_lt u s ≡ false
  text_trans s t u h k = text_lt-order.not_less_trans s t u h k

  -- Two texts that are different are in order one way.
  name_before_trans :
      (a b c : BrowseRow)
      → name_before lower b a ≡ false
      → name_before lower c b ≡ false
      → name_before lower c a ≡ false
  unfolding name_before
  name_before_trans a b c h k = ground (
    arith,
    text_eq_iff (lower b.name) (lower a.name),
    text_eq_iff (lower c.name) (lower b.name),
    text_eq_iff (lower c.name) (lower a.name),
    text_eq_iff b.name a.name,
    text_eq_iff c.name b.name,
    text_eq_iff c.name a.name,
    text_trans (lower a.name) (lower b.name) (lower c.name),
    text_trans a.name b.name c.name,
    text_trans a.path b.path c.path,
    text_lt_total (lower a.name) (lower b.name),
    text_lt_total (lower b.name) (lower c.name),
    text_lt_total a.name b.name,
    text_lt_total b.name c.name,
    text_lt-order.asym (lower a.name) (lower b.name),
    text_lt-order.asym a.name b.name,
  )

  browse_less_trans :
      (mode : BrowseSortMode) (a b c : BrowseRow)
      → browse_less lower mode b a ≡ false
      → browse_less lower mode c b ≡ false
      → browse_less lower mode c a ≡ false
  unfolding browse_less browse_key_before size_before modified_before is_zero
  browse_less_trans browse_sort_name a b c h k = ground (arith, name_before_trans a b c)
  browse_less_trans browse_sort_size a b c h k = ground (arith, name_before_trans a b c)
  browse_less_trans browse_sort_modified a b c h k = ground (arith, name_before_trans a b c)

  browse_less-order : (mode : BrowseSortMode) → IsStrictOrder (browse_less lower mode)
  browse_less-order mode = record {
    asym = browse_less-asym mode;
    not_less_trans = browse_less_trans mode;
  }

  -- The order that the screen shows: by lowercase name, then exact name, then path; by falling
  -- size, or by falling time, then by name; and directories in front.
  abbrev pub IsByName : BrowseRow → BrowseRow → Type 0
  IsByName a b =
      (text_lt (lower a.name) (lower b.name) ≡ true)
      ⊎ ((lower a.name ≡ lower b.name)
          × ((text_lt a.name b.name ≡ true)
              ⊎ ((a.name ≡ b.name) × (text_lt b.path a.path ≡ false))))

  abbrev pub IsByKey : BrowseSortMode → BrowseRow → BrowseRow → Type 0
  IsByKey browse_sort_name a b = IsByName a b
  IsByKey browse_sort_size a b = (b.size < a.size) ⊎ ((a.size ≡ b.size) × IsByName a b)
  IsByKey browse_sort_modified a b =
      (b.mod_time < a.mod_time) ⊎ ((a.mod_time ≡ b.mod_time) × IsByName a b)

  abbrev pub IsShownBefore : BrowseSortMode → BrowseRow → BrowseRow → Type 0
  IsShownBefore mode a b =
      ((a.is_dir ≡ true) × (b.is_dir ≡ false)) ⊎ ((a.is_dir ≡ b.is_dir) × IsByKey mode a b)

  -- Each row is shown before all that follow it.
  abbrev pub AreShown : BrowseSortMode → List BrowseRow → Type 0
  AreShown mode [] = Unit
  AreShown mode (a ∷ rows) = All (λ b. IsShownBefore mode a b) rows × AreShown mode rows

  IsByName_lem : (a b : BrowseRow) → name_before lower b a ≡ false → IsByName a b
  unfolding name_before
  IsByName_lem a b h = ground (
    arith,
    text_eq_iff (lower b.name) (lower a.name),
    text_eq_iff b.name a.name,
    text_lt_total (lower a.name) (lower b.name),
    text_lt_total a.name b.name,
  )

  IsByKey_lem :
      (mode : BrowseSortMode) (a b : BrowseRow)
      → browse_key_before lower mode b a ≡ false
      → IsByKey mode a b
  unfolding browse_key_before size_before modified_before is_zero
  IsByKey_lem browse_sort_name a b h = IsByName_lem a b h
  IsByKey_lem browse_sort_size a b h = ground (arith, IsByName_lem a b)
  IsByKey_lem browse_sort_modified a b h = ground (arith, IsByName_lem a b)

  IsShownBefore_lem :
      (mode : BrowseSortMode) (a b : BrowseRow)
      → browse_less lower mode b a ≡ false
      → IsShownBefore mode a b
  unfolding browse_less
  IsShownBefore_lem mode a b h = ground (arith, IsByKey_lem mode a b)

  AreShown_lem :
      (mode : BrowseSortMode) (rows : List BrowseRow)
      → IsSorted (browse_less lower mode) rows
      → AreShown mode rows
  AreShown_lem mode [] h = tt
  AreShown_lem mode (a ∷ rows) h = (
    All-impl (λ b. browse_less lower mode b a ≡ false) (λ b. IsShownBefore mode a b)
        (λ b. IsShownBefore_lem mode a b) rows h.0,
    AreShown_lem mode rows h.1,
  )

  sorted :
      (mode : BrowseSortMode) (rows : List BrowseRow)
      → Perm (sort_stable (browse_less lower mode) rows) rows
        × AreShown mode (sort_stable (browse_less lower mode) rows)
  sorted mode rows = (
    sort_stable-perm (browse_less lower mode) rows,
    AreShown_lem mode (sort_stable (browse_less lower mode) rows)
        (sort_stable-IsSorted (browse_less lower mode) (browse_less-order mode) rows),
  )

  -- By name a directory is shown as it comes. By size and by time its rows are kept and shown with
  -- the directories in front, the larger or the later of two before the other (a row without a time
  -- behind all that have one), and rows of the same size or time by lowercase name, exact name,
  -- then path.
  pub sorted_browse_rows-AreShown :
      (canonical : List BrowseRow) (mode : BrowseSortMode)
      → ((mode ≡ browse_sort_name) × (sorted_browse_rows lower canonical mode ≡ canonical))
        ⊎ (Perm (sorted_browse_rows lower canonical mode) canonical
            × AreShown mode (sorted_browse_rows lower canonical mode))
  unfolding sorted_browse_rows
  sorted_browse_rows-AreShown rows browse_sort_name = inl (refl, refl)
  sorted_browse_rows-AreShown rows browse_sort_size = inr (sorted browse_sort_size rows)
  sorted_browse_rows-AreShown rows browse_sort_modified = inr (sorted browse_sort_modified rows)
