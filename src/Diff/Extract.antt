-- ===== src/Diff/Extract.antt =====
-- `DiffExtractIncludes` of internal/model/diff.go: the paths that are restored from each of the two
-- snapshots. A Go map is an association list where the loops write it entry by entry, and a function
-- of the key where one loop over another map fills it.
pub mod Merge
pub mod Sides
pub mod Cover
pub mod Sound
use resticscope.Prelude.{
  ℕ, ◌+◌, Text, Bool, true, false, ◌&&◌, ◌||◌, not, Option, none, some, List, [], ◌∷◌, ◌++◌,
  text_eq, text_lt, has_prefix, Assoc, lookup, insert, sort_stable, if◌then◌else◌,
}
use resticscope.Paths.{root, ancestors}
use resticscope.Diff.Kinds.{
  ModifierKind, no_kinds, kind_added, kind_removed, all_diff_kinds, kind_or, kind_and, nonzero,
  kind_eq,
}
use resticscope.Diff.Entry.{DiffEntry}

pub record DiffExtractSet : Type 0 where
  pub first : List Text
  pub second : List Text
  pub first_count : ℕ
  pub second_count : ℕ

abbrev pub diff_first_side_kinds : ModifierKind
diff_first_side_kinds = record all_diff_kinds { added = false }

abbrev pub diff_second_side_kinds : ModifierKind
diff_second_side_kinds = record all_diff_kinds { removed = false }

-- `root`, which is `DiffRoot` if it is empty.
unfoldable pub root_or_default : Text → Text
root_or_default r = if text_eq r [] then root else r

-- `under`, for a root that is not empty.
unfoldable pub is_under : Text → Text → Bool
is_under r p =
    let prefix = if text_eq r root then r else r ++ root in text_eq p r || has_prefix p prefix

-- `merged`, `isDir` and `order`.
pub record Merged : Type 0 where
  pub kinds : Assoc ModifierKind
  pub dirs : Assoc Bool
  pub order : List Text

abbrev pub nothing_merged : Merged
nothing_merged = record { kinds = []; dirs = []; order = [] }

-- `merged[p]`, zero where the key is missing.
unfoldable pub merged_kind : Merged → Text → ModifierKind
merged_kind m p = elim (lookup p m.kinds) [ none ↦ no_kinds | some k ↦ k ]

-- `isDir[p]`
unfoldable pub is_dir_at : Merged → Text → Bool
is_dir_at m p = elim (lookup p m.dirs) [ none ↦ false | some b ↦ b ]

-- `_, seen := merged[p]`
unfoldable pub is_merged : Merged → Text → Bool
is_merged m p = elim (lookup p m.kinds) [ none ↦ false | some k ↦ true ]

unfoldable pub merge_entry : Text → Merged → DiffEntry → Merged
merge_entry r m e = if not (is_under r e.path) then m else record {
  kinds = insert e.path (kind_or (merged_kind m e.path) e.kinds) m.kinds;
  dirs = if e.is_dir then insert e.path true m.dirs else m.dirs;
  order = if is_merged m e.path then m.order else m.order ++ e.path ∷ [];
}

unfoldable pub merge_entries : Text → Merged → List DiffEntry → Merged
merge_entries r m [] = m
merge_entries r m (e ∷ es) = merge_entries r (merge_entry r m e) es

-- `pureFirst` and `pureSecond`: the selected directories whose whole mask is `wanted`.
unfoldable pub pure_dir : ModifierKind → ModifierKind → Merged → Text → Bool
pure_dir wanted filter m p =
    is_merged m p
    && (is_dir_at m p
        && (nonzero (kind_and (merged_kind m p) filter) && kind_eq (merged_kind m p) wanted))

-- `covered`, over the ancestors of a path: the loop ends where one is not under the root.
unfoldable pub covered_in : Text → (Text → Bool) → List Text → Bool
covered_in r pure [] = false
covered_in r pure (anc ∷ rest) = is_under r anc && (pure anc || covered_in r pure rest)

unfoldable pub covered : Text → (Text → Bool) → Text → Bool
covered r pure p = covered_in r pure (ancestors p)

-- `dirNonPure`: a directory that would restore unchanged contents.
unfoldable pub dir_non_pure : Merged → Text → Bool
dir_non_pure m p =
    is_dir_at m p
    && (not (kind_eq (merged_kind m p) kind_added) && not (kind_eq (merged_kind m p) kind_removed))

-- One round of the last loop.
unfoldable pub add_path : Text → ModifierKind → Merged → DiffExtractSet → Text → DiffExtractSet
add_path r filter m out p =
    let eff = kind_and (merged_kind m p) filter in
    let on_first = nonzero (kind_and eff diff_first_side_kinds) in
    let on_second = nonzero (kind_and eff diff_second_side_kinds) in
    if not (nonzero eff) then out else if dir_non_pure m p then out else record {
      first =
          if on_first && not (covered r (pure_dir kind_removed filter m) p)
          then out.first ++ p ∷ []
          else out.first;
      second =
          if on_second && not (covered r (pure_dir kind_added filter m) p)
          then out.second ++ p ∷ []
          else out.second;
      first_count = if on_first then out.first_count + 1 else out.first_count;
      second_count = if on_second then out.second_count + 1 else out.second_count;
    }

unfoldable pub add_paths :
    Text → ModifierKind → Merged → DiffExtractSet → List Text → DiffExtractSet
add_paths r filter m out [] = out
add_paths r filter m out (p ∷ ps) = add_paths r filter m (add_path r filter m out p) ps

abbrev pub nothing_included : DiffExtractSet
nothing_included = record { first = []; second = []; first_count = 0; second_count = 0 }

unfoldable pub diff_extract_includes : List DiffEntry → Text → ModifierKind → DiffExtractSet
diff_extract_includes entries given filter =
    let r = root_or_default given in
    let m = merge_entries r nothing_merged entries in
    let out = add_paths r filter m nothing_included m.order in
    record out { first = sort_stable text_lt out.first; second = sort_stable text_lt out.second }
