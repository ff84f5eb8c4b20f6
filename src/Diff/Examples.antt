-- ===== src/Diff/Examples.antt =====
-- Diffs at concrete inputs: two entries under /etc, one of them a whole new directory.
use resticscope.Prelude.{
  ◌≡◌, refl, Text, codes, true, false, not, none, some, List, [], ◌∷◌, All, Any, here, there, ℕ,
  text_lt, text_eq, lookup, has_prefix, insert, sort_stable, insert_stable,
}
use resticscope.Paths.{
  ancestors, trim_right_slash, ancestors_within, clean_rooted, diff_parent_of, drop_last, path_dir,
  push_component, render, render_all, resolve, split, through_last_slash,
}
use resticscope.Diff.Kinds.{
  ChangeType, ModifierKind, no_stats, kind_added, kind_modified, kind_metadata, all_diff_kinds,
  kind_or, kind_and, kind_eq, nonzero, modifier_string, parse_modifier, primary_change_type,
}
use resticscope.Diff.Kinds.Laws.{
  parse_modifier-modifier_string, parse_modifier-occurring, occurring, all_markers,
}
use resticscope.Diff.Entry.{
  DiffEntry, ChangeMsg, ScanLine, entry, read_change, new_diff_entry, ends_in_slash, parse_diff,
}
use resticscope.Diff.Entry.Laws.{
  parse_diff-entries_of, read_change-IsEntry, entries_of, malformed_in, Live, IsEntry,
}
use resticscope.Diff.Extract.{
  diff_extract_includes, pure_dir, root_or_default, covered, covered_in, is_under, add_paths,
  add_path, merge_entries, merge_entry, is_merged, merged_kind, dir_non_pure, is_dir_at,
}
use resticscope.Diff.Extract.Sides.{first_side, second_side, side_kinds, side_paths, pure_kind}
use resticscope.Diff.Extract.Cover.{diff_extract_includes-covers, asked, IsOrContains}
use resticscope.Diff.Extract.Sound.{diff_extract_includes_sound, met}
use resticscope.Diff.Tree.{
  build_diff_tree, stats_at, no_rows, ensure_entries, ensure_entry, ensure_ancestors, ensure,
}
use resticscope.Diff.Tree.Aggregate.{build_diff_tree-counts_under, counts_under}
use resticscope.Diff.Tree.Specs.{new_paths, all_kinds}
use resticscope.Diff.Tree.Listings.{ensure_entries-connects, has_row, row_kinds, IsListed}

abbrev both : ModifierKind
both = record kind_metadata { modified = true }

parse_modifier-modifier_string_example :
    parse_modifier (modifier_string both) ≡ (primary_change_type both, both, false)
parse_modifier-modifier_string_example = parse_modifier-modifier_string both

parse_modifier-occurring_example : parse_modifier (codes "UxM") ≡ (
  primary_change_type (occurring (codes "UxM")),
  occurring (codes "UxM"),
  not (all_markers (codes "UxM")),
)
parse_modifier-occurring_example = parse_modifier-occurring (codes "UxM")

abbrev change : Text → Text → ChangeMsg
change path modifier = record { message_type = codes "change"; path = path; modifier = modifier }

-- A blank line, a change, a line that is no JSON, and a directory.
abbrev lines : List (ScanLine ℕ)
lines =
    record { ctx_err = none; blank = true; decoded = none }
    ∷ record { ctx_err = none; blank = false; decoded = some (change (codes "/etc/a") (codes "M")) }
    ∷ record { ctx_err = none; blank = false; decoded = none }
    ∷ record {
      ctx_err = none;
      blank = false;
      decoded = some (change (codes "/etc/new/") (codes "+"));
    }
    ∷ []

lines-Live : Live lines
lines-Live = (refl, (refl, (refl, (refl, tt))))

parse_diff-entries_of_example :
    parse_diff lines none
    ≡ (record { entries = entries_of lines; parse_errors = malformed_in lines }, none)
parse_diff-entries_of_example = parse_diff-entries_of lines lines-Live

abbrev modified_a : DiffEntry
modified_a = record {
  path = codes "/etc/a";
  modifier = codes "M";
  type = ChangeType.modified;
  kinds = kind_modified;
  is_dir = false;
}

abbrev new_dir : DiffEntry
new_dir = record {
  path = codes "/etc/new";
  modifier = codes "+";
  type = ChangeType.added;
  kinds = kind_added;
  is_dir = true;
}

read_new : read_change (change (codes "/etc/new/") (codes "+")) ≡ entry new_dir
unfolding read_change new_diff_entry text_eq has_prefix parse_modifier nonzero ends_in_slash
    trim_right_slash
read_new = refl

read_change-IsEntry_example : IsEntry new_dir
read_change-IsEntry_example =
    read_change-IsEntry (change (codes "/etc/new/") (codes "+")) new_dir read_new

abbrev entries : List DiffEntry
entries = modified_a ∷ new_dir ∷ []

asked_a : asked entries [] all_diff_kinds (side_kinds first_side) (codes "/etc/a") ≡ true
unfolding root_or_default kind_and kind_eq nonzero is_under text_eq has_prefix kind_or
asked_a = refl

diff_extract_includes-covers_example :
    Any
      (IsOrContains (codes "/etc/a"))
      (side_paths first_side (diff_extract_includes entries [] all_diff_kinds))
diff_extract_includes-covers_example =
    diff_extract_includes-covers entries [] all_diff_kinds first_side (codes "/etc/a") asked_a

listed_new :
    Any
      (λ q. q ≡ codes "/etc/new")
      (side_paths second_side (diff_extract_includes entries [] all_diff_kinds))
unfolding diff_extract_includes sort_stable add_paths merge_entries merge_entry is_under text_eq
    root_or_default has_prefix is_merged lookup insert add_path nonzero kind_and merged_kind kind_or
    dir_non_pure covered covered_in is_dir_at pure_dir kind_eq ancestors ancestors_within
    clean_rooted diff_parent_of drop_last path_dir push_component render render_all resolve split
    through_last_slash insert_stable text_lt
listed_new = there (here refl)

diff_extract_includes_sound_example :
    (asked entries [] all_diff_kinds (side_kinds second_side) (codes "/etc/new") ≡ true)
    × (covered
          (root_or_default [])
          (pure_dir (pure_kind second_side) all_diff_kinds (met entries [] all_diff_kinds))
          (codes "/etc/new")
        ≡ false)
diff_extract_includes_sound_example =
    diff_extract_includes_sound entries [] all_diff_kinds second_side (codes "/etc/new") listed_new

build_diff_tree-counts_under_example :
    stats_at (build_diff_tree entries).aggregate (codes "/etc")
    ≡ counts_under (codes "/etc") entries (new_paths [] entries) no_stats
build_diff_tree-counts_under_example = build_diff_tree-counts_under entries (codes "/etc")

has_new : has_row (ensure_entries no_rows entries) (codes "/etc/new") ≡ true
unfolding ensure_entries lookup ensure_entry ensure_ancestors ancestors ancestors_within
    diff_parent_of ensure insert
has_new = refl

ensure_entries-connects_example :
    All (λ e. has_row (ensure_entries no_rows entries) e.path ≡ true) entries
    × IsListed (ensure_entries no_rows entries) (codes "/etc/new")
    × All (λ a. has_row (ensure_entries no_rows entries) a ≡ true) (ancestors (codes "/etc/new"))
    × (row_kinds (ensure_entries no_rows entries) (codes "/etc/new")
        ≡ all_kinds (codes "/etc/new") entries)
ensure_entries-connects_example = ensure_entries-connects entries (codes "/etc/new") has_new
