-- ===== src/SnapGroup/Examples.antt =====
-- Three snapshots of one tree, of which two have one source.
use mathlib.Core.List.{Perm}
use resticscope.Prelude.{◌≡◌, ℕ, none, List, [], ◌∷◌, codes, Text, All, Any, true}
use resticscope.Snapshots.{Snapshot}
use resticscope.SnapGroup.{
  SnapDisplay, snap_group_host, snap_group_off, collapse_tree_runs, build_snap_display,
  normalized_detail_marks,
}
use resticscope.SnapGroup.Collapse.{members, IsRun, collapse_tree_runs-members}
use resticscope.SnapGroup.Grouping.{build_snap_display-members}
use resticscope.SnapGroup.Marks.{IsDistinct, IsRepresented, normalized_detail_marks-IsRepresented}

abbrev taken : Text → ℕ → Text → Snapshot
taken id time host = record {
  id = id;
  short_id = id;
  time = time;
  hostname = host;
  tags = [];
  program_version = [];
  tree = codes "t";
  paths = codes "/etc" ∷ [];
  summary = none;
}

abbrev snaps : List Snapshot
snaps =
    taken (codes "c") 9 (codes "web")
    ∷ taken (codes "b") 8 (codes "web")
    ∷ taken (codes "a") 7 []
    ∷ []

collapse_tree_runs-members_example :
    (members (collapse_tree_runs snaps) ≡ snaps) × All IsRun (collapse_tree_runs snaps)
collapse_tree_runs-members_example = collapse_tree_runs-members snaps

build_snap_display-members_example :
    Perm (members (build_snap_display (λ s. s) snaps snap_group_host true).nodes) snaps
build_snap_display-members_example = build_snap_display-members (λ s. s) snaps snap_group_host true

abbrev display : SnapDisplay
display = build_snap_display (λ s. s) snaps snap_group_off true

normalized_detail_marks-IsRepresented_example :
    IsDistinct (normalized_detail_marks snaps display)
    × All (λ s. Any (λ n. n.head ≡ s) display.nodes) (normalized_detail_marks snaps display)
    × All (IsRepresented display.nodes (normalized_detail_marks snaps display)) snaps
normalized_detail_marks-IsRepresented_example = normalized_detail_marks-IsRepresented snaps display
