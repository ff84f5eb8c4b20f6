-- ===== src/FindVersions.antt =====
-- The versions of a file over the snapshots: `GroupFileVersions` of internal/model/find.go. A
-- modification time in UTC is the nanoseconds since Go's zero time.
pub mod Occurrences
pub mod Versions
pub mod Examples
use resticscope.Prelude.{
  ℕ, Bool, true, false, not, ◌&&◌, ◌||◌, Option, none, some, List, [], ◌∷◌, ◌++◌, Text, text_eq,
  codes, ltb, ◌==◌, Assoc, lookup, sort_stable, if◌then◌else◌,
}
use resticscope.Snapshots.{Snapshot}

pub record FindMatch : Type 0 where
  pub path : Text
  pub type : Text
  pub size : ℕ
  pub mod_time : ℕ
  pub permissions : Text
  pub uid : Option ℕ
  pub gid : Option ℕ

pub record FindSnapshotResult : Type 0 where
  pub snapshot_id : Text
  pub matches : List FindMatch

pub record FileVersionOccurrence : Type 0 where
  pub snapshot_id : Text
  pub short_id : Text
  pub snap_time : ℕ
  pub hostname : Text

-- `owner` is `UID` and `GID` where `OwnerKnown`.
pub record FileVersion : Type 0 where
  pub size : ℕ
  pub mod_time : ℕ
  pub permissions : Text
  pub owner : Option (ℕ × ℕ)
  pub occurrences : List FileVersionOccurrence

-- Whether a match is of the path and of a regular or untyped file.
unfoldable pub is_kept : Text → FindMatch → Bool
is_kept literal_path m =
    text_eq m.path literal_path && (text_eq m.type [] || text_eq m.type (codes "file"))

unfoldable pub occurrence : Assoc Snapshot → Text → FileVersionOccurrence
occurrence snap_by_id id = elim (lookup id snap_by_id) [
  | none ↦ record { snapshot_id = id; short_id = []; snap_time = 0; hostname = [] }
  | some s ↦ record {
    snapshot_id = id;
    short_id = s.short_id;
    snap_time = s.time;
    hostname = s.hostname;
  }
]

unfoldable pub owner_of : FindMatch → Option (ℕ × ℕ)
owner_of m = elim m.uid [ none ↦ none | some u ↦ elim m.gid [ none ↦ none | some g ↦ some (u, g) ] ]

unfoldable pub new_version : FindMatch → FileVersion
new_version m = record {
  size = m.size;
  mod_time = m.mod_time;
  permissions = [];
  owner = none;
  occurrences = [];
}

unfoldable pub fill : FindMatch → FileVersionOccurrence → FileVersion → FileVersion
fill m occ g = record g {
  permissions = if text_eq g.permissions [] then m.permissions else g.permissions;
  owner = elim g.owner [ none ↦ owner_of m | some o ↦ some o ];
  occurrences = g.occurrences ++ occ ∷ [];
}

-- The groups in the order of their keys' first match; the key of a group is its size and time.
unfoldable pub add_match : FindMatch → FileVersionOccurrence → List FileVersion → List FileVersion
add_match m occ [] = fill m occ (new_version m) ∷ []
add_match m occ (g ∷ groups) =
    let later = add_match m occ groups in
    if g.size == m.size && g.mod_time == m.mod_time then fill m occ g ∷ groups else g ∷ later

unfoldable pub add_matches :
    Text → FileVersionOccurrence → List FindMatch → List FileVersion → List FileVersion
add_matches literal_path occ [] groups = groups
add_matches literal_path occ (m ∷ matches) groups =
    add_matches literal_path occ matches
      (if is_kept literal_path m then add_match m occ groups else groups)

unfoldable pub add_results :
    Text → Assoc Snapshot → List FindSnapshotResult → List FileVersion → List FileVersion
add_results literal_path snaps [] groups = groups
add_results literal_path snaps (r ∷ results) groups =
    add_results literal_path snaps results
      (add_matches literal_path (occurrence snaps r.snapshot_id) r.matches groups)

unfoldable pub later_occurrence : FileVersionOccurrence → FileVersionOccurrence → Bool
later_occurrence a b = ltb b.snap_time a.snap_time

unfoldable pub sort_occurrences : List FileVersion → List FileVersion
sort_occurrences [] = []
sort_occurrences (g ∷ groups) =
    record g { occurrences = sort_stable later_occurrence g.occurrences } ∷ sort_occurrences groups

unfoldable pub latest_occurrence_time : FileVersion → ℕ
latest_occurrence_time v = elim v.occurrences [ [] ↦ 0 | occ ∷ occs ↦ occ.snap_time ]

unfoldable pub later_version : FileVersion → FileVersion → Bool
later_version a b = ltb (latest_occurrence_time b) (latest_occurrence_time a)

unfoldable pub group_file_versions :
    List FindSnapshotResult → Text → Assoc Snapshot → List FileVersion
group_file_versions results literal_path snaps =
    sort_stable later_version (sort_occurrences (add_results literal_path snaps results []))
