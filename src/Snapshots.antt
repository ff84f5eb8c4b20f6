-- ===== src/Snapshots.antt =====
-- Snapshots: their order, the newest of them, and what they show of hosts, tags and versions
-- (internal/model/snapshot.go and internal/model/observe.go). A time is the nanoseconds since Go's
-- zero time. Text is compared by code points, which is the byte order of UTF-8.
pub mod Order
pub mod Observed
pub mod Examples
use resticscope.Prelude.{
  ℕ, Bool, true, false, ◌||◌, Option, none, some, List, [], ◌∷◌, ◌++◌, Text, text_eq, text_lt, ◌==◌,
  ltb, pos, negsuc, ℤ, ltb_ℤ, sort_stable, if◌then◌else◌,
}
use resticscope.Status.{is_zero, sub}

-- The fields of `SnapshotSummary` that the model reads.
pub record SnapshotSummary : Type 0 where
  pub backup_start : ℕ
  pub backup_end : ℕ

-- `Snapshot`, less the fields that are only displayed.
pub record Snapshot : Type 0 where
  pub id : Text
  pub short_id : Text
  pub time : ℕ
  pub hostname : Text
  pub tags : List Text
  pub program_version : Text
  pub tree : Text
  pub paths : List Text
  pub summary : Option SnapshotSummary

unfoldable pub snapshot_before_newest : Snapshot → Snapshot → Bool
snapshot_before_newest a b =
    if a.time == b.time
    then (if text_eq a.id b.id then text_lt b.short_id a.short_id else text_lt b.id a.id)
    else ltb b.time a.time

unfoldable pub sort_snapshots_newest_first : List Snapshot → List Snapshot
sort_snapshots_newest_first snaps = sort_stable snapshot_before_newest snaps

-- The loop of `latestSnapshot`; `none` is `!ok`.
unfoldable pub latest_from : Option Snapshot → List Snapshot → Option Snapshot
latest_from newest [] = newest
latest_from none (s ∷ snaps) = latest_from (some s) snaps
latest_from (some newest) (s ∷ snaps) =
    latest_from (some (if snapshot_before_newest s newest then s else newest)) snaps

unfoldable pub latest_snapshot : List Snapshot → Option Snapshot
latest_snapshot snaps = latest_from none snaps

unfoldable pub latest_time_from : ℕ → List Snapshot → ℕ
latest_time_from latest [] = latest
latest_time_from latest (s ∷ snaps) =
    latest_time_from (if ltb latest s.time then s.time else latest) snaps

unfoldable pub latest_snapshot_time : List Snapshot → ℕ
latest_snapshot_time snaps = latest_time_from 0 snaps

unfoldable pub duration_of_summary : SnapshotSummary → Option ℤ
duration_of_summary s =
    let d = sub s.backup_end s.backup_start in
    if is_zero s.backup_start || is_zero s.backup_end
    then none
    else if ltb_ℤ d (pos 0)
    then none
    else some d

unfoldable pub snapshot_backup_duration : Snapshot → Option ℤ
snapshot_backup_duration s = elim s.summary [ none ↦ none | some m ↦ duration_of_summary m ]

unfoldable pub last_backup_duration : List Snapshot → Option ℤ
last_backup_duration snaps = elim (latest_snapshot snaps) [
  | none ↦ none
  | some s ↦ snapshot_backup_duration s
]

-- A set of strings, as `map[string]struct{}`: each once, in any order.
unfoldable pub in_set : Text → List Text → Bool
in_set v [] = false
in_set v (x ∷ set) = text_eq v x || in_set v set

-- `if v != "" { set[v] = struct{}{} }`
unfoldable pub add_named : Text → List Text → List Text
add_named v set = if text_eq v [] || in_set v set then set else v ∷ set

unfoldable pub add_all_named : List Text → List Text → List Text
add_all_named [] set = set
add_all_named (v ∷ vs) set = add_all_named vs (add_named v set)

unfoldable pub host_set : List Snapshot → List Text → List Text
host_set [] set = set
host_set (s ∷ snaps) set = host_set snaps (add_named s.hostname set)

unfoldable pub tag_set : List Snapshot → List Text → List Text
tag_set [] set = set
tag_set (s ∷ snaps) set = tag_set snaps (add_all_named s.tags set)

unfoldable pub version_set : List Snapshot → List Text → List Text
version_set [] set = set
version_set (s ∷ snaps) set = version_set snaps (add_named s.program_version set)

unfoldable pub sorted_keys : List Text → List Text
sorted_keys set = sort_stable text_lt set

unfoldable pub observed : List Snapshot → List Text × List Text
observed snaps = (sorted_keys (host_set snaps []), sorted_keys (tag_set snaps []))

unfoldable pub observed_versions : List Snapshot → List Text
observed_versions snaps = sorted_keys (version_set snaps [])
