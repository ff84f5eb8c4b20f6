-- ===== src/FindVersions/Versions.antt =====
-- `GroupFileVersions` against the sightings of the file: every one is kept once, under its key.
use mathlib.Core.List.{Perm}
use resticscope.Prelude.{
  ◌≢◌, ◌⊎◌, inl, inr, ◌&&◌, ◌==◌, List, [], ◌∷◌, Text, Assoc, All, sort_stable, insert_stable,
  sort_stable-All, insert_stable-All, Bool-cases, arith,
}
use resticscope.Snapshots.{Snapshot}
use resticscope.FindVersions.{
  FindMatch, FindSnapshotResult, FileVersionOccurrence, FileVersion, is_kept, occurrence,
  new_version, fill, add_match, add_matches, add_results, sort_occurrences, later_version,
  group_file_versions,
}
use resticscope.FindVersions.Occurrences.{sightings, all_sightings, group_file_versions-perm}

-- Two versions differ in their size or in their time.
abbrev pub Differ : FileVersion → FileVersion → Type 0
Differ v w = (v.size ≢ w.size) ⊎ (v.mod_time ≢ w.mod_time)

abbrev pub AreDistinct : List FileVersion → Type 0
AreDistinct [] = Unit
AreDistinct (v ∷ vs) = All (λ w. Differ v w) vs × AreDistinct vs

add_match-All :
    (v : FileVersion) (m : FindMatch) (occ : FileVersionOccurrence) (groups : List FileVersion)
    → (v.size ≢ m.size) ⊎ (v.mod_time ≢ m.mod_time)
    → All (λ w. Differ v w) groups
    → All (λ w. Differ v w) (add_match m occ groups)
unfolding add_match fill new_version
add_match-All v m occ [] d h = (d, tt)
add_match-All v m occ (g ∷ groups) d h =
    elim (Bool-cases (g.size == m.size && g.mod_time == m.mod_time)) [
      | inl e ↦ simp e h
      | inr e ↦ simp e (h.0, add_match-All v m occ groups d h.1)
    ]

add_match-AreDistinct :
    (m : FindMatch) (occ : FileVersionOccurrence) (groups : List FileVersion)
    → AreDistinct groups
    → AreDistinct (add_match m occ groups)
unfolding add_match fill new_version
add_match-AreDistinct m occ [] h = (tt, tt)
add_match-AreDistinct m occ (g ∷ groups) h =
    elim (Bool-cases (g.size == m.size && g.mod_time == m.mod_time)) [
      | inl e ↦ simp e h
      | inr e ↦
          simp e (
            add_match-All g m occ groups (ground arith) h.0,
            add_match-AreDistinct m occ groups h.1,
          )
    ]

add_matches-AreDistinct :
    (p : Text) (occ : FileVersionOccurrence) (ms : List FindMatch) (groups : List FileVersion)
    → AreDistinct groups
    → AreDistinct (add_matches p occ ms groups)
unfolding add_matches
add_matches-AreDistinct p occ [] groups h = h
add_matches-AreDistinct p occ (m ∷ ms) groups h = elim (Bool-cases (is_kept p m)) [
  | inl e ↦ rw e (
      add_matches-AreDistinct p occ ms (add_match m occ groups)
        (add_match-AreDistinct m occ groups h))
  | inr e ↦ rw e (add_matches-AreDistinct p occ ms groups h)
]

add_results-AreDistinct :
    (p : Text) (snaps : Assoc Snapshot) (rs : List FindSnapshotResult) (groups : List FileVersion)
    → AreDistinct groups
    → AreDistinct (add_results p snaps rs groups)
unfolding add_results
add_results-AreDistinct p snaps [] groups h = h
add_results-AreDistinct p snaps (r ∷ rs) groups h =
    let occ = occurrence snaps r.snapshot_id in
    add_results-AreDistinct p snaps rs (add_matches p occ r.matches groups)
      (add_matches-AreDistinct p occ r.matches groups h)

sort_occurrences-All :
    (v : FileVersion) (groups : List FileVersion)
    → All (λ w. Differ v w) groups
    → All (λ w. Differ v w) (sort_occurrences groups)
unfolding sort_occurrences
sort_occurrences-All v [] h = tt
sort_occurrences-All v (g ∷ groups) h = (h.0, sort_occurrences-All v groups h.1)

sort_occurrences-AreDistinct :
    (groups : List FileVersion) → AreDistinct groups → AreDistinct (sort_occurrences groups)
unfolding sort_occurrences
sort_occurrences-AreDistinct [] h = tt
sort_occurrences-AreDistinct (g ∷ groups) h =
    (sort_occurrences-All g groups h.0, sort_occurrences-AreDistinct groups h.1)

insert-AreDistinct :
    (v : FileVersion) (vs : List FileVersion)
    → All (λ w. Differ v w) vs
    → AreDistinct vs
    → AreDistinct (insert_stable later_version v vs)
unfolding insert_stable
insert-AreDistinct v [] d h = (tt, tt)
insert-AreDistinct v (w ∷ vs) d h = elim (Bool-cases (later_version w v)) [
  | inl e ↦ simp e (
    insert_stable-All later_version (λ u. Differ w u) v vs (ground (arith, d.0)) h.0,
    insert-AreDistinct v vs d.1 h.1,
  )
  | inr e ↦ simp e (d, h)
]

sort-AreDistinct :
    (vs : List FileVersion) → AreDistinct vs → AreDistinct (sort_stable later_version vs)
unfolding sort_stable
sort-AreDistinct [] h = tt
sort-AreDistinct (v ∷ vs) h =
    insert-AreDistinct v (sort_stable later_version vs)
      (sort_stable-All later_version (λ w. Differ v w) vs h.0) (sort-AreDistinct vs h.1)

-- The versions hold together exactly the sightings of the path as a file or as what has no type,
-- each once, under its size and its modification time and with its snapshot's id, short id, time
-- and host; and no two versions have the same size and time.
pub group_file_versions-sightings :
    (results : List FindSnapshotResult) (p : Text) (snaps : Assoc Snapshot)
    → Perm (sightings (group_file_versions results p snaps)) (all_sightings p snaps results)
      × AreDistinct (group_file_versions results p snaps)
unfolding group_file_versions
group_file_versions-sightings results p snaps = (
  group_file_versions-perm results p snaps,
  sort-AreDistinct (sort_occurrences (add_results p snaps results [])) (
      sort_occurrences-AreDistinct (add_results p snaps results [])
        (add_results-AreDistinct p snaps results [] tt)),
)
