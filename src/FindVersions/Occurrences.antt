-- ===== src/FindVersions/Occurrences.antt =====
-- The sightings of a file that its versions hold, up to their order.
use mathlib.Core.List.Perm
use mathlib.Core.List.{Perm, perm_middle}
use resticscope.Prelude.{
  ℕ, ◌≡◌, refl, Option-cases, subst, Bool, false, true, ◌&&◌, ◌==◌, none, some, List, [], ◌∷◌, ◌++◌,
  map, append-nil, append_assoc, Text, text_eq, codes, Assoc, lookup, sort_stable, insert_stable,
  sort_stable-perm, Bool-cases, inl, inr, arith, if◌then◌else◌,
}
use resticscope.Snapshots.{Snapshot}
use resticscope.FindVersions.{
  FindMatch, FindSnapshotResult, FileVersionOccurrence, FileVersion, is_kept, occurrence,
  new_version, fill, add_match, add_matches, add_results, later_occurrence, sort_occurrences,
  later_version, group_file_versions,
}

-- A sighting of a file: its size and modification time, and where it was seen.
abbrev pub Sighting : Type 0
Sighting = (ℕ × ℕ) × FileVersionOccurrence

abbrev pub at_key : ℕ → ℕ → List FileVersionOccurrence → List Sighting
at_key size mod_time occs = map (λ o. ((size, mod_time), o)) occs

-- All that the versions hold.
abbrev pub sightings : List FileVersion → List Sighting
sightings [] = []
sightings (v ∷ versions) = at_key v.size v.mod_time v.occurrences ++ sightings versions

-- The snapshot of a result as the list of snapshots describes it, or by its id alone.
abbrev pub seen_in : Assoc Snapshot → Text → FileVersionOccurrence
seen_in snaps id = record {
  snapshot_id = id;
  short_id = elim (lookup id snaps) [ none ↦ [] | some s ↦ s.short_id ];
  snap_time = elim (lookup id snaps) [ none ↦ 0 | some s ↦ s.time ];
  hostname = elim (lookup id snaps) [ none ↦ [] | some s ↦ s.hostname ];
}

-- The sightings among the matches: of the path itself, and of a file or of what has no type.
abbrev pub sightings_in : Text → FileVersionOccurrence → List FindMatch → List Sighting
sightings_in path occ [] = []
sightings_in path occ (m ∷ matches) =
    let rest = sightings_in path occ matches in
    if text_eq m.path path
    then (if text_eq m.type (codes "file")
        then ((m.size, m.mod_time), occ) ∷ rest
        else if text_eq m.type []
        then ((m.size, m.mod_time), occ) ∷ rest
        else rest)
    else rest

abbrev pub all_sightings : Text → Assoc Snapshot → List FindSnapshotResult → List Sighting
all_sightings path snaps [] = []
all_sightings path snaps (r ∷ results) =
    all_sightings path snaps results ++ sightings_in path (seen_in snaps r.snapshot_id) r.matches

occurrence-seen_in : (snaps : Assoc Snapshot) (id : Text) → occurrence snaps id ≡ seen_in snaps id
unfolding occurrence
occurrence-seen_in snaps id = elim (Option-cases (lookup id snaps)) [
  | inl e ↦ rw (e, occurrence) refl
  | inr (s, e) ↦ rw (e, occurrence) refl
]

at_key-end :
    (size mod_time : ℕ) (occ : FileVersionOccurrence) (occs : List FileVersionOccurrence)
    (rest : List Sighting)
    → Perm
        (at_key size mod_time (occs ++ occ ∷ []) ++ rest)
        (((size, mod_time), occ) ∷ (at_key size mod_time occs ++ rest))
at_key-end size mod_time occ [] rest = Perm.refl _
at_key-end size mod_time occ (o ∷ occs) rest =
    Perm.trans (Perm.cons _ (at_key-end size mod_time occ occs rest)) (Perm.swap _ _ _)

add_match-perm :
    (m : FindMatch) (occ : FileVersionOccurrence) (groups : List FileVersion)
    → Perm (sightings (add_match m occ groups)) (((m.size, m.mod_time), occ) ∷ sightings groups)
unfolding add_match fill new_version
add_match-perm m occ [] = Perm.refl _
add_match-perm m occ (g ∷ groups) =
    elim (Bool-cases (g.size == m.size && g.mod_time == m.mod_time)) [
      | inl e ↦ simp e (same (ground arith) (ground arith))
      | inr e ↦ simp e (
          Perm.trans
            (Perm.append_left (at_key g.size g.mod_time g.occurrences)
              (add_match-perm m occ groups))
            (perm_middle (at_key g.size g.mod_time g.occurrences) (sightings groups)))
    ]
  where
    same :
        g.size ≡ m.size
        → g.mod_time ≡ m.mod_time
        → Perm (at_key g.size g.mod_time (g.occurrences ++ occ ∷ []) ++ sightings groups) (
            ((m.size, m.mod_time), occ)
            ∷ (at_key g.size g.mod_time g.occurrences ++ sightings groups))
    same a b =
        subst
          (λ k.
            Perm (at_key g.size g.mod_time (g.occurrences ++ occ ∷ []) ++ sightings groups)
              ((k, occ) ∷ (at_key g.size g.mod_time g.occurrences ++ sightings groups)))
          (rw (a, b) refl) (at_key-end g.size g.mod_time occ g.occurrences (sightings groups))

sightings_in-cons :
    (p : Text) (occ : FileVersionOccurrence) (m : FindMatch) (ms : List FindMatch)
    → sightings_in p occ (m ∷ ms) ≡ (
        if is_kept p m
        then ((m.size, m.mod_time), occ) ∷ sightings_in p occ ms
        else sightings_in p occ ms)
unfolding is_kept
sightings_in-cons p occ m ms = elim (Bool-cases (text_eq m.path p)) [
  | inr e ↦ simp e refl
  | inl e ↦ elim (Bool-cases (text_eq m.type (codes "file"))) [
    | inl f ↦ elim (Bool-cases (text_eq m.type [])) [
      | inl g ↦ simp (e, f, g) refl
      | inr g ↦ simp (e, f, g) refl
    ]
    | inr f ↦ elim (Bool-cases (text_eq m.type [])) [
      | inl g ↦ simp (e, f, g) refl
      | inr g ↦ simp (e, f, g) refl
    ]
  ]
]

add_matches-perm :
    (p : Text) (occ : FileVersionOccurrence) (ms : List FindMatch) (groups : List FileVersion)
    → Perm (sightings (add_matches p occ ms groups)) (sightings_in p occ ms ++ sightings groups)
unfolding add_matches
add_matches-perm p occ [] groups = Perm.refl _
add_matches-perm p occ (m ∷ ms) groups =
    rw (sightings_in-cons p occ m ms) (at (is_kept p m) (add_matches-perm p occ ms))
  where
    at :
        (b : Bool)
        → ((gs : List FileVersion)
            → Perm (sightings (add_matches p occ ms gs)) (sightings_in p occ ms ++ sightings gs))
        → Perm (sightings (add_matches p occ ms (if b then add_match m occ groups else groups))) (
            (if b
              then ((m.size, m.mod_time), occ) ∷ sightings_in p occ ms
              else sightings_in p occ ms)
            ++ sightings groups)
    at true kept = Perm.trans (kept (add_match m occ groups)) (
        Perm.trans (Perm.append_left (sightings_in p occ ms) (add_match-perm m occ groups))
          (perm_middle (sightings_in p occ ms) (sightings groups)))
    at false kept = kept groups

add_results-perm :
    (p : Text) (snaps : Assoc Snapshot) (rs : List FindSnapshotResult) (groups : List FileVersion)
    → Perm
        (sightings (add_results p snaps rs groups))
        (all_sightings p snaps rs ++ sightings groups)
unfolding add_results
add_results-perm p snaps [] groups = Perm.refl _
add_results-perm p snaps (r ∷ rs) groups =
    let occ = seen_in snaps r.snapshot_id in
    rw
      (
        occurrence-seen_in snaps r.snapshot_id,
        append_assoc (all_sightings p snaps rs) (sightings_in p occ r.matches) (sightings groups),
      )
      (Perm.trans (add_results-perm p snaps rs (add_matches p occ r.matches groups))
        (Perm.append_left (all_sightings p snaps rs) (add_matches-perm p occ r.matches groups)))

sort_occurrences-perm :
    (groups : List FileVersion) → Perm (sightings (sort_occurrences groups)) (sightings groups)
unfolding sort_occurrences
sort_occurrences-perm [] = Perm.refl _
sort_occurrences-perm (g ∷ groups) =
    Perm.append
      (Perm.map (λ o. ((g.size, g.mod_time), o)) (sort_stable-perm later_occurrence g.occurrences))
      (sort_occurrences-perm groups)

change_places : (xs ys zs : List Sighting) → Perm (xs ++ (ys ++ zs)) (ys ++ (xs ++ zs))
change_places [] ys zs = Perm.refl (ys ++ zs)
change_places (x ∷ xs) ys zs =
    Perm.trans (Perm.cons x (change_places xs ys zs)) (Perm.symm (perm_middle ys (xs ++ zs)))

insert-perm :
    (v : FileVersion) (vs : List FileVersion)
    → Perm
        (sightings (insert_stable later_version v vs))
        (at_key v.size v.mod_time v.occurrences ++ sightings vs)
unfolding insert_stable
insert-perm v [] = Perm.refl _
insert-perm v (w ∷ vs) = elim (Bool-cases (later_version w v)) [
  | inl e ↦ simp e (
      Perm.trans (Perm.append_left (at_key w.size w.mod_time w.occurrences) (insert-perm v vs)) (
        change_places (at_key w.size w.mod_time w.occurrences)
          (at_key v.size v.mod_time v.occurrences) (sightings vs)))
  | inr e ↦ simp e (Perm.refl _)
]

sort-perm : (vs : List FileVersion) → Perm (sightings (sort_stable later_version vs)) (sightings vs)
unfolding sort_stable
sort-perm [] = Perm.refl _
sort-perm (v ∷ vs) =
    Perm.trans (insert-perm v (sort_stable later_version vs))
      (Perm.append_left (at_key v.size v.mod_time v.occurrences) (sort-perm vs))

pub group_file_versions-perm :
    (results : List FindSnapshotResult) (p : Text) (snaps : Assoc Snapshot)
    → Perm (sightings (group_file_versions results p snaps)) (all_sightings p snaps results)
unfolding group_file_versions
group_file_versions-perm results p snaps =
    let groups = add_results p snaps results [] in
    Perm.trans (sort-perm (sort_occurrences groups)) (
      Perm.trans (sort_occurrences-perm groups) (
        subst (λ l. Perm (sightings groups) l) (append-nil (all_sightings p snaps results))
          (add_results-perm p snaps results [])))
