-- ===== src/SnapGroup/Grouping.antt =====
-- Grouping loses and repeats no snapshot, whatever the mode.
use mathlib.Core.List.Perm
use mathlib.Core.List.{Perm}
use resticscope.Prelude.{
  ◌≡◌, refl, sym, ◌∙◌, ap, subst, Bool, true, false, none, some, List, [], ◌∷◌, ◌++◌, map,
  append-nil, append_assoc, Text, All, All-append, Option-cases, Bool-cases, inl, inr,
  if◌then◌else◌, arith, Assoc, lookup, insert, sort_stable, insert_stable, text_eq,
}
use resticscope.Snapshots.{Snapshot}
use resticscope.SnapGroup.{
  SnapGroupMode, snap_group_off, snap_group_host, snap_group_tags, snap_group_paths, SnapSection,
  single, collapse_tree_runs, snap_nodes, section_raw_snaps, section_key_title, Bucket, Buckets,
  no_buckets, add_keyed, add_snapshot, add_snapshots, key_before, keyed_sections, fallback_sections,
  snap_sections_by, collapse_sections, flat_nodes, grouped_display, build_snap_display,
}
use resticscope.SnapGroup.Collapse.{
  members, collapse_tree_runs-members, members-append, members-single,
}

perm_middle : {A : Type 0} {a : A} (xs ys : List A) → Perm (xs ++ a ∷ ys) (a ∷ (xs ++ ys))
perm_middle [] ys = Perm.refl _
perm_middle {a = a} (x ∷ xs) ys =
    Perm.trans (Perm.cons x (perm_middle xs ys)) (Perm.swap a x (xs ++ ys))

-- The snapshots of the buckets.
abbrev in_buckets : List (Text × Bucket) → List Snapshot
in_buckets [] = []
in_buckets (b ∷ m) = b.1.snaps ++ in_buckets m

abbrev all_in : Buckets → List Snapshot
all_in b = in_buckets b.by_key ++ b.fallback

in_buckets-new :
    (key : Text) (k : Bucket) (m : Assoc Bucket)
    → lookup key m ≡ none
    → in_buckets (insert key k m) ≡ in_buckets m ++ k.snaps
unfolding lookup insert
in_buckets-new key k [] h = append-nil k.snaps
in_buckets-new key k ((j, b) ∷ m) h = elim (Bool-cases (text_eq j key)) [
  | inl e ↦ ground arith
  | inr e ↦ rw e (
      ap (λ ss. b.snaps ++ ss) (in_buckets-new key k m (rw e at h))
      ∙ sym (append_assoc b.snaps (in_buckets m) k.snaps))
]

-- A snapshot that goes to the end of a bucket.
in_buckets-old :
    (key : Text) (k : Bucket) (s : Snapshot) (m : Assoc Bucket)
    → lookup key m ≡ some k
    → Perm (in_buckets (insert key (record k { snaps = k.snaps ++ s ∷ [] }) m)) (s ∷ in_buckets m)
unfolding lookup insert
in_buckets-old key k s [] h = ground arith
in_buckets-old key k s ((j, b) ∷ m) h = elim (Bool-cases (text_eq j key)) [
  | inl e ↦
      let same : b ≡ k = ground arith in
      rw (e, same)
        (rw (append_assoc k.snaps (s ∷ []) (in_buckets m)) (perm_middle k.snaps (in_buckets m)))
  | inr e ↦ rw e (
      Perm.trans (Perm.append_left b.snaps (in_buckets-old key k s m (rw e at h)))
        (perm_middle b.snaps (in_buckets m)))
]

at_end : (s : Snapshot) (xs : List Snapshot) → Perm (xs ++ s ∷ []) (s ∷ xs)
at_end s xs = subst (λ ys. Perm (xs ++ s ∷ []) (s ∷ ys)) (append-nil xs) (perm_middle xs [])

add_keyed-perm :
    (key title : Text) (s : Snapshot) (b : Buckets)
    → Perm (all_in (add_keyed key title s b)) (s ∷ all_in b)
unfolding add_keyed
add_keyed-perm key title s b = elim (Option-cases (lookup key b.by_key)) [
  | inl e ↦
      let k : Bucket = record { title = title; snaps = s ∷ [] } in
      rw (e, add_keyed)
        (rw (in_buckets-new key k b.by_key e)
          (Perm.append_right b.fallback (at_end s (in_buckets b.by_key))))
  | inr (k, e) ↦
      rw (e, add_keyed) (Perm.append_right b.fallback (in_buckets-old key k s b.by_key e))
]

add_snapshot-perm :
    (mode : SnapGroupMode) (b : Buckets) (s : Snapshot)
    → Perm (all_in (add_snapshot mode b s)) (s ∷ all_in b)
unfolding add_snapshot
add_snapshot-perm mode b s = elim (Option-cases (section_key_title s mode)) [
  | inl e ↦
      rw (e, add_snapshot)
        (Perm.trans (Perm.append_left (in_buckets b.by_key) (at_end s b.fallback))
          (perm_middle (in_buckets b.by_key) b.fallback))
  | inr ((key, title), e) ↦ rw (e, add_snapshot) (add_keyed-perm key title s b)
]

add_snapshots-perm :
    (mode : SnapGroupMode) (snaps : List Snapshot) (b : Buckets)
    → Perm (all_in (add_snapshots mode b snaps)) (snaps ++ all_in b)
unfolding add_snapshots
add_snapshots-perm mode [] b = Perm.refl (all_in b)
add_snapshots-perm mode (s ∷ snaps) b =
    Perm.trans (add_snapshots-perm mode snaps (add_snapshot mode b s)) (
      Perm.trans (Perm.append_left snaps (add_snapshot-perm mode b s))
        (perm_middle snaps (all_in b)))

-- Two lists of snapshots in front of a third change places.
change_places : (xs ys zs : List Snapshot) → Perm (xs ++ (ys ++ zs)) (ys ++ (xs ++ zs))
change_places [] ys zs = Perm.refl (ys ++ zs)
change_places (x ∷ xs) ys zs =
    Perm.trans (Perm.cons x (change_places xs ys zs)) (Perm.symm (perm_middle ys (xs ++ zs)))

module _ (less : Text × Bucket → Text × Bucket → Bool) where
  in_buckets-insert :
      (b : Text × Bucket) (m : List (Text × Bucket))
      → Perm (in_buckets (insert_stable less b m)) (b.1.snaps ++ in_buckets m)
  unfolding insert_stable
  in_buckets-insert b [] = Perm.refl (b.1.snaps ++ [])
  in_buckets-insert b (c ∷ m) = elim (Bool-cases (less c b)) [
    | inl e ↦ rw e (
        Perm.trans (Perm.append_left c.1.snaps (in_buckets-insert b m))
          (change_places c.1.snaps b.1.snaps (in_buckets m)))
    | inr e ↦ rw e (Perm.refl (b.1.snaps ++ (c.1.snaps ++ in_buckets m)))
  ]

  in_buckets-sort :
      (m : List (Text × Bucket)) → Perm (in_buckets (sort_stable less m)) (in_buckets m)
  unfolding sort_stable
  in_buckets-sort [] = Perm.refl []
  in_buckets-sort (b ∷ m) =
      Perm.trans (in_buckets-insert b (sort_stable less m))
        (Perm.append_left b.1.snaps (in_buckets-sort m))

keyed_sections-members :
    (m : List (Text × Bucket)) → members (flat_nodes (keyed_sections m)) ≡ in_buckets m
unfolding keyed_sections flat_nodes
keyed_sections-members [] = refl
keyed_sections-members ((key, b) ∷ m) =
    members-append (map single b.snaps) (flat_nodes (keyed_sections m))
    ∙ rw (members-single b.snaps, keyed_sections-members m) refl

fallback_sections-members :
    (mode : SnapGroupMode) (snaps : List Snapshot)
    → members (flat_nodes (fallback_sections mode snaps)) ≡ snaps
unfolding fallback_sections flat_nodes
fallback_sections-members mode [] = refl
fallback_sections-members mode (s ∷ snaps) =
    ap members (append-nil (map single (s ∷ snaps))) ∙ members-single (s ∷ snaps)

flat_nodes-append :
    (xs ys : List SnapSection) → flat_nodes (xs ++ ys) ≡ flat_nodes xs ++ flat_nodes ys
unfolding flat_nodes
flat_nodes-append [] ys = refl
flat_nodes-append (x ∷ xs) ys =
    ap (λ ns. x.nodes ++ ns) (flat_nodes-append xs ys)
    ∙ sym (append_assoc x.nodes (flat_nodes xs) (flat_nodes ys))

sections-perm :
    (lower : Text → Text) (snaps : List Snapshot) (mode : SnapGroupMode)
    → Perm (members (flat_nodes (snap_sections_by lower snaps mode))) snaps
unfolding snap_sections_by
sections-perm lower snaps mode =
    let b = add_snapshots mode no_buckets snaps in
    let sorted = sort_stable (key_before lower) b.by_key in
    rw
      (
        flat_nodes-append (keyed_sections sorted) (fallback_sections mode b.fallback),
        members-append (flat_nodes (keyed_sections sorted))
            (flat_nodes (fallback_sections mode b.fallback)),
        keyed_sections-members sorted,
        fallback_sections-members mode b.fallback,
      )
      (Perm.trans (Perm.append_right b.fallback (in_buckets-sort (key_before lower) b.by_key))
        (subst (Perm (all_in b)) (append-nil snaps) (add_snapshots-perm mode snaps no_buckets)))

-- The nodes of a section before it is collapsed are single.
abbrev IsFlat : SnapSection → Type 0
IsFlat s = members s.nodes ≡ map (λ n. n.head) s.nodes

map-single : (snaps : List Snapshot) → map (λ n. n.head) (map single snaps) ≡ snaps
map-single [] = refl
map-single (s ∷ snaps) = ap (λ ss. s ∷ ss) (map-single snaps)

IsFlat-single :
    (snaps : List Snapshot) → members (map single snaps) ≡ map (λ n. n.head) (map single snaps)
IsFlat-single snaps = members-single snaps ∙ sym (map-single snaps)

keyed_sections-IsFlat : (m : List (Text × Bucket)) → All IsFlat (keyed_sections m)
unfolding keyed_sections
keyed_sections-IsFlat [] = tt
keyed_sections-IsFlat ((key, b) ∷ m) = (IsFlat-single b.snaps, keyed_sections-IsFlat m)

fallback_sections-IsFlat :
    (mode : SnapGroupMode) (snaps : List Snapshot) → All IsFlat (fallback_sections mode snaps)
unfolding fallback_sections
fallback_sections-IsFlat mode [] = tt
fallback_sections-IsFlat mode (s ∷ snaps) = (IsFlat-single (s ∷ snaps), tt)

snap_sections_by-IsFlat :
    (lower : Text → Text) (snaps : List Snapshot) (mode : SnapGroupMode)
    → All IsFlat (snap_sections_by lower snaps mode)
unfolding snap_sections_by
snap_sections_by-IsFlat lower snaps mode =
    All-append IsFlat _ _ (keyed_sections-IsFlat _) (fallback_sections-IsFlat mode _)

collapse_sections-members :
    (sections : List SnapSection)
    → All IsFlat sections
    → members (flat_nodes (collapse_sections sections)) ≡ members (flat_nodes sections)
unfolding collapse_sections flat_nodes section_raw_snaps
collapse_sections-members [] h = refl
collapse_sections-members (s ∷ sections) h =
    members-append (collapse_tree_runs (map (λ n. n.head) s.nodes))
      (flat_nodes (collapse_sections sections))
    ∙ rw
        (
          (collapse_tree_runs-members (map (λ n. n.head) s.nodes)).0,
          collapse_sections-members sections h.1,
        )
        (sym (
          members-append s.nodes (flat_nodes sections)
          ∙ ap (λ ss. ss ++ members (flat_nodes sections)) h.0))

grouped_display-perm :
    (lower : Text → Text) (snaps : List Snapshot) (mode : SnapGroupMode) (collapse : Bool)
    → Perm
        (members
          (grouped_display (
            if collapse
            then collapse_sections (snap_sections_by lower snaps mode)
            else snap_sections_by lower snaps mode)).nodes)
        snaps
unfolding grouped_display
grouped_display-perm lower snaps mode true =
    rw
      (collapse_sections-members (snap_sections_by lower snaps mode)
        (snap_sections_by-IsFlat lower snaps mode))
      (sections-perm lower snaps mode)
grouped_display-perm lower snaps mode false = sections-perm lower snaps mode

-- In every mode, collapsed or not, the display has each snapshot exactly as often as it was given:
-- the heads of its nodes together with their peers are a permutation of the snapshots.
pub build_snap_display-members :
    (lower : Text → Text) (snaps : List Snapshot) (mode : SnapGroupMode) (collapse : Bool)
    → Perm (members (build_snap_display lower snaps mode collapse).nodes) snaps
unfolding build_snap_display snap_nodes
build_snap_display-members lower snaps snap_group_off true =
    rw (collapse_tree_runs-members snaps).0 (Perm.refl snaps)
build_snap_display-members lower snaps snap_group_off false =
    rw (members-single snaps) (Perm.refl snaps)
build_snap_display-members lower snaps snap_group_host collapse =
    grouped_display-perm lower snaps snap_group_host collapse
build_snap_display-members lower snaps snap_group_tags collapse =
    grouped_display-perm lower snaps snap_group_tags collapse
build_snap_display-members lower snaps snap_group_paths collapse =
    grouped_display-perm lower snaps snap_group_paths collapse
