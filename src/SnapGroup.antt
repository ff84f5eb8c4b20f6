-- ===== src/SnapGroup.antt =====
-- Grouping and collapsing of snapshots for display: internal/tui/snapgroup.go. `strings.ToLower` is
-- the parameter `lower`.
pub mod Collapse
pub mod Grouping
pub mod Heads
pub mod Marks
pub mod Examples
use resticscope.Prelude.{
  ℕ, zero, suc, ◌+◌, ◌-◌, ◌%◌, Bool, true, false, ◌&&◌, ◌||◌, not, Option, none, some, List, [],
  ◌∷◌, ◌++◌, map, length, get_elem?, codes, Text, text_eq, text_lt, ◌==◌, ltb, leb, Assoc, lookup,
  insert, sort_stable, if◌then◌else◌,
}
use resticscope.Snapshots.{Snapshot}

pub data SnapGroupMode : Type 0 where
  snap_group_off snap_group_host snap_group_tags snap_group_paths : SnapGroupMode

pub record SnapNode : Type 0 where
  pub head : Snapshot
  pub count : ℕ
  pub peers : List Snapshot

pub record SnapSection : Type 0 where
  pub key : Text
  pub title : Text
  pub nodes : List SnapNode
  pub raw_count : ℕ
  pub no_key : Bool

pub record SnapDisplay : Type 0 where
  pub nodes : List SnapNode
  pub sections : List SnapSection

-- `snapNode{head: s}`
abbrev pub single : Snapshot → SnapNode
single s = record { head = s; count = 0; peers = [] }

unfoldable pub sorted_copy : List Text → List Text
sorted_copy in_order = sort_stable text_lt in_order

-- `strings.Join`
unfoldable pub join : Text → List Text → Text
join sep [] = []
join sep (x ∷ []) = x
join sep (x ∷ y ∷ xs) = x ++ sep ++ join sep (y ∷ xs)

unfoldable pub source_key : Snapshot → Text
source_key s =
    s.hostname
    ++ (1 ∷ [])
    ++ join (0 ∷ []) (sorted_copy s.tags)
    ++ (1 ∷ [])
    ++ join (0 ∷ []) (sorted_copy s.paths)

unfoldable pub collapsible : Snapshot → Snapshot → Bool
collapsible a b =
    if text_eq a.tree [] || text_eq b.tree []
    then false
    else if not (text_eq a.tree b.tree)
    then false
    else text_eq (source_key a) (source_key b)

-- The loop of `collapseTreeRuns`, with the run that it is in.
unfoldable pub collapse_from : SnapNode → List Snapshot → List SnapNode
collapse_from cur [] = cur ∷ []
collapse_from cur (next ∷ snaps) =
    let grown =
      collapse_from (record cur { count = cur.count + 1; peers = cur.peers ++ next ∷ [] }) snaps in
    let fresh = cur ∷ collapse_from (single next) snaps in
    if collapsible cur.head next then grown else fresh

unfoldable pub collapse_tree_runs : List Snapshot → List SnapNode
collapse_tree_runs [] = []
collapse_tree_runs (s ∷ snaps) = collapse_from (single s) snaps

unfoldable pub snap_nodes : List Snapshot → Bool → List SnapNode
snap_nodes snaps collapse = if not collapse then map single snaps else collapse_tree_runs snaps

unfoldable pub section_raw_snaps : SnapSection → List Snapshot
section_raw_snaps s = map (λ n. n.head) s.nodes

-- The key and title of a snapshot's section, `none` where the key is missing.
unfoldable pub section_key_title : Snapshot → SnapGroupMode → Option (Text × Text)
section_key_title s snap_group_off = none
section_key_title s snap_group_host =
    if text_eq s.hostname [] then none else some (s.hostname, s.hostname)
section_key_title s snap_group_tags =
    let tags = sorted_copy s.tags in
    if length s.tags == 0 then none else some (join (0 ∷ []) tags, join (codes ", ") tags)
section_key_title s snap_group_paths =
    let paths = sorted_copy s.paths in
    if length s.paths == 0 then none else some (join (0 ∷ []) paths, join (codes ", ") paths)

unfoldable pub fallback_title : SnapGroupMode → Text
fallback_title snap_group_off = []
fallback_title snap_group_host = codes "(no host)"
fallback_title snap_group_tags = codes "(untagged)"
fallback_title snap_group_paths = codes "(no paths)"

pub record Bucket : Type 0 where
  pub title : Text
  pub snaps : List Snapshot

-- `byKey` and the snapshots of `fallback`, which is nil while it has none.
pub record Buckets : Type 0 where
  pub by_key : Assoc Bucket
  pub fallback : List Snapshot

abbrev pub no_buckets : Buckets
no_buckets = record { by_key = []; fallback = [] }

unfoldable pub add_keyed : Text → Text → Snapshot → Buckets → Buckets
add_keyed key title s b = elim (lookup key b.by_key) [
  | none ↦ record b { by_key = insert key (record { title = title; snaps = s ∷ [] }) b.by_key }
  | some k ↦ record b { by_key = insert key (record k { snaps = k.snaps ++ s ∷ [] }) b.by_key }
]

unfoldable pub add_snapshot : SnapGroupMode → Buckets → Snapshot → Buckets
add_snapshot mode b s = elim (section_key_title s mode) [
  | none ↦ record b { fallback = b.fallback ++ s ∷ [] }
  | some (key, title) ↦ add_keyed key title s b
]

unfoldable pub add_snapshots : SnapGroupMode → Buckets → List Snapshot → Buckets
add_snapshots mode b [] = b
add_snapshots mode b (s ∷ snaps) = add_snapshots mode (add_snapshot mode b s) snaps

-- The order of the keys: folded, then as they are.
unfoldable pub key_before : (Text → Text) → Text × Bucket → Text × Bucket → Bool
key_before lower a b =
    if text_eq (lower a.0) (lower b.0) then text_lt a.0 b.0 else text_lt (lower a.0) (lower b.0)

unfoldable pub keyed_sections : List (Text × Bucket) → List SnapSection
keyed_sections [] = []
keyed_sections ((k, b) ∷ rest) =
    record {
      key = k;
      title = b.title;
      nodes = map single b.snaps;
      raw_count = length b.snaps;
      no_key = false;
    }
    ∷ keyed_sections rest

unfoldable pub fallback_sections : SnapGroupMode → List Snapshot → List SnapSection
fallback_sections mode [] = []
fallback_sections mode (s ∷ snaps) =
    record {
      key = [];
      title = fallback_title mode;
      nodes = map single (s ∷ snaps);
      raw_count = length (s ∷ snaps);
      no_key = true;
    }
    ∷ []

unfoldable pub snap_sections_by : (Text → Text) → List Snapshot → SnapGroupMode → List SnapSection
snap_sections_by lower snaps mode =
    let b = add_snapshots mode no_buckets snaps in
    keyed_sections (sort_stable (key_before lower) b.by_key) ++ fallback_sections mode b.fallback

-- `sections[i].nodes = collapseTreeRuns(sectionRawSnaps(sections[i]))` for every `i`.
unfoldable pub collapse_sections : List SnapSection → List SnapSection
collapse_sections [] = []
collapse_sections (s ∷ sections) =
    record s { nodes = collapse_tree_runs (section_raw_snaps s) } ∷ collapse_sections sections

unfoldable pub flat_nodes : List SnapSection → List SnapNode
flat_nodes [] = []
flat_nodes (s ∷ sections) = s.nodes ++ flat_nodes sections

unfoldable pub grouped_display : List SnapSection → SnapDisplay
grouped_display sections = record { nodes = flat_nodes sections; sections = sections }

unfoldable pub build_snap_display :
    (Text → Text) → List Snapshot → SnapGroupMode → Bool → SnapDisplay
build_snap_display lower snaps snap_group_off collapse = record {
  nodes = snap_nodes snaps collapse;
  sections = [];
}
build_snap_display lower snaps mode collapse =
    let sections = snap_sections_by lower snaps mode in
    grouped_display (if collapse then collapse_sections sections else sections)

-- `headByID` after a node, and after all.
unfoldable pub add_peers : Snapshot → List Snapshot → Assoc Snapshot → Assoc Snapshot
add_peers head [] m = m
add_peers head (p ∷ peers) m = add_peers head peers (insert p.id head m)

unfoldable pub head_by_id : List SnapNode → Assoc Snapshot → Assoc Snapshot
head_by_id [] m = m
head_by_id (n ∷ nodes) m = head_by_id nodes (add_peers n.head n.peers (insert n.head.id n.head m))

unfoldable pub is_seen : Text → List Text → Bool
is_seen id [] = false
is_seen id (x ∷ seen) = text_eq x id || is_seen id seen

-- The loop over the marks, with the IDs it has put out.
unfoldable pub mapped_marks : Assoc Snapshot → List Text → List Snapshot → List Snapshot
mapped_marks heads seen [] = []
mapped_marks heads seen (mark ∷ marks) =
    let skipped = mapped_marks heads seen marks in
    elim (lookup mark.id heads) [
      | none ↦ skipped
      | some mapped ↦
          let kept = mapped ∷ mapped_marks heads (mapped.id ∷ seen) marks in
          if is_seen mapped.id seen then skipped else kept
    ]

unfoldable pub normalized_detail_marks : List Snapshot → SnapDisplay → List Snapshot
normalized_detail_marks marks d = mapped_marks (head_by_id d.nodes []) [] marks

unfoldable pub has_id : Text → List Snapshot → Bool
has_id id [] = false
has_id id (p ∷ peers) = text_eq p.id id || has_id id peers

-- The loop of `indexOfSnap`, from an index; `none` is the end of the loop.
unfoldable pub index_from : Text → ℕ → List SnapNode → Option ℕ
index_from id i [] = none
index_from id i (n ∷ nodes) =
    let later = index_from id (suc i) nodes in
    if text_eq n.head.id id || has_id id n.peers then some i else later

unfoldable pub index_of_snap : Text → List SnapNode → ℕ
index_of_snap id nodes =
    if text_eq id [] then 0 else elim (index_from id 0 nodes) [ none ↦ 0 | some i ↦ i ]
