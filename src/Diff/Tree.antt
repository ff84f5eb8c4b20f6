-- ===== src/Diff/Tree.antt =====
-- `BuildDiffTree` of internal/model/diff.go: rows for every changed path and every directory above
-- it, and the counts of the changes under each directory.
--
-- The Go maps hold pointers, so that a row is shared by the path index and by a parent's listing;
-- each path has one row. Here the listings hold the paths, and the index holds the rows.
pub mod Specs
pub mod Aggregate
pub mod Listings
use resticscope.Prelude.{
  ℕ, ◌+◌, Text, Bool, true, false, ◌&&◌, ◌||◌, not, Option, none, some, List, [], ◌∷◌, ◌++◌, map,
  text_eq, text_lt, Assoc, lookup, insert, sort_stable, if◌then◌else◌,
}
use resticscope.Paths.{root, diff_parent_of, diff_name_of, ancestors}
use resticscope.Diff.Kinds.{
  ChangeType, ModifierKind, no_kinds, kind_or, nonzero, modifier_string, primary_change_type,
  DiffStats, no_stats, add_kinds,
}
use resticscope.Diff.Entry.{DiffEntry}

pub record DiffRow : Type 0 where
  pub name : Text
  pub path : Text
  pub type : ChangeType
  pub kinds : ModifierKind
  pub modifier : Text
  pub is_dir : Bool
  pub aggregate : DiffStats

pub record DiffTree : Type 0 where
  pub children : Assoc (List DiffRow)
  pub aggregate : Assoc DiffStats

-- `rows` and `children`.
pub record Rows : Type 0 where
  pub rows : Assoc DiffRow
  pub children : Assoc (List Text)

abbrev pub no_rows : Rows
no_rows = record { rows = []; children = [] }

-- `typ != ChangeUnknown`
unfoldable pub is_known : ChangeType → Bool
is_known ChangeType.unknown = false
is_known ChangeType.added = true
is_known ChangeType.removed = true
is_known ChangeType.modified = true
is_known ChangeType.metadata_only = true
is_known ChangeType.type_changed = true
is_known ChangeType.bitrot = true

-- The branch of `ensure` at a path that has a row.
unfoldable pub upgrade_row : DiffRow → Bool → ChangeType → ModifierKind → Text → DiffRow
upgrade_row existing is_dir typ kinds modifier =
    let merged = kind_or existing.kinds kinds in
    let again = nonzero existing.kinds && nonzero kinds in
    record existing {
      type =
          if again then primary_change_type merged else if is_known typ then typ else existing.type;
      kinds = merged;
      modifier =
          if again
          then modifier_string merged
          else if text_eq modifier []
          then existing.modifier
          else modifier;
      is_dir = if is_known typ then is_dir else existing.is_dir;
    }

-- The row that `ensure` makes for a path without one.
unfoldable pub new_row : Text → Bool → ChangeType → ModifierKind → Text → DiffRow
new_row p is_dir typ kinds modifier = record {
  name = diff_name_of p;
  path = p;
  type = typ;
  kinds = kinds;
  modifier = modifier;
  is_dir = is_dir;
  aggregate = no_stats;
}

-- `children[parent]`, nil where the key is missing.
unfoldable pub children_at : Assoc (List Text) → Text → List Text
children_at m p = elim (lookup p m) [ none ↦ [] | some ps ↦ ps ]

unfoldable pub ensure : Text → Bool → ChangeType → ModifierKind → Text → Rows → Rows
ensure p is_dir typ kinds modifier s = elim (lookup p s.rows) [
  | some existing ↦ record s {
    rows = insert p (upgrade_row existing is_dir typ kinds modifier) s.rows;
  }
  | none ↦ record {
    rows = insert p (new_row p is_dir typ kinds modifier) s.rows;
    children =
        insert (diff_parent_of p) (children_at s.children (diff_parent_of p) ++ p ∷ []) s.children;
  }
]

-- Every ancestor up to the root.
unfoldable pub ensure_ancestors : List Text → Rows → Rows
ensure_ancestors [] s = s
ensure_ancestors (anc ∷ rest) s =
    ensure_ancestors rest (ensure anc true ChangeType.unknown no_kinds [] s)

unfoldable pub ensure_entry : Rows → DiffEntry → Rows
ensure_entry s e =
    ensure_ancestors (ancestors e.path) (ensure e.path e.is_dir e.type e.kinds e.modifier s)

unfoldable pub ensure_entries : Rows → List DiffEntry → Rows
ensure_entries s [] = s
ensure_entries s (e ∷ es) = ensure_entries (ensure_entry s e) es

-- `mergedKinds` and `pathOrder`.
pub record PathKinds : Type 0 where
  pub merged : Assoc ModifierKind
  pub order : List Text

abbrev pub no_paths : PathKinds
no_paths = record { merged = []; order = [] }

-- `mergedKinds[p]`, zero where the key is missing.
unfoldable pub kinds_at : PathKinds → Text → ModifierKind
kinds_at m p = elim (lookup p m.merged) [ none ↦ no_kinds | some k ↦ k ]

unfoldable pub has_kinds : PathKinds → Text → Bool
has_kinds m p = elim (lookup p m.merged) [ none ↦ false | some k ↦ true ]

unfoldable pub merge_path : PathKinds → DiffEntry → PathKinds
merge_path m e = record {
  merged = insert e.path (kind_or (kinds_at m e.path) e.kinds) m.merged;
  order = if has_kinds m e.path then m.order else m.order ++ e.path ∷ [];
}

unfoldable pub merge_paths : PathKinds → List DiffEntry → PathKinds
merge_paths m [] = m
merge_paths m (e ∷ es) = merge_paths (merge_path m e) es

-- `aggregate[anc]`, zero where the key is missing.
unfoldable pub stats_at : Assoc DiffStats → Text → DiffStats
stats_at m p = elim (lookup p m) [ none ↦ no_stats | some s ↦ s ]

unfoldable pub count_ancestors : ModifierKind → List Text → Assoc DiffStats → Assoc DiffStats
count_ancestors k [] agg = agg
count_ancestors k (anc ∷ rest) agg =
    count_ancestors k rest (insert anc (add_kinds (stats_at agg anc) k) agg)

unfoldable pub count_paths : PathKinds → List Text → Assoc DiffStats → Assoc DiffStats
count_paths m [] agg = agg
count_paths m (p ∷ ps) agg = count_paths m ps (count_ancestors (kinds_at m p) (ancestors p) agg)

-- Directories first, then by name.
unfoldable pub row_before : DiffRow → DiffRow → Bool
row_before a b =
    if a.is_dir
    then (if b.is_dir then text_lt a.name b.name else true)
    else if b.is_dir
    then false
    else text_lt a.name b.name

-- The rows of a listing by value, directories with their counts.
unfoldable pub materialize : Rows → Assoc DiffStats → List Text → List DiffRow
materialize s agg [] = []
materialize s agg (p ∷ ps) =
    let rest = materialize s agg ps in
    elim (lookup p s.rows) [
      | some row ↦
          (if row.is_dir then record row { aggregate = stats_at agg row.path } else row) ∷ rest
      | none ↦ rest
    ]

unfoldable pub materialize_children :
    Rows → Assoc DiffStats → Assoc (List Text) → Assoc (List DiffRow)
materialize_children s agg [] = []
materialize_children s agg ((parent, kids) ∷ rest) =
    (parent, sort_stable row_before (materialize s agg kids)) ∷ materialize_children s agg rest

unfoldable pub build_diff_tree : List DiffEntry → DiffTree
build_diff_tree entries =
    let s = ensure_entries no_rows entries in
    let m = merge_paths no_paths entries in
    let agg = count_paths m m.order [] in
    record { children = materialize_children s agg s.children; aggregate = agg }
