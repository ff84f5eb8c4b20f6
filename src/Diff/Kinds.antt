-- ===== src/Diff/Kinds.antt =====
-- The change kinds of internal/model/diff.go: `ChangeType`, the `ModifierKind` bitmask, the counters
-- `DiffStats`, and the marker strings of restic. The proofs are in the module below.
--
-- `ModifierKind` is a `uint8` whose six low bits are the markers. Here it is the record of these
-- bits; `bits` is the number, and `Laws` shows that `|`, `&` and `!= 0` are those of the numbers.
pub mod Laws
use resticscope.Prelude.{
  ℕ, ◌+◌, ◌*◌, Text, Bool, true, false, ◌&&◌, ◌||◌, not, Option, none, some, List, [], ◌∷◌, ◌++◌,
  ltb, ◌==◌, if◌then◌else◌,
}

pub data ChangeType : Type 0 where
  unknown added removed modified metadata_only type_changed bitrot : ChangeType

pub record ModifierKind : Type 0 where
  pub added : Bool
  pub removed : Bool
  pub modified : Bool
  pub metadata : Bool
  pub type_changed : Bool
  pub bitrot : Bool

abbrev pub no_kinds : ModifierKind
no_kinds = record {
  added = false;
  removed = false;
  modified = false;
  metadata = false;
  type_changed = false;
  bitrot = false;
}

abbrev pub kind_added : ModifierKind
kind_added = record no_kinds { added = true }

abbrev pub kind_removed : ModifierKind
kind_removed = record no_kinds { removed = true }

abbrev pub kind_modified : ModifierKind
kind_modified = record no_kinds { modified = true }

abbrev pub kind_metadata : ModifierKind
kind_metadata = record no_kinds { metadata = true }

abbrev pub kind_type_changed : ModifierKind
kind_type_changed = record no_kinds { type_changed = true }

abbrev pub kind_bitrot : ModifierKind
kind_bitrot = record no_kinds { bitrot = true }

abbrev pub all_diff_kinds : ModifierKind
all_diff_kinds = record {
  added = true;
  removed = true;
  modified = true;
  metadata = true;
  type_changed = true;
  bitrot = true;
}

-- `a | b`
unfoldable pub kind_or : ModifierKind → ModifierKind → ModifierKind
kind_or a b = record {
  added = a.added || b.added;
  removed = a.removed || b.removed;
  modified = a.modified || b.modified;
  metadata = a.metadata || b.metadata;
  type_changed = a.type_changed || b.type_changed;
  bitrot = a.bitrot || b.bitrot;
}

-- `a & b`
unfoldable pub kind_and : ModifierKind → ModifierKind → ModifierKind
kind_and a b = record {
  added = a.added && b.added;
  removed = a.removed && b.removed;
  modified = a.modified && b.modified;
  metadata = a.metadata && b.metadata;
  type_changed = a.type_changed && b.type_changed;
  bitrot = a.bitrot && b.bitrot;
}

-- `k != 0`
unfoldable pub nonzero : ModifierKind → Bool
nonzero k = k.added || (k.removed || (k.modified || (k.metadata || (k.type_changed || k.bitrot))))

abbrev bool_eq : Bool → Bool → Bool
bool_eq p q = if p then q else not q

-- `a == b`
unfoldable pub kind_eq : ModifierKind → ModifierKind → Bool
kind_eq a b =
    bool_eq a.added b.added
    && (bool_eq a.removed b.removed
        && (bool_eq a.modified b.modified
            && (bool_eq a.metadata b.metadata
                && (bool_eq a.type_changed b.type_changed && bool_eq a.bitrot b.bitrot))))

unfoldable pub bit : Bool → ℕ
bit b = if b then 1 else 0

-- The `uint8` itself.
unfoldable pub bits : ModifierKind → ℕ
unfolding bit
bits k =
    bit k.added
    + 2 * bit k.removed
    + 4 * bit k.modified
    + 8 * bit k.metadata
    + 16 * bit k.type_changed
    + 32 * bit k.bitrot

unfoldable pub modifier_string : ModifierKind → Text
modifier_string k =
    (if k.added then b'+' ∷ [] else [])
    ++ ((if k.removed then b'-' ∷ [] else [])
        ++ ((if k.modified then b'M' ∷ [] else [])
            ++ ((if k.metadata then b'U' ∷ [] else [])
                ++ ((if k.type_changed then b'T' ∷ [] else [])
                    ++ (if k.bitrot then b'?' ∷ [] else [])))))

unfoldable pub primary_change_type : ModifierKind → ChangeType
primary_change_type k =
    if k.bitrot
    then ChangeType.bitrot
    else if k.type_changed
    then ChangeType.type_changed
    else if k.removed
    then ChangeType.removed
    else if k.added
    then ChangeType.added
    else if k.modified
    then ChangeType.modified
    else if k.metadata
    then ChangeType.metadata_only
    else unknown

-- The `switch` of `parseModifier`: the bit of a marker, or `none` for the default case.
unfoldable pub marker_kind : ℕ → Option ModifierKind
marker_kind r =
    if r == b'+'
    then some kind_added
    else if r == b'-'
    then some kind_removed
    else if r == b'M'
    then some kind_modified
    else if r == b'U'
    then some kind_metadata
    else if r == b'T'
    then some kind_type_changed
    else if r == b'?'
    then some kind_bitrot
    else none

-- One round of the loop over the markers, on the pair of `kinds` and `unknown`.
unfoldable pub read_marker : ℕ → ModifierKind × Bool → ModifierKind × Bool
unfolding marker_kind kind_or
read_marker r (kinds, bad) = elim (marker_kind r) [
  | some k ↦ (kind_or kinds k, bad)
  | none ↦ (kinds, true)
]

unfoldable pub read_markers : Text → ModifierKind × Bool → ModifierKind × Bool
unfolding read_marker
read_markers [] acc = acc
read_markers (r ∷ s) acc = read_markers s (read_marker r acc)

-- The primary kind, the whole mask, and whether a marker was not recognised.
unfoldable pub parse_modifier : Text → ChangeType × ModifierKind × Bool
unfolding read_markers primary_change_type
parse_modifier s =
    let (kinds, bad) = read_markers s (no_kinds, false) in (primary_change_type kinds, kinds, bad)

pub record DiffStats : Type 0 where
  pub added : ℕ
  pub removed : ℕ
  pub modified : ℕ
  pub metadata_only : ℕ
  pub type_changed : ℕ
  pub bitrot : ℕ

abbrev pub no_stats : DiffStats
no_stats = record {
  added = 0;
  removed = 0;
  modified = 0;
  metadata_only = 0;
  type_changed = 0;
  bitrot = 0;
}

unfoldable pub total : DiffStats → ℕ
total s = s.added + s.removed + s.modified + s.metadata_only + s.type_changed + s.bitrot

unfoldable pub is_empty : DiffStats → Bool
is_empty s = total s == 0

unfoldable pub add_kinds : DiffStats → ModifierKind → DiffStats
add_kinds s k = record {
  added = if k.added then s.added + 1 else s.added;
  removed = if k.removed then s.removed + 1 else s.removed;
  modified = if k.modified then s.modified + 1 else s.modified;
  metadata_only = if k.metadata then s.metadata_only + 1 else s.metadata_only;
  type_changed = if k.type_changed then s.type_changed + 1 else s.type_changed;
  bitrot = if k.bitrot then s.bitrot + 1 else s.bitrot;
}

unfoldable pub enabled_kinds : DiffStats → ModifierKind → ModifierKind
enabled_kinds s filter = record {
  added = filter.added && ltb 0 s.added;
  removed = filter.removed && ltb 0 s.removed;
  modified = filter.modified && ltb 0 s.modified;
  metadata = filter.metadata && ltb 0 s.metadata_only;
  type_changed = filter.type_changed && ltb 0 s.type_changed;
  bitrot = filter.bitrot && ltb 0 s.bitrot;
}
