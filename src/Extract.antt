-- ===== src/Extract.antt =====
-- Extraction, internal/app/extract.go and internal/resticx/extract_tree.go: the request, its errors
-- and the paths where the restored files go.
pub mod Slug
pub mod Plan
pub mod Plain
pub mod Planned
pub mod Mirror
pub mod Located
pub mod Args
pub mod Publish
mod Examples
use resticscope.Prelude.{
  ℕ, zero, suc, ◌+◌, Text, Bool, true, false, ◌&&◌, ◌||◌, not, Option, none, some, List, [], ◌∷◌,
  ◌++◌, codes, text_eq, has_prefix, length, take, leb, ltb, ◌==◌, if◌then◌else◌, Result, ok, err,
  ◌>>=◌, ◌>>◌, require, or_fail,
}
use resticscope.Paths.{root, path_base, clean_browse_path, join_rooted}
use resticscope.Extract.Slug.{sanitize_extract_slug}

pub data ExtractMode : Type 0 where
  extract_file extract_directory_tree : ExtractMode

-- The field that a refusal names.
pub data Field : Type 0 where
  repo snapshot_short snapshot_id diff_container source include_paths source_name : Field
  target_root mode : Field

pub record ExtractRequest : Type 0 where
  pub repo : Text
  pub snapshot_id : Text
  pub snapshot_short : Text
  pub source : Text
  pub source_name : Text
  pub mode : ExtractMode
  pub was_regular_file : Bool
  pub target_root : Text
  pub diff_container : Text
  pub include_paths : List Text
  pub privileged : Bool

abbrev pub max_diff_extract_includes : ℕ
max_diff_extract_includes = 50000

-- `8 << 20`
abbrev pub max_diff_extract_include_bytes : ℕ
max_diff_extract_include_bytes = 8388608

-- `[0-9a-f]`
unfoldable pub is_lower_hex : ℕ → Bool
is_lower_hex c = (leb b'0' c && leb c b'9') || (leb b'a' c && leb c b'f')

unfoldable pub all_lower_hex : Text → Bool
unfolding is_lower_hex
all_lower_hex [] = true
all_lower_hex (c ∷ s) = is_lower_hex c && all_lower_hex s

unfoldable pub is_snapshot_short : Text → Bool
unfolding all_lower_hex
is_snapshot_short s = length s == 8 && all_lower_hex s

unfoldable pub is_snapshot_id : Text → Bool
unfolding all_lower_hex
is_snapshot_id s = length s == 64 && all_lower_hex s

-- The rest of a text behind a prefix.
unfoldable pub behind : Text → Text → Option Text
behind [] s = some s
behind (d ∷ p) [] = none
behind (d ∷ p) (c ∷ s) = elim (c == d) [ true ↦ behind p s | false ↦ none ]

-- `strings.TrimPrefix(s, p)`
unfoldable pub trim_prefix : Text → Text → Text
unfolding behind
trim_prefix s p = elim (behind p s) [ none ↦ s | some r ↦ r ]

unfoldable pub drop : ℕ → Text → Text
drop zero s = s
drop (suc n) [] = []
drop (suc n) (c ∷ s) = drop n s

-- The two shorts of `diff-<short>-<short>`.
unfoldable pub diff_container_sides : Text → Option (Text × Text)
unfolding behind drop is_snapshot_short
diff_container_sides s = elim (behind (codes "diff-") s) [
  | none ↦ none
  | some r ↦ elim (behind (codes "-") (drop 8 r)) [
    | none ↦ none
    | some q ↦ elim (is_snapshot_short (take 8 r) && is_snapshot_short q) [
      | true ↦ some (take 8 r, q)
      | false ↦ none
    ]
  ]
]

-- Two distinct sides, one of which is the snapshot.
unfoldable pub container_names : Text → Text → Bool
unfolding diff_container_sides text_eq
container_names container short = elim (diff_container_sides container) [
  | none ↦ false
  | some m ↦ not (text_eq m.0 m.1) && (text_eq m.0 short || text_eq m.1 short)
]

-- `strings.ContainsRune(s, r)`
unfoldable pub contains_rune : ℕ → Text → Bool
contains_rune r [] = false
contains_rune r (c ∷ s) = c == r || contains_rune r s

-- The bytes of a code point in UTF-8, and `len` of a string.
unfoldable pub rune_len : ℕ → ℕ
rune_len c = if ltb c 128 then 1 else if ltb c 2048 then 2 else if ltb c 65536 then 3 else 4

unfoldable pub byte_len : Text → ℕ
unfolding rune_len
byte_len [] = 0
byte_len (c ∷ s) = rune_len c + byte_len s

-- `srcPrefix`
unfoldable pub source_prefix : Text → Text
unfolding text_eq
source_prefix src = if text_eq src root then src else src ++ root

-- One include path is a clean path at or below the source, and not the root.
unfoldable pub include_fits : Text → Text → Bool
unfolding text_eq contains_rune clean_browse_path has_prefix source_prefix
include_fits src p =
    not (text_eq p [])
    && not (text_eq p root)
    && not (contains_rune 0 p)
    && text_eq p (clean_browse_path p)
    && (text_eq p src || has_prefix p (source_prefix src))

-- The loop over the include paths, with their bytes.
unfoldable pub includes_total : Text → ℕ → List Text → Result Field ℕ
unfolding include_fits byte_len
includes_total src total [] = ok total
includes_total src total (p ∷ ps) =
    require include_paths (include_fits src p) >> includes_total src (total + byte_len p) ps
