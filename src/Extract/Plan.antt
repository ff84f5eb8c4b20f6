-- ===== src/Extract/Plan.antt =====
-- PlanExtractPaths, checkExtractModeGate, extractTreeParams and ExtractDiffTargetDir of
-- internal/app/extract.go: the guards in their order, and the paths that they let through.
use resticscope.Prelude.{
  Text, Bool, false, ◌&&◌, ◌||◌, not, List, [], ◌∷◌, ◌++◌, codes, map, text_eq, has_prefix, length,
  take, leb, if◌then◌else◌, Result, ok, ◌>>=◌, ◌>>◌, require, or_fail,
}
use resticscope.Paths.{root, path_base, path_dir, clean_browse_path, join_rooted}
use resticscope.Extract.{
  extract_file, extract_directory_tree, Field, repo, snapshot_short, snapshot_id, diff_container,
  source, include_paths, source_name, target_root, mode, ExtractRequest, max_diff_extract_includes,
  max_diff_extract_include_bytes, is_snapshot_short, is_snapshot_id, container_names, contains_rune,
  includes_total, trim_prefix,
}
use resticscope.Extract.Slug.{sanitize_extract_slug}

unfoldable pub check_snapshot : ExtractRequest → Result Field (Unit {0})
unfolding is_snapshot_short is_snapshot_id text_eq
check_snapshot req = do
  require snapshot_short (is_snapshot_short req.snapshot_short)
  require snapshot_id (is_snapshot_id req.snapshot_id)
  require snapshot_short (text_eq req.snapshot_short (take 8 req.snapshot_id))

unfoldable pub check_container : ExtractRequest → Result Field (Unit {0})
unfolding text_eq container_names
check_container req =
    if text_eq req.diff_container []
    then ok tt
    else require diff_container (container_names req.diff_container req.snapshot_short)

unfoldable pub check_source : ExtractRequest → Result Field (Unit {0})
unfolding text_eq contains_rune clean_browse_path
check_source req = do
  require source (not (text_eq req.source []))
  require source
      (not (contains_rune 0 req.source) && text_eq req.source (clean_browse_path req.source))

unfoldable pub check_includes : ExtractRequest → Result Field (Unit {0})
unfolding includes_total
check_includes req = do
  require include_paths (leb (length req.include_paths) max_diff_extract_includes)
  total ← includes_total req.source 0 req.include_paths
  require include_paths (leb total max_diff_extract_include_bytes)

unfoldable pub want_name : ExtractRequest → Result Field Text
unfolding text_eq sanitize_extract_slug path_base
want_name req =
    if text_eq req.source root
    then ok req.snapshot_short
    else or_fail source (sanitize_extract_slug (path_base req.source))

unfoldable pub check_source_name : ExtractRequest → Text → Result Field (Unit {0})
unfolding text_eq contains_rune has_prefix
check_source_name req want = require source_name (
    not (text_eq req.source_name [])
    && not (contains_rune b'/' req.source_name)
    && not (has_prefix req.source_name (codes "."))
    && text_eq req.source_name want)

-- `filepath.IsAbs` on Unix.
unfoldable pub is_abs : Text → Bool
unfolding has_prefix
is_abs p = has_prefix p root

unfoldable pub chosen_root : Text → ExtractRequest → Result Field Text
unfolding text_eq is_abs
chosen_root configured req =
    let chosen = if text_eq req.target_root [] then configured else req.target_root in
    do
      require target_root (text_eq req.target_root [] || is_abs req.target_root)
      require target_root (not (text_eq chosen []) && is_abs chosen)
      ok chosen

unfoldable pub snap_dir : Text → ExtractRequest → Text
unfolding text_eq join_rooted
snap_dir repo_dir req =
    if text_eq req.diff_container []
    then join_rooted repo_dir req.snapshot_short
    else join_rooted (join_rooted repo_dir req.diff_container) req.snapshot_short

unfoldable pub final_path_in : Text → ExtractRequest → Text
unfolding snap_dir join_rooted trim_prefix
final_path_in repo_dir req = join_rooted (snap_dir repo_dir req) (trim_prefix req.source root)

-- What the hash of the staging name is taken of.
unfoldable pub hash_input : ExtractRequest → Text
unfolding text_eq
hash_input req =
    if text_eq req.diff_container [] then req.source else req.diff_container ++ 0 ∷ req.source

-- The digest in hexadecimal digits is a parameter.
module _ (sha256_hex : Text → Text) where
  unfoldable pub staging_name : ExtractRequest → Text
  unfolding hash_input
  staging_name req =
      codes ".resticscope-staging-"
      ++ (req.snapshot_short
          ++ b'-' ∷ (req.source_name ++ b'-' ∷ take 16 (sha256_hex (hash_input req))))

  unfoldable pub staging_path : Text → ExtractRequest → Text
  unfolding staging_name join_rooted
  staging_path repo_dir req = join_rooted repo_dir (staging_name req)

  -- The staging and the final path, from the configured target root.
  unfoldable pub plan_extract_paths : Text → ExtractRequest → Result Field (Text × Text)
  unfolding text_eq sanitize_extract_slug check_snapshot check_container check_source check_includes
      want_name check_source_name chosen_root staging_path final_path_in join_rooted
  plan_extract_paths configured req = do
    require repo (not (text_eq req.repo []))
    repo_slug ← or_fail repo (sanitize_extract_slug req.repo)
    check_snapshot req
    check_container req
    check_source req
    check_includes req
    want ← want_name req
    check_source_name req want
    chosen ← chosen_root configured req
    ok (
      staging_path (join_rooted chosen repo_slug) req,
      final_path_in (join_rooted chosen repo_slug) req,
    )

unfoldable pub check_extract_mode_gate : ExtractRequest → Result Field (Unit {0})
unfolding text_eq
check_extract_mode_gate req = elim req.mode [
  | extract_file ↦ do
    require mode req.was_regular_file
    require source (not (text_eq req.source []) && not (text_eq req.source root))
    require include_paths (leb (length req.include_paths) 0)
  | extract_directory_tree ↦ require mode (not req.was_regular_file)
]

unfoldable pub extract_diff_target_dir : Text → ExtractRequest → Result Field Text
unfolding text_eq sanitize_extract_slug is_abs join_rooted
extract_diff_target_dir configured req = do
  require diff_container (not (text_eq req.diff_container []))
  repo_slug ← or_fail repo (sanitize_extract_slug req.repo)
  let chosen = if text_eq req.target_root [] then configured else req.target_root
  require target_root (not (text_eq chosen []) && is_abs chosen)
  ok (join_rooted (join_rooted chosen repo_slug) req.diff_container)

-- What resticx restores: a snapshot's subtree into a directory, limited to the include paths.
pub record ExtractTreeParams : Type 0 where
  pub snapshot_id : Text
  pub source : Text
  pub target : Text
  pub include_paths : List Text
  pub no_cache : Bool

unfoldable pub rebased : Text → Text → Text
unfolding path_base trim_prefix
rebased src inc = b'/' ∷ (path_base src ++ trim_prefix inc src)

unfoldable pub extract_tree_params : ExtractRequest → Text → ExtractTreeParams
unfolding text_eq path_dir path_base rebased
extract_tree_params req staging =
    if text_eq req.source root
    then record {
      snapshot_id = req.snapshot_id;
      source = [];
      target = staging;
      include_paths = req.include_paths;
      no_cache = false;
    }
    else record {
      snapshot_id = req.snapshot_id;
      source = path_dir req.source;
      target = staging;
      include_paths = (elim req.include_paths [
        | [] ↦ (b'/' ∷ path_base req.source) ∷ []
        | inc ∷ incs ↦ map (rebased req.source) (inc ∷ incs)
      ]);
      no_cache = false;
    }
