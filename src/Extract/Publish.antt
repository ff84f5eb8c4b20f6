-- ===== src/Extract/Publish.antt =====
-- FreshTargetCheck, publishExtract, linkExtractNode, driveExtractTree, runExtractPipeline and Extract
-- of internal/app/extract.go, over a file system.
pub mod Laws
pub mod Published
pub mod Extracted
use resticscope.Prelude.{
  ℕ, Text, ◌≡◌, Bool, true, false, not, Option, none, some, List, [], ◌∷◌, codes, ◌⊎◌, text_eq,
  has_prefix, if◌then◌else◌, Result, ok, err,
}
use resticscope.Paths.{root, path_base, path_dir, join_rooted}
use resticscope.Extract.{
  ExtractMode, extract_file, extract_directory_tree, Field, ExtractRequest, source_prefix,
}
use resticscope.Extract.Plan.{
  ExtractTreeParams, extract_tree_params, plan_extract_paths, check_extract_mode_gate,
}

pub data NodeKind : Type 0 where
  directory other : NodeKind

-- `os.Lstat`: a node, `os.ErrNotExist`, or another error.
pub data Stat : Type 0 where
  node : NodeKind → Stat
  missing failed : Stat

-- Whether an error is `os.ErrExist`.
pub data OsError : Type 0 where
  exists other_error : OsError

pub data ExtractError : Type 0 where
  invalid_request : Field → ExtractError
  unsupported unresolved : ExtractError
  staging_exists final_exists rename_failed : ExtractError
  create_target_parent create_staging stat_staging stat_target : ExtractError
  interrupted restore_failed metadata_normalization : ExtractError

-- The events of a restore that the application reads.
pub data ExtractTreeEvent : Type 0 where
  status : ExtractTreeEvent
  summary : (files_restored bytes_restored : ℕ) → ExtractTreeEvent
  item_error : ExtractTreeEvent

pub record ExtractMetaCounts : Type 0 where
  pub files : ℕ
  pub dirs : ℕ
  pub unsafe_symlinks : ℕ
  pub other : ℕ

pub record ExtractResult : Type 0 where
  pub files : ℕ
  pub dirs : ℕ
  pub bytes : ℕ
  pub unsafe_symlinks : ℕ
  pub other : ℕ
  pub final_dir : Text
  pub final_path : Text
  pub staging_dir : Text
  pub staging_created : Bool

-- How a restore ended: the deadline or the caller's cancellation goes before restic's own error.
pub data Outcome : Type 0 where
  restored cancelled broken : Outcome

-- What the operating system, restic and the normaliser do to the files.
pub record FileSystem (S : Type 0) : Type 0 where
  pub stat : S → Text → Stat
  pub mkdir_all : S → Text → S × Option OsError
  pub mkdir : S → Text → S × Option OsError
  pub rename : S → Text → Text → S × Option OsError
  pub link : S → Text → Text → S × Option OsError
  pub remove : S → Text → S
  pub restore : S → ExtractTreeParams → S × (List ExtractTreeEvent × Outcome)
  pub normalize : S → Text → S × Option ExtractMetaCounts

abbrev pub no_result : ExtractResult
no_result = record {
  files = 0;
  dirs = 0;
  bytes = 0;
  unsafe_symlinks = 0;
  other = 0;
  final_dir = [];
  final_path = [];
  staging_dir = [];
  staging_created = false;
}

-- `onEvent`, and the events of a run in their order.
unfoldable pub on_event : ExtractResult → ExtractTreeEvent → ExtractResult
on_event result status = result
on_event result (summary files bytes) = record result { files = files; bytes = bytes }
on_event result item_error = result

unfoldable pub on_events : ExtractResult → List ExtractTreeEvent → ExtractResult
unfolding on_event
on_events result [] = result
on_events result (ev ∷ evs) = on_events (on_event result ev) evs

module _ {S : Type 0} (fs : FileSystem S) where
  open fs use {stat, mkdir_all, mkdir, rename, link, remove, restore, normalize}

  unfoldable pub fresh_target_check : S → Text → Text → Option ExtractError
  fresh_target_check s staging final = elim (stat s staging) [
    | node k ↦ some staging_exists
    | failed ↦ some stat_staging
    | missing ↦ elim (stat s final) [
      | node k ↦ some final_exists
      | failed ↦ some stat_target
      | missing ↦ none
    ]
  ]

  abbrev link_error : OsError → ExtractError
  link_error exists = final_exists
  link_error other_error = rename_failed

  unfoldable pub link_extract_node : S → Text → Text → S × Option ExtractError
  link_extract_node s from final =
      let (s', e) = link s from final in
      elim e [ some e' ↦ (s', some (link_error e')) | none ↦ (remove s' from, none) ]

  -- A directory is renamed once the final path is seen to be free.
  unfoldable pub rename_extract_node : S → Text → Text → S × Option ExtractError
  rename_extract_node s from final = elim (stat s final) [
    | node k ↦ (s, some final_exists)
    | failed ↦ (s, some stat_target)
    | missing ↦
        (let (s', e) = rename s from final in
          elim e [ some e' ↦ (s', some rename_failed) | none ↦ (s', none) ])
  ]

  unfoldable pub move_extract_node : ExtractMode → S → Text → Text → S × Option ExtractError
  unfolding link_extract_node rename_extract_node
  move_extract_node extract_file s from final = link_extract_node s from final
  move_extract_node extract_directory_tree s from final = elim (stat s from) [
    | node other ↦ link_extract_node s from final
    | node directory ↦ rename_extract_node s from final
    | missing ↦ rename_extract_node s from final
    | failed ↦ rename_extract_node s from final
  ]

  -- The restored node: below the staging directory, or that directory for a whole snapshot.
  unfoldable pub restored_node : Text → Text → Text
  unfolding text_eq join_rooted path_base
  restored_node src staging =
      if text_eq src root then staging else join_rooted staging (path_base src)

  unfoldable pub publish_extract : ExtractMode → Text → Text → Text → S → S × Option ExtractError
  unfolding text_eq path_dir restored_node move_extract_node
  publish_extract mode src staging final s =
      let (s1, e1) = mkdir_all s (path_dir final) in
      elim e1 [
        | some e ↦ (s1, some create_target_parent)
        | none ↦
            (let (s2, e2) = move_extract_node mode s1 (restored_node src staging) final in
              elim e2 [
                | some e ↦ (s2, some e)
                | none ↦ (if text_eq src root then s2 else remove s2 staging, none)
              ])
      ]

  -- The directory that a shell is opened in.
  unfoldable pub final_dir_of : ExtractMode → S → Text → Text
  unfolding path_dir
  final_dir_of extract_file s final = path_dir final
  final_dir_of extract_directory_tree s final = elim (stat s final) [
    | node other ↦ path_dir final
    | node directory ↦ final
    | missing ↦ final
    | failed ↦ final
  ]

  unfoldable pub with_counts : ExtractResult → ExtractMetaCounts → ExtractResult
  with_counts result counts = record result {
    files = counts.files;
    dirs = counts.dirs;
    unsafe_symlinks = counts.unsafe_symlinks;
    other = counts.other;
  }

  -- Behind the restore: metadata, then the publication.
  unfoldable pub finish_extract :
      ExtractRequest → Text → Text → ExtractResult → S → S × (ExtractResult × Option ExtractError)
  unfolding with_counts publish_extract final_dir_of
  finish_extract req staging final result s =
      let (s1, counts) = normalize s staging in
      elim counts [
        | none ↦ (s1, (result, some metadata_normalization))
        | some c ↦
            (let (s2, e) = publish_extract req.mode req.source staging final s1 in
              elim e [
                | some e' ↦ (s2, (with_counts result c, some e'))
                | none ↦ (
                  s2,
                  (
                    record (with_counts result c) {
                      final_path = final;
                      final_dir = final_dir_of req.mode s2 final;
                    },
                    none,
                  ),
                )
              ])
      ]

  abbrev staged : Text → ExtractResult
  staged staging = record no_result { staging_dir = staging; staging_created = true }

  unfoldable pub run_extract_pipeline :
      ExtractRequest → Text → Text → S → S × (ExtractResult × Option ExtractError)
  unfolding path_dir extract_tree_params on_events finish_extract
  run_extract_pipeline req staging final s =
      let (s1, e1) = mkdir_all s (path_dir staging) in
      elim e1 [
        | some e ↦ (s1, (no_result, some create_target_parent))
        | none ↦
            (let (s2, e2) = mkdir s1 staging in
              elim e2 [
                | some exists ↦ (s2, (no_result, some staging_exists))
                | some other_error ↦ (s2, (no_result, some create_staging))
                | none ↦
                    (let (s3, run) = restore s2 (extract_tree_params req staging) in
                      let result = on_events (staged staging) run.0 in
                      elim run.1 [
                        | cancelled ↦ (s3, (result, some interrupted))
                        | broken ↦ (s3, (result, some restore_failed))
                        | restored ↦ finish_extract req staging final result s3
                      ])
              ])
      ]

  -- The whole request: `supported` is the platform's, `resolved` says that the repository is known
  -- and its credential resolves, and `helper` is the run in the root helper's process.
  module _ (sha256_hex : Text → Text) (configured : Text) (supported : Bool)
      (resolved : Text → Bool)
      (helper : ExtractRequest → Text → S → S × (ExtractResult × Option ExtractError)) where
    abbrev refused : S → ExtractError → S × (ExtractResult × Option ExtractError)
    refused s e = (s, (no_result, some e))

    unfoldable pub extract : ExtractRequest → S → S × (ExtractResult × Option ExtractError)
    unfolding plan_extract_paths check_extract_mode_gate fresh_target_check run_extract_pipeline
    extract req s = elim (plan_extract_paths sha256_hex configured req) [
      | err field ↦ refused s (invalid_request field)
      | ok (staging, final) ↦ elim (check_extract_mode_gate req) [
        | err field ↦ refused s (invalid_request field)
        | ok u ↦ elim supported [
          | false ↦ refused s unsupported
          | true ↦ elim (resolved req.repo) [
            | false ↦ refused s unresolved
            | true ↦ elim (fresh_target_check s staging final) [
              | some e ↦ refused s e
              | none ↦
                  if req.privileged
                  then helper req staging s
                  else run_extract_pipeline req staging final s
            ]
          ]
        ]
      ]
    ]
