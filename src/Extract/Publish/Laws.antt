-- ===== src/Extract/Publish/Laws.antt =====
-- The pipeline of an extraction leaves an occupied target as it is, and fills a free one.
use resticscope.Prelude.{
  Text, ◌≡◌, ◌≢◌, true, Option, none, some, ◌⊎◌, inl, inr, has_prefix, Option-cases,
}
use resticscope.Paths.{path_dir}
use resticscope.Extract.{
  ExtractMode, extract_file, extract_directory_tree, ExtractRequest, source_prefix,
}
use resticscope.Extract.Plan.{ExtractTreeParams, extract_tree_params}
use resticscope.Extract.Args.Restored.{params_lem}
use resticscope.Extract.Publish.{
  NodeKind, directory, other, Stat, node, missing, failed, exists, other_error, ExtractError,
  ExtractResult, Outcome, restored, cancelled, broken, interrupted, restore_failed, FileSystem,
  link_extract_node, rename_extract_node, move_extract_node, restored_node, publish_extract,
  finish_extract, run_extract_pipeline,
}

-- A path at or below another one, as texts.
abbrev pub IsUnder : Text → Text → Type 0
IsUnder p q = (q ≡ p) ⊎ (has_prefix q (source_prefix p) ≡ true)

abbrev pub IsOccupied : {S : Type 0} → FileSystem S → S → Text → Type 0
IsOccupied fs s p = (k : NodeKind) × (fs.stat s p ≡ node k)

-- What is relied on: creating a directory keeps what is there; the restore and the normaliser keep
-- what lies outside their directory; `remove` keeps every other path; a hard link never replaces;
-- and a link or a renaming that succeeds puts a node at its target.
pub record IsFileSystem {S : Type 0} (fs : FileSystem S) : Type 0 where
  pub mkdir_all_keeps :
      (s : S) (p q : Text) → IsOccupied fs s q → IsOccupied fs (fs.mkdir_all s p).0 q
  pub mkdir_keeps : (s : S) (p q : Text) → IsOccupied fs s q → IsOccupied fs (fs.mkdir s p).0 q
  pub restore_keeps :
      (s : S) (params : ExtractTreeParams) (q : Text)
      → ¬ IsUnder params.target q
      → IsOccupied fs s q
      → IsOccupied fs (fs.restore s params).0 q
  pub normalize_keeps :
      (s : S) (p q : Text)
      → ¬ IsUnder p q
      → IsOccupied fs s q
      → IsOccupied fs (fs.normalize s p).0 q
  pub remove_keeps :
      (s : S) (p q : Text) → p ≢ q → IsOccupied fs s q → IsOccupied fs (fs.remove s p) q
  pub link_refuses :
      (s : S) (from to : Text)
      → IsOccupied fs s to
      → IsOccupied fs (fs.link s from to).0 to × ((fs.link s from to).1 ≢ none)
  pub link_puts :
      (s : S) (from to : Text)
      → (fs.link s from to).1 ≡ none
      → IsOccupied fs (fs.link s from to).0 to
  pub rename_puts :
      (s : S) (from to : Text)
      → (fs.rename s from to).1 ≡ none
      → IsOccupied fs (fs.rename s from to).0 to

module _ {S : Type 0} (fs : FileSystem S) (laws : IsFileSystem fs) (final : Text) where
  -- A step that is tried at an occupied target fails and leaves it occupied.
  abbrev Refuses : S × Option ExtractError → Type 0
  Refuses r = IsOccupied fs r.0 final × (r.1 ≢ none)

  link-Refuses :
      (s : S) (from : Text) → IsOccupied fs s final → Refuses (link_extract_node fs s from final)
  unfolding link_extract_node
  link-Refuses s from o =
      let (kept, fails) = laws.link_refuses s from final o in
      elim (Option-cases (fs.link s from final).1) [
        | inl e ↦ elim (fails e) [ ]
        | inr (e, eq) ↦ rw (eq, link_extract_node) (kept, λ h. cc)
      ]

  rename-Refuses :
      (s : S) (from : Text) → IsOccupied fs s final → Refuses (rename_extract_node fs s from final)
  unfolding rename_extract_node
  rename-Refuses s from o = rw (o.1, rename_extract_node) (o, λ h. cc)

  move-Refuses :
      (mode : ExtractMode) (s : S) (from : Text)
      → IsOccupied fs s final
      → Refuses (move_extract_node fs mode s from final)
  unfolding move_extract_node
  move-Refuses extract_file s from o = link-Refuses s from o
  move-Refuses extract_directory_tree s from o = at (fs.stat s from)
    where
      at :
          (k : Stat)
          → Refuses (elim k [
            | node other ↦ link_extract_node fs s from final
            | node directory ↦ rename_extract_node fs s from final
            | missing ↦ rename_extract_node fs s from final
            | failed ↦ rename_extract_node fs s from final
          ])
      at (node other) = link-Refuses s from o
      at (node directory) = rename-Refuses s from o
      at missing = rename-Refuses s from o
      at failed = rename-Refuses s from o

  publish-Refuses :
      (mode : ExtractMode) (src staging : Text) (s : S)
      → IsOccupied fs s final
      → Refuses (publish_extract fs mode src staging final s)
  unfolding publish_extract
  publish-Refuses mode src staging s o =
      let s1 = (fs.mkdir_all s (path_dir final)).0 in
      let o1 = laws.mkdir_all_keeps s (path_dir final) final o in
      elim (Option-cases (fs.mkdir_all s (path_dir final)).1) [
        | inr (e, eq) ↦ rw (eq, publish_extract) (o1, λ h. cc)
        | inl eq ↦
            let r = move_extract_node fs mode s1 (restored_node fs src staging) final in
            let (o2, fails) = move-Refuses mode s1 (restored_node fs src staging) o1 in
            elim (Option-cases r.1) [
              | inl h ↦ elim (fails h) [ ]
              | inr (e, h) ↦ rw (eq, h, publish_extract) (o2, λ k. cc)
            ]
      ]

  abbrev Kept : S × (ExtractResult × Option ExtractError) → Type 0
  Kept r = IsOccupied fs r.0 final × (r.1.1 ≢ none)

  finish-Kept :
      (req : ExtractRequest) (staging : Text) (result : ExtractResult) (s : S)
      → ¬ IsUnder staging final
      → IsOccupied fs s final
      → Kept (finish_extract fs req staging final result s)
  unfolding finish_extract
  finish-Kept req staging result s out o =
      let s1 = (fs.normalize s staging).0 in
      let o1 = laws.normalize_keeps s staging final out o in
      elim (Option-cases (fs.normalize s staging).1) [
        | inl eq ↦ rw (eq, finish_extract) (o1, λ h. cc)
        | inr (c, eq) ↦
            let r = publish_extract fs req.mode req.source staging final s1 in
            let (o2, fails) = publish-Refuses req.mode req.source staging s1 o1 in
            elim (Option-cases r.1) [
              | inl h ↦ elim (fails h) [ ]
              | inr (e, h) ↦ rw (eq, h, finish_extract) (o2, λ k. cc)
            ]
      ]

  -- Where the final path is taken when the pipeline starts and does not lie at or below the
  -- staging directory, the pipeline reports an error, however each step ends, and the final path
  -- is still taken.
  pub run_extract_pipeline-keeps :
      (req : ExtractRequest) (staging : Text) (s : S)
      → ¬ IsUnder staging final
      → IsOccupied fs s final
      → IsOccupied fs (run_extract_pipeline fs req staging final s).0 final
        × ((run_extract_pipeline fs req staging final s).1.1 ≢ none)
  unfolding run_extract_pipeline
  run_extract_pipeline-keeps req staging s out o =
      let s1 = (fs.mkdir_all s (path_dir staging)).0 in
      let o1 = laws.mkdir_all_keeps s (path_dir staging) final o in
      elim (Option-cases (fs.mkdir_all s (path_dir staging)).1) [
        | inr (e, eq) ↦ rw (eq, run_extract_pipeline) (o1, λ h. cc)
        | inl eq ↦
            let s2 = (fs.mkdir s1 staging).0 in
            let o2 = laws.mkdir_keeps s1 staging final o1 in
            elim (Option-cases (fs.mkdir s1 staging).1) [
              | inr (exists, h) ↦ rw (eq, h, run_extract_pipeline) (o2, λ k. cc)
              | inr (other_error, h) ↦ rw (eq, h, run_extract_pipeline) (o2, λ k. cc)
              | inl h ↦
                  let params = extract_tree_params req staging in
                  let out' : ¬ IsUnder params.target final = rw (params_lem req staging).1 out in
                  let o3 = laws.restore_keeps s2 params final out' o2 in
                  rw (eq, h, run_extract_pipeline) (ends (fs.restore s2 params).1.1 _ _ o3)
            ]
      ]
    where
      ends :
          (outcome : Outcome) (result : ExtractResult) (s : S)
          → IsOccupied fs s final
          → Kept (elim outcome [
            | cancelled ↦ (s, (result, some interrupted))
            | broken ↦ (s, (result, some restore_failed))
            | restored ↦ finish_extract fs req staging final result s
          ])
      ends restored result s o = finish-Kept req staging result s out o
      ends cancelled result s o = (o, λ h. cc)
      ends broken result s o = (o, λ h. cc)
