-- ===== src/Extract/Publish/Published.antt =====
-- An extraction that reports no error has put a node at the final path.
use resticscope.Prelude.{
  Text, ◌≡◌, ◌≢◌, refl, Option, none, some, inl, inr, text_eq, if◌then◌else◌, Option-cases,
  Bool-cases,
}
use resticscope.Paths.{root, path_dir}
use resticscope.Extract.{ExtractMode, extract_file, extract_directory_tree, ExtractRequest}
use resticscope.Extract.Plan.{extract_tree_params}
use resticscope.Extract.Publish.{
  directory, other, Stat, node, missing, failed, OsError, exists, other_error, final_exists,
  rename_failed, stat_target, ExtractError, ExtractResult, Outcome, restored, cancelled, broken,
  interrupted, restore_failed, FileSystem, link_extract_node, rename_extract_node,
  move_extract_node, restored_node, publish_extract, finish_extract, run_extract_pipeline,
}
use resticscope.Extract.Publish.Laws.{IsOccupied, IsFileSystem}

module _ {S : Type 0} (fs : FileSystem S) (laws : IsFileSystem fs) (final : Text) where
  -- A step without an error has filled the final path.
  abbrev Fills : S × Option ExtractError → Type 0
  Fills r = r.1 ≡ none → IsOccupied fs r.0 final

  link-Fills : (s : S) (from : Text) → from ≢ final → Fills (link_extract_node fs s from final)
  unfolding link_extract_node
  link-Fills s from apart = elim (Option-cases (fs.link s from final).1) [
    | inr (e, eq) ↦ rw (eq, link_extract_node) (λ h. cc)
    | inl eq ↦
        rw (eq, link_extract_node)
          (λ h.
            laws.remove_keeps (fs.link s from final).0 from final apart
              (laws.link_puts s from final eq))
  ]

  rename-Fills : (s : S) (from : Text) → Fills (rename_extract_node fs s from final)
  unfolding rename_extract_node
  rename-Fills s from = at (fs.stat s final)
    where
      renamed :
          (e : Option OsError)
          → (fs.rename s from final).1 ≡ e
          → Fills (elim e [
            | some e' ↦ ((fs.rename s from final).0, some rename_failed)
            | none ↦ ((fs.rename s from final).0, none)
          ])
      renamed none h = λ k. laws.rename_puts s from final h
      renamed (some e) h = λ k. cc

      at :
          (k : Stat)
          → Fills (elim k [
            | node k' ↦ (s, some final_exists)
            | failed ↦ (s, some stat_target)
            | missing ↦
                (let (s', e) = fs.rename s from final in
                  elim e [ some e' ↦ (s', some rename_failed) | none ↦ (s', none) ])
          ])
      at (node k) = λ h. cc
      at failed = λ h. cc
      at missing = renamed (fs.rename s from final).1 refl

  move-Fills :
      (mode : ExtractMode) (s : S) (from : Text)
      → from ≢ final
      → Fills (move_extract_node fs mode s from final)
  unfolding move_extract_node
  move-Fills extract_file s from apart = link-Fills s from apart
  move-Fills extract_directory_tree s from apart = at (fs.stat s from)
    where
      at :
          (k : Stat)
          → Fills (elim k [
            | node other ↦ link_extract_node fs s from final
            | node directory ↦ rename_extract_node fs s from final
            | missing ↦ rename_extract_node fs s from final
            | failed ↦ rename_extract_node fs s from final
          ])
      at (node other) = link-Fills s from apart
      at (node directory) = rename-Fills s from
      at missing = rename-Fills s from
      at failed = rename-Fills s from

  publish-Fills :
      (mode : ExtractMode) (src staging : Text) (s : S)
      → staging ≢ final
      → restored_node fs src staging ≢ final
      → Fills (publish_extract fs mode src staging final s)
  unfolding publish_extract
  publish-Fills mode src staging s apart apart' =
      let s1 = (fs.mkdir_all s (path_dir final)).0 in
      let r = move_extract_node fs mode s1 (restored_node fs src staging) final in
      elim (Option-cases (fs.mkdir_all s (path_dir final)).1) [
        | inr (e, eq) ↦ rw (eq, publish_extract) (λ h. cc)
        | inl eq ↦ elim (Option-cases r.1) [
          | inr (e, h) ↦ rw (eq, h, publish_extract) (λ k. cc)
          | inl h ↦
              rw (eq, h, publish_extract)
                (λ k. shell r.0 (move-Fills mode s1 (restored_node fs src staging) apart' h))
        ]
      ]
    where
      shell :
          (s : S)
          → IsOccupied fs s final
          → IsOccupied fs (if text_eq src root then s else fs.remove s staging) final
      shell s o = elim (Bool-cases (text_eq src root)) [
        | inl e ↦ rw e o
        | inr e ↦ rw e (laws.remove_keeps s staging final apart o)
      ]

  abbrev Published : S × (ExtractResult × Option ExtractError) → Type 0
  Published r = r.1.1 ≡ none → IsOccupied fs r.0 final × (r.1.0.final_path ≡ final)

  finish-Published :
      (req : ExtractRequest) (staging : Text) (result : ExtractResult) (s : S)
      → staging ≢ final
      → restored_node fs req.source staging ≢ final
      → Published (finish_extract fs req staging final result s)
  unfolding finish_extract
  finish-Published req staging result s apart apart' =
      let s1 = (fs.normalize s staging).0 in
      let r = publish_extract fs req.mode req.source staging final s1 in
      elim (Option-cases (fs.normalize s staging).1) [
        | inl eq ↦ rw (eq, finish_extract) (λ h. cc)
        | inr (c, eq) ↦ elim (Option-cases r.1) [
          | inr (e, h) ↦ rw (eq, h, finish_extract) (λ k. cc)
          | inl h ↦
              rw (eq, h, finish_extract)
                (λ k. (publish-Fills req.mode req.source staging s1 apart apart' h, refl))
        ]
      ]

  -- Where the pipeline reports no error, a node stands at the final path and the result names that
  -- path, the staging directory and the restored node being other paths than the final one.
  pub run_extract_pipeline-publishes :
      (req : ExtractRequest) (staging : Text) (s : S)
      → staging ≢ final
      → restored_node fs req.source staging ≢ final
      → (run_extract_pipeline fs req staging final s).1.1 ≡ none
      → IsOccupied fs (run_extract_pipeline fs req staging final s).0 final
        × ((run_extract_pipeline fs req staging final s).1.0.final_path ≡ final)
  unfolding run_extract_pipeline
  run_extract_pipeline-publishes req staging s apart apart' =
      let s1 = (fs.mkdir_all s (path_dir staging)).0 in
      let s2 = (fs.mkdir s1 staging).0 in
      elim (Option-cases (fs.mkdir_all s (path_dir staging)).1) [
        | inr (e, eq) ↦ rw (eq, run_extract_pipeline) (λ h. cc)
        | inl eq ↦ elim (Option-cases (fs.mkdir s1 staging).1) [
          | inr (exists, h) ↦ rw (eq, h, run_extract_pipeline) (λ k. cc)
          | inr (other_error, h) ↦ rw (eq, h, run_extract_pipeline) (λ k. cc)
          | inl h ↦
              rw (eq, h, run_extract_pipeline)
                (ends (fs.restore s2 (extract_tree_params req staging)).1.1 _ _)
        ]
      ]
    where
      ends :
          (outcome : Outcome) (result : ExtractResult) (s : S)
          → Published (elim outcome [
            | cancelled ↦ (s, (result, some interrupted))
            | broken ↦ (s, (result, some restore_failed))
            | restored ↦ finish_extract fs req staging final result s
          ])
      ends restored result s = finish-Published req staging result s apart apart'
      ends cancelled result s = λ h. cc
      ends broken result s = λ h. cc
