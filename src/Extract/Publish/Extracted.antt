-- ===== src/Extract/Publish/Extracted.antt =====
-- The whole of an extraction: a plan's paths meet what the pipeline asks of them.
use resticscope.Prelude.{
  Text, ◌≡◌, ◌≢◌, refl, ap, sym, ◌∙◌, subst, Bool, true, false, Option, none, List, [], ◌∷◌, ◌++◌,
  inl, inr, text_eq, Option-cases, Bool-cases, Result-cases, ok, All, All-append, append-nil, arith,
}
use resticscope.Paths.{root, render, path_base, join_rooted}
use resticscope.Paths.Clean.{IsPlain, IsClean}
use resticscope.Paths.Join.{resolved, resolved-render, join_rooted-name}
use resticscope.Extract.{ExtractRequest, is_lower_hex}
use resticscope.Extract.Plan.{plan_extract_paths, check_extract_mode_gate}
use resticscope.Extract.Plain.{fixed-IsClean}
use resticscope.Extract.Planned.{plan-IsGuarded}
use resticscope.Extract.Located.{IsBelow, plan_extract_paths-IsLocated}
use resticscope.Extract.Args.Composed.{IsSource, render-IsSource, base_of}
use resticscope.Extract.Publish.{
  missing, ExtractError, ExtractResult, FileSystem, restored_node, fresh_target_check,
  run_extract_pipeline, extract,
}
use resticscope.Extract.Publish.Laws.{IsOccupied, IsFileSystem}
use resticscope.Extract.Publish.Published.{run_extract_pipeline-publishes}

-- Rendered components are not below others where the texts are equal.
render-injective :
    (cs ds : List Text) → All IsPlain cs → All IsPlain ds → render cs ≡ render ds → cs ≡ ds
render-injective cs ds h k e = sym (resolved-render cs h) ∙ ap resolved e ∙ resolved-render ds k

module _ {S : Type 0} (fs : FileSystem S) where
  node_apart :
      (cs ds : List Text) (src : Text)
      → All IsPlain cs
      → All IsPlain ds
      → ¬ IsBelow cs ds
      → IsClean src
      → restored_node fs src (render cs) ≢ render ds
  unfolding restored_node
  node_apart cs ds src h k out c = elim (Bool-cases (text_eq src root)) [
    | inl e ↦ rw e (λ same. out ([], render-injective ds cs k h (sym same) ∙ sym (append-nil cs)))
    | inr e ↦
        let s : IsSource src = subst IsSource (sym c.rendered) (
          render-IsSource c.components c.plain
            (subst (λ q. text_eq q root ≡ false) c.rendered e)) in
        let base : IsPlain (path_base src) = subst IsPlain (sym (base_of src s)) s.name_plain in
        rw e (λ same. out (path_base src ∷ [], components s base same))
  ]
    where
      components :
          IsSource src
          → IsPlain (path_base src)
          → join_rooted (render cs) (path_base src) ≡ render ds
          → ds ≡ cs ++ path_base src ∷ []
      components s base same =
          sym (resolved-render ds k)
          ∙ ap resolved (sym same ∙ join_rooted-name (render cs) (path_base src) base)
          ∙ ap (λ l. resolved (render (l ++ path_base src ∷ []))) (resolved-render cs h)
          ∙ resolved-render (cs ++ path_base src ∷ []) (All-append IsPlain cs _ h (base, tt))

  -- The paths of a plan are apart.
  plan-apart :
      (sha256_hex : Text → Text) (configured : Text) (req : ExtractRequest) (staging final : Text)
      → ((s : Text) → All (λ c. is_lower_hex c ≡ true) (sha256_hex s))
      → plan_extract_paths sha256_hex configured req ≡ ok (staging, final)
      → (staging ≢ final) × (restored_node fs req.source staging ≢ final)
  plan-apart sha256_hex configured req staging final hex h =
      let (g, _, _) = plan-IsGuarded sha256_hex configured req staging final h in
      let at = plan_extract_paths-IsLocated sha256_hex configured req staging final hex h in
      let clean = fixed-IsClean req.source g.clean in
      (
        λ same. at.final_outside (
          [],
          render-injective _ _ at.final_plain at.staging_plain
                (sym at.final_at ∙ sym same ∙ at.staging_at)
              ∙ sym (append-nil _),
        ),
        λ same.
            node_apart _ _ req.source at.staging_plain at.final_plain at.final_outside clean
              (ap (restored_node fs req.source) (sym at.staging_at) ∙ same ∙ at.final_at),
      )

  fresh_target_check-free :
      (s : S) (staging final : Text)
      → fresh_target_check fs s staging final ≡ none
      → (fs.stat s staging ≡ missing) × (fs.stat s final ≡ missing)
  unfolding fresh_target_check
  fresh_target_check-free s staging final h = ground arith

module _ {S : Type 0} (fs : FileSystem S) (laws : IsFileSystem fs) (sha256_hex : Text → Text) where
  -- What an extraction without an error has done.
  abbrev pub Extracted :
      Text → ExtractRequest → S → S × (ExtractResult × Option ExtractError) → Type 0
  Extracted configured req s r =
      (staging : Text) × (final : Text) × (plan_extract_paths sha256_hex configured req
        ≡ ok (staging, final))
      × (fs.stat s staging ≡ missing)
      × (fs.stat s final ≡ missing)
      × IsOccupied fs r.0 final
      × (r.1.0.final_path ≡ final)

  -- An extraction without the root helper that reports no error had a plan whose two paths were
  -- free, and has put a node at the plan's final path, which the result names. The digest is
  -- assumed to be hexadecimal digits.
  pub extract-Extracted :
      (configured : Text) (supported : Bool) (resolves : Text → Bool)
      (helper : ExtractRequest → Text → S → S × (ExtractResult × Option ExtractError))
      (req : ExtractRequest) (s : S)
      → req.privileged ≡ false
      → ((t : Text) → All (λ c. is_lower_hex c ≡ true) (sha256_hex t))
      → (extract fs sha256_hex configured supported resolves helper req s).1.1 ≡ none
      → Extracted configured req s
          (extract fs sha256_hex configured supported resolves helper req s)
  unfolding extract
  extract-Extracted configured supported resolves helper req s own hex =
      elim (Result-cases (plan_extract_paths sha256_hex configured req)) [
        | inl (e, p) ↦ rw (p, extract) (λ h. cc)
        | inr ((staging, final), p) ↦ elim (Result-cases (check_extract_mode_gate req)) [
          | inl (e, q) ↦ rw (p, q, extract) (λ h. cc)
          | inr (u, q) ↦ elim (Bool-cases supported) [
            | inr b ↦ rw (p, q, b, extract) (λ h. cc)
            | inl b ↦ elim (Bool-cases (resolves req.repo)) [
              | inr r ↦ rw (p, q, b, r, extract) (λ h. cc)
              | inl r ↦ elim (Option-cases (fresh_target_check fs s staging final)) [
                | inr (e, f) ↦ rw (p, q, b, r, f, extract) (λ h. cc)
                | inl f ↦
                    rw (p, q, b, r, f, own, extract)
                      (λ h.
                        let (a, b, c, d) = published staging final p f h in
                        (staging, final, refl, a, b, c, d))
              ]
            ]
          ]
        ]
      ]
    where
      published :
          (staging final : Text)
          → plan_extract_paths sha256_hex configured req ≡ ok (staging, final)
          → fresh_target_check fs s staging final ≡ none
          → (run_extract_pipeline fs req staging final s).1.1 ≡ none
          → (fs.stat s staging ≡ missing)
            × (fs.stat s final ≡ missing)
            × IsOccupied fs (run_extract_pipeline fs req staging final s).0 final
            × ((run_extract_pipeline fs req staging final s).1.0.final_path ≡ final)
      published staging final p f h =
          let (free_staging, free_final) = fresh_target_check-free fs s staging final f in
          let (apart, apart') = plan-apart fs sha256_hex configured req staging final hex p in
          let (put, named) =
            run_extract_pipeline-publishes fs laws final req staging s apart apart' h in
          (free_staging, free_final, put, named)
