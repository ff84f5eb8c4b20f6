-- ===== src/Extract/Located.antt =====
-- The two paths of a plan, component by component.
use resticscope.Prelude.{
  ℕ, Text, ◌≡◌, refl, ap, sym, ◌∙◌, true, false, inl, inr, List, [], ◌∷◌, ◌++◌, text_eq, arith,
  ◌==◌, All, All-append, append_assoc, Bool-cases, some, ok,
}
use resticscope.Paths.{render, join_rooted}
use resticscope.Paths.Clean.{IsPlain}
use resticscope.Paths.Join.{resolved}
use resticscope.Extract.{ExtractRequest, is_lower_hex}
use resticscope.Extract.Slug.{sanitize_extract_slug, sanitize_extract_slug-IsSlug}
use resticscope.Extract.Plan.{
  final_path_in, staging_name, staging_path, plan_extract_paths, chosen_root,
}
use resticscope.Extract.Plain.{IsSlug-IsPlain, short_shape, container-IsPlain, fixed-IsClean}
use resticscope.Extract.Planned.{IsGuarded, plan-IsGuarded}
use resticscope.Extract.Mirror.{
  repo_components, snap_components, resolved-IsPlain, repo_dir_lem, join_render-name, snap_dir_lem,
  snap_components-IsPlain, mirror_lem, staging_name-IsPlain,
}

-- A component list begins with another.
abbrev pub IsBelow : List Text → List Text → Type 0
IsBelow cs ds = (rest : List Text) × (ds ≡ cs ++ rest)

same_head : (cs : List Text) (a b : Text) (xs ys : List Text) → cs ++ a ∷ xs ≡ cs ++ b ∷ ys → a ≡ b
same_head [] a b xs ys h = cc
same_head (c ∷ cs) a b xs ys h = same_head cs a b xs ys cc

-- The first component below the repository's directory is not the staging directory.
snap_components-head :
    (sha256_hex : Text → Text) (configured : Text) (req : ExtractRequest)
    → IsGuarded configured req
    → (s : Text) × (rest : List Text) × (snap_components req ≡ s ∷ rest)
      × ¬ (staging_name sha256_hex req ≡ s)
unfolding staging_name
snap_components-head sha256_hex configured req g =
    elim (Bool-cases (text_eq req.diff_container [])) [
      | inl e ↦
          let (c, t, eq, dot, _) = short_shape req.snapshot_short g.short in
          (req.snapshot_short, [], rw e refl, λ h. starts_apart c t dot (h ∙ eq))
      | inr e ↦
          let (t, eq) =
            (container-IsPlain req.diff_container req.snapshot_short (rw e at g.container)).1 in
          (
            req.diff_container,
            req.snapshot_short ∷ [],
            rw e refl,
            λ h. starts_apart b'd' t refl (h ∙ eq),
          )
    ]
  where
    starts_apart : {n : Text} (c : ℕ) (t : Text) → (c == b'.') ≡ false → b'.' ∷ n ≡ c ∷ t → ⊥
    starts_apart {n = n} c t h e = ground arith

-- The two component lists, and that neither path lies at or below the other.
pub record IsLocated (sha256_hex : Text → Text) (configured : Text) (req : ExtractRequest)
    (staging final : Text) : Type 0 where
  pub chosen : Text
  pub chosen_is : chosen_root configured req ≡ ok chosen
  pub slug : Text
  pub slug_is : sanitize_extract_slug req.repo ≡ some slug
  pub staging_at :
      staging ≡ render (repo_components chosen slug ++ staging_name sha256_hex req ∷ [])
  pub final_at :
      final ≡ render ((repo_components chosen slug ++ snap_components req) ++ resolved req.source)
  pub staging_plain : All IsPlain (repo_components chosen slug ++ staging_name sha256_hex req ∷ [])
  pub final_plain :
      All IsPlain ((repo_components chosen slug ++ snap_components req) ++ resolved req.source)
  pub final_outside :
      ¬ IsBelow
        (repo_components chosen slug ++ staging_name sha256_hex req ∷ [])
        ((repo_components chosen slug ++ snap_components req) ++ resolved req.source)
  pub staging_outside :
      ¬ IsBelow
        ((repo_components chosen slug ++ snap_components req) ++ resolved req.source)
        (repo_components chosen slug ++ staging_name sha256_hex req ∷ [])

module _ (sha256_hex : Text → Text) where
  located :
      (configured : Text) (req : ExtractRequest)
      → ((s : Text) → All (λ c. is_lower_hex c ≡ true) (sha256_hex s))
      → (g : IsGuarded configured req)
      → IsLocated sha256_hex configured req
          (staging_path sha256_hex (join_rooted g.chosen g.slug) req)
          (final_path_in (join_rooted g.chosen g.slug) req)
  unfolding staging_path final_path_in
  located configured req hex g =
      let slug_plain =
        IsSlug-IsPlain g.slug (sanitize_extract_slug-IsSlug req.repo g.slug g.slug_of_repo).0 in
      let (at_repo, repo_plain) = repo_dir_lem g.chosen g.slug slug_plain in
      let name_plain = staging_name-IsPlain sha256_hex configured req hex g in
      let snap_plain = snap_components-IsPlain configured req g in
      let below_plain =
        All-append IsPlain (repo_components g.chosen g.slug) (snap_components req) repo_plain
          snap_plain in
      let (s, rest, shape, apart) = snap_components-head sha256_hex configured req g in
      record {
        chosen = g.chosen;
        chosen_is = g.chosen_is;
        slug = g.slug;
        slug_is = g.slug_of_repo;
        staging_at =
            rw at_repo (join_render-name (repo_components g.chosen g.slug) _ repo_plain name_plain);
        final_at =
            rw (at_repo, snap_dir_lem (repo_components g.chosen g.slug) req repo_plain snap_plain)
              (mirror_lem _ req.source below_plain (fixed-IsClean req.source g.clean));
        staging_plain = All-append IsPlain _ _ repo_plain (name_plain, tt);
        final_plain = All-append IsPlain _ _ below_plain (resolved-IsPlain req.source);
        final_outside = λ b.
            apart (same_head (repo_components g.chosen g.slug) _ s _ _ (forward s rest shape b));
        staging_outside = λ b.
            apart (same_head (repo_components g.chosen g.slug) _ s _ _ (backward s rest shape b));
      }
    where
      forward :
          (s : Text) (rest : List Text)
          → snap_components req ≡ s ∷ rest
          → (b : IsBelow
              (repo_components g.chosen g.slug ++ staging_name sha256_hex req ∷ [])
              ((repo_components g.chosen g.slug ++ snap_components req) ++ resolved req.source))
          → repo_components g.chosen g.slug ++ staging_name sha256_hex req ∷ b.0
            ≡ repo_components g.chosen g.slug ++ s ∷ (rest ++ resolved req.source)
      forward s rest shape b =
          sym
            (append_assoc (repo_components g.chosen g.slug) (staging_name sha256_hex req ∷ []) b.0)
          ∙ sym b.1
          ∙ append_assoc (repo_components g.chosen g.slug) (snap_components req)
              (resolved req.source)
          ∙ ap (λ l. repo_components g.chosen g.slug ++ (l ++ resolved req.source)) shape

      backward :
          (s : Text) (rest : List Text)
          → snap_components req ≡ s ∷ rest
          → (b : IsBelow
              ((repo_components g.chosen g.slug ++ snap_components req) ++ resolved req.source)
              (repo_components g.chosen g.slug ++ staging_name sha256_hex req ∷ []))
          → repo_components g.chosen g.slug ++ staging_name sha256_hex req ∷ []
            ≡ repo_components g.chosen g.slug ++ s ∷ ((rest ++ resolved req.source) ++ b.0)
      backward s rest shape b =
          b.1
          ∙ ap (λ l. l ++ b.0)
              (append_assoc (repo_components g.chosen g.slug) (snap_components req)
                (resolved req.source))
          ∙ append_assoc (repo_components g.chosen g.slug)
              (snap_components req ++ resolved req.source) b.0
          ∙ ap (λ l. repo_components g.chosen g.slug ++ ((l ++ resolved req.source) ++ b.0)) shape

  -- A plan that is made puts the staging directory in the repository's directory of the target root
  -- that holds, and the final path below that directory in the snapshot's own, at the components
  -- of the source. All the components are plain, so both stay in the target root, and neither path
  -- lies at or below the other. The digest is assumed to be hexadecimal digits.
  pub plan_extract_paths-IsLocated :
      (configured : Text) (req : ExtractRequest) (staging final : Text)
      → ((s : Text) → All (λ c. is_lower_hex c ≡ true) (sha256_hex s))
      → plan_extract_paths sha256_hex configured req ≡ ok (staging, final)
      → IsLocated sha256_hex configured req staging final
  plan_extract_paths-IsLocated configured req staging final hex h =
      let (g, at_staging, at_final) = plan-IsGuarded sha256_hex configured req staging final h in
      rw (at_staging, at_final) (located configured req hex g)
