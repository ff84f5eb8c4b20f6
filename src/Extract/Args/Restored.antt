-- ===== src/Extract/Args/Restored.antt =====
-- From a plan to the command line of restic.
use resticscope.Prelude.{
  ℕ, ◌+◌, Text, ◌≡◌, refl, ap, sym, ◌∙◌, subst, Bool, true, false, inl, inr, ◌⊎◌, not, ◌&&◌, List,
  [], ◌∷◌, ◌++◌, codes, arith, All, Bool-cases, Result, ok, err, ◌>>◌, require, require-ok, >>=-ok,
  text_eq, leb, length,
}
use resticscope.Paths.{root, render}
use resticscope.Paths.Clean.{render-starts}
use resticscope.Extract.{
  ExtractRequest, include_paths, is_lower_hex, byte_len, include_fits, includes_total,
  max_diff_extract_includes,
}
use resticscope.Extract.Plan.{
  check_includes, is_abs, ExtractTreeParams, extract_tree_params, plan_extract_paths,
}
use resticscope.Extract.Planned.{plan-IsGuarded}
use resticscope.Extract.Located.{plan_extract_paths-IsLocated}
use resticscope.Extract.Args.{
  ArgsError, argv_include_overflow, file_safe_pattern, literal_include_pattern, add_includes,
  with_includes, with_file, base_args, clean_snapshot_id, clean_source, check_include_paths,
  build_extract_tree_args, max_argv_include_bytes, argv_include_flag_overhead,
}
use resticscope.Extract.Args.Accepted.{includes_total-All, snapshot_id-accepted}
use resticscope.Extract.Args.Composed.{extract_tree_params-PassesOn}

-- The command line is built, or it would be too long.
abbrev pub BuildsOrOverflows : {A : Type 0} → Result ArgsError A → Type 0
BuildsOrOverflows {A = A} m = (m ≡ err argv_include_overflow) ⊎ ((a : A) × (m ≡ ok a))

module _ (is_space : ℕ → Bool) where
  add_includes-ends :
      (args : List Text) (bytes : ℕ) (file : Text) (incs : List Text)
      → BuildsOrOverflows (add_includes is_space args bytes file incs)
  unfolding add_includes
  add_includes-ends args bytes file [] = inr (_, refl)
  add_includes-ends args bytes file (inc ∷ incs) =
      elim (Bool-cases (file_safe_pattern is_space inc)) [
        | inl e ↦
            rw (e, add_includes)
              (add_includes-ends args bytes (file ++ (literal_include_pattern inc ++ b'\n' ∷ []))
                incs)
        | inr e ↦
            rw (e, add_includes)
              (step
                (leb (bytes + (byte_len (literal_include_pattern inc) + argv_include_flag_overhead))
                  max_argv_include_bytes)
                _
                (add_includes-ends (args ++ codes "--include" ∷ literal_include_pattern inc ∷ [])
                  (bytes + (byte_len (literal_include_pattern inc) + argv_include_flag_overhead))
                  file incs))
      ]
    where
      step :
          (b : Bool) (m : Result ArgsError (List Text × Text))
          → BuildsOrOverflows m
          → BuildsOrOverflows (require argv_include_overflow b >> m)
      step true m h = h
      step false m h = inl refl

  with_includes-ends :
      (args incs : List Text) → BuildsOrOverflows (with_includes is_space args incs)
  unfolding with_includes
  with_includes-ends args [] = inr (_, refl)
  with_includes-ends args (inc ∷ []) = inr (_, refl)
  with_includes-ends args (inc ∷ inc' ∷ incs) =
      elim (add_includes-ends args 0 [] (inc ∷ inc' ∷ incs)) [
        | inl e ↦ inl (rw e refl)
        | inr ((args', file), e) ↦ inr (with_file args' file, rw e refl)
      ]

  build-ends :
      (p : ExtractTreeParams)
      → clean_snapshot_id p.snapshot_id ≡ true
      → clean_source p.source ≡ true
      → check_include_paths p.include_paths ≡ ok tt
      → (not (text_eq p.target []) && is_abs p.target) ≡ true
      → BuildsOrOverflows (build_extract_tree_args is_space p)
  unfolding build_extract_tree_args
  build-ends p a b c d = rw (a, b, c, d) (with_includes-ends (base_args p) p.include_paths)

check_includes-All :
    (req : ExtractRequest)
    → check_includes req ≡ ok tt
    → All (λ p. include_fits req.source p ≡ true) req.include_paths
unfolding check_includes
check_includes-All req h =
    let (_, k) =
      require-ok include_paths (leb (length req.include_paths) max_diff_extract_includes) _ h in
    let (n, total, _) = >>=-ok (includes_total req.source 0 req.include_paths) _ k in
    includes_total-All req.source 0 req.include_paths total

pub params_lem :
    (req : ExtractRequest) (staging : Text)
    → ((extract_tree_params req staging).snapshot_id ≡ req.snapshot_id)
      × ((extract_tree_params req staging).target ≡ staging)
unfolding extract_tree_params
params_lem req staging = elim (Bool-cases (text_eq req.source root)) [
  | inl e ↦ rw e (refl, refl)
  | inr e ↦ rw e (refl, refl)
]

rendered-absolute : (cs : List Text) → (not (text_eq (render cs) []) && is_abs (render cs)) ≡ true
unfolding is_abs
rendered-absolute cs = ground (arith, render-starts cs)

-- Where a plan is made, the parameters that are made of the request and the staging path pass every
-- assertion on the snapshot, the source, the include paths and the target: the command line is
-- built, or it is refused for the length of the include paths alone.
pub plan_extract_paths-build_extract_tree_args :
    (is_space : ℕ → Bool) (sha256_hex : Text → Text) (configured : Text) (req : ExtractRequest)
    (staging final : Text)
    → ((s : Text) → All (λ c. is_lower_hex c ≡ true) (sha256_hex s))
    → plan_extract_paths sha256_hex configured req ≡ ok (staging, final)
    → BuildsOrOverflows (build_extract_tree_args is_space (extract_tree_params req staging))
plan_extract_paths-build_extract_tree_args is_space sha256_hex configured req staging final hex h =
    let (g, _, _) = plan-IsGuarded sha256_hex configured req staging final h in
    let at = plan_extract_paths-IsLocated sha256_hex configured req staging final hex h in
    let (id, target) = params_lem req staging in
    let (source, includes) =
      extract_tree_params-PassesOn req staging g.no_zero g.clean
        (check_includes-All req g.includes) in
    build-ends is_space (extract_tree_params req staging)
      (ap clean_snapshot_id id ∙ snapshot_id-accepted req.snapshot_id g.id) source includes
      (rw target (
        subst (λ t. (not (text_eq t []) && is_abs t) ≡ true) (sym at.staging_at)
          (rendered-absolute _)))
