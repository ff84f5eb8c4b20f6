-- ===== src/Extract/Planned.antt =====
-- Where a plan puts the staging directory and the final path.
use resticscope.Prelude.{
  Text, ◌≡◌, true, false, ◌||◌, not, [], text_eq, arith, some, ok, or_fail, >>=-ok, require-ok,
  or_fail-ok,
}
use resticscope.Paths.{clean_browse_path, join_rooted}
use resticscope.Extract.{
  repo, ExtractRequest, is_snapshot_short, is_snapshot_id, container_names, contains_rune,
}
use resticscope.Extract.Slug.{sanitize_extract_slug}
use resticscope.Extract.Plan.{
  check_snapshot, check_container, check_source, check_includes, want_name, check_source_name,
  chosen_root, final_path_in, staging_path, plan_extract_paths,
}

-- What the guards let through.
pub record IsGuarded (configured : Text) (req : ExtractRequest) : Type 0 where
  pub slug : Text
  pub slug_of_repo : sanitize_extract_slug req.repo ≡ some slug
  pub chosen : Text
  pub chosen_is : chosen_root configured req ≡ ok chosen
  pub short : is_snapshot_short req.snapshot_short ≡ true
  pub id : is_snapshot_id req.snapshot_id ≡ true
  pub container :
      (text_eq req.diff_container [] || container_names req.diff_container req.snapshot_short)
      ≡ true
  pub no_zero : contains_rune 0 req.source ≡ false
  pub clean : text_eq req.source (clean_browse_path req.source) ≡ true
  pub includes : check_includes req ≡ ok tt
  pub name_no_slash : contains_rune b'/' req.source_name ≡ false

check_snapshot-names :
    (req : ExtractRequest)
    → check_snapshot req ≡ ok tt
    → (is_snapshot_short req.snapshot_short ≡ true) × (is_snapshot_id req.snapshot_id ≡ true)
unfolding check_snapshot
check_snapshot-names req h = ground arith

check_container-names :
    (req : ExtractRequest)
    → check_container req ≡ ok tt
    → (text_eq req.diff_container [] || container_names req.diff_container req.snapshot_short)
      ≡ true
unfolding check_container
check_container-names req h = ground arith

check_source-clean :
    (req : ExtractRequest)
    → check_source req ≡ ok tt
    → (contains_rune 0 req.source ≡ false)
      × (text_eq req.source (clean_browse_path req.source) ≡ true)
unfolding check_source
check_source-clean req h = ground arith

check_source_name-no_slash :
    (req : ExtractRequest) (want : Text)
    → check_source_name req want ≡ ok tt
    → contains_rune b'/' req.source_name ≡ false
unfolding check_source_name
check_source_name-no_slash req want h = ground arith

module _ (sha256_hex : Text → Text) where
  pub plan-IsGuarded :
      (configured : Text) (req : ExtractRequest) (staging final : Text)
      → plan_extract_paths sha256_hex configured req ≡ ok (staging, final)
      → (g : IsGuarded configured req) × (staging
          ≡ staging_path sha256_hex (join_rooted g.chosen g.slug) req)
        × (final ≡ final_path_in (join_rooted g.chosen g.slug) req)
  unfolding plan_extract_paths
  plan-IsGuarded configured req staging final h =
      let (_, h1) = require-ok repo (not (text_eq req.repo [])) _ h in
      let (slug, is_slug, h2) = >>=-ok (or_fail repo (sanitize_extract_slug req.repo)) _ h1 in
      let (_, is_snapshot, h3) = >>=-ok (check_snapshot req) _ h2 in
      let (_, is_container, h4) = >>=-ok (check_container req) _ h3 in
      let (_, is_source, h5) = >>=-ok (check_source req) _ h4 in
      let (_, is_includes, h6) = >>=-ok (check_includes req) _ h5 in
      let (want, _, h7) = >>=-ok (want_name req) _ h6 in
      let (_, is_name, h8) = >>=-ok (check_source_name req want) _ h7 in
      let (chosen, is_chosen, h9) = >>=-ok (chosen_root configured req) _ h8 in
      (
        record {
          slug = slug;
          slug_of_repo = or_fail-ok _ _ is_slug;
          chosen = chosen;
          chosen_is = is_chosen;
          short = (check_snapshot-names req is_snapshot).0;
          id = (check_snapshot-names req is_snapshot).1;
          container = check_container-names req is_container;
          no_zero = (check_source-clean req is_source).0;
          clean = (check_source-clean req is_source).1;
          includes = is_includes;
          name_no_slash = check_source_name-no_slash req want is_name;
        },
        cc,
        cc,
      )
