-- ===== src/Profiles.antt =====
-- Settings that a repository inherits from a profile: `mergeRepoProfile` and `mergeStringMaps` of
-- internal/config/profiles.go.
pub mod Inherited
pub mod Examples
use resticscope.Prelude.{ℕ, Bool, List, [], ◌∷◌, Text, text_eq, Assoc, insert, ◌==◌, if◌then◌else◌}

pub record Repo : Type 0 where
  pub name : Text
  pub profile : Text
  pub credential : Text
  pub url : Text
  pub env : Assoc Text
  pub options : Assoc Text
  pub endpoint : Text
  pub region : Text
  pub bucket : Text
  pub path : Text
  pub bucket_lookup : Text
  pub expected_frequency : ℕ
  pub labels : Assoc Text

-- `maps.Copy`; a Go map has each key once, so that the order of the writes does not matter.
unfoldable pub copy_over : Assoc Text → Assoc Text → Assoc Text
copy_over out [] = out
copy_over out ((k, v) ∷ m) = insert k v (copy_over out m)

-- A nil map and an empty one are the same list.
unfoldable pub merge_string_maps : Assoc Text → Assoc Text → Assoc Text
merge_string_maps base override = copy_over (copy_over [] base) override

unfoldable pub own_or : Text → Text → Text
own_or own inherited = if text_eq own [] then inherited else own

unfoldable pub merge_repo_profile : Repo → Repo → Repo
merge_repo_profile profile repo = record {
  name = repo.name;
  profile = repo.profile;
  credential = own_or repo.credential profile.credential;
  url = own_or repo.url profile.url;
  env = merge_string_maps profile.env repo.env;
  options = merge_string_maps profile.options repo.options;
  endpoint = own_or repo.endpoint profile.endpoint;
  region = own_or repo.region profile.region;
  bucket = own_or repo.bucket profile.bucket;
  path = own_or repo.path profile.path;
  bucket_lookup = own_or repo.bucket_lookup profile.bucket_lookup;
  expected_frequency =
      if repo.expected_frequency == 0 then profile.expected_frequency else repo.expected_frequency;
  labels = merge_string_maps profile.labels repo.labels;
}
