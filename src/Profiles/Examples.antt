-- ===== src/Profiles/Examples.antt =====
-- A repository with one variable of its own.
use resticscope.Prelude.{◌≡◌, [], ◌∷◌, codes, Text, lookup}
use resticscope.Profiles.{Repo, merge_repo_profile}
use resticscope.Profiles.Inherited.{or_else, merge_repo_profile-lookup}

abbrev settings : Text → Text → Repo
settings name user = record {
  name = name;
  profile = codes "b2";
  credential = [];
  url = [];
  env = (codes "USER", user) ∷ [];
  options = [];
  endpoint = [];
  region = [];
  bucket = [];
  path = [];
  bucket_lookup = [];
  expected_frequency = 0;
  labels = [];
}

merge_repo_profile-lookup_example :
    (lookup
        (codes "USER")
        (merge_repo_profile (settings [] (codes "x")) (settings (codes "home") (codes "y"))).env
      ≡ or_else
          (lookup (codes "USER") (settings (codes "home") (codes "y")).env)
          (lookup (codes "USER") (settings [] (codes "x")).env))
    × (lookup
          (codes "USER")
          (merge_repo_profile
            (settings [] (codes "x"))
            (settings (codes "home") (codes "y"))).options
        ≡ or_else (lookup (codes "USER") []) (lookup (codes "USER") []))
    × (lookup
          (codes "USER")
          (merge_repo_profile
            (settings [] (codes "x"))
            (settings (codes "home") (codes "y"))).labels
        ≡ or_else (lookup (codes "USER") []) (lookup (codes "USER") []))
    × (lookup
          (codes "USER")
          (merge_repo_profile (settings [] (codes "x")) (
            merge_repo_profile (settings [] (codes "x")) (settings (codes "home") (codes "y")))).env
        ≡ lookup
            (codes "USER")
            (merge_repo_profile
              (settings [] (codes "x"))
              (settings (codes "home") (codes "y"))).env)
merge_repo_profile-lookup_example =
    merge_repo_profile-lookup (settings [] (codes "x")) (settings (codes "home") (codes "y"))
      (codes "USER")
