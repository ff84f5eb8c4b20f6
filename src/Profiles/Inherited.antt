-- ===== src/Profiles/Inherited.antt =====
-- Where a key has its value from.
use resticscope.Prelude.{
  ◌≡◌, refl, ◌∙◌, arith, Option, none, some, [], ◌∷◌, Text, Assoc, lookup, lookup-insert,
}
use resticscope.Profiles.{Repo, copy_over, merge_string_maps, merge_repo_profile}

-- The first of two values that is there.
abbrev pub or_else : Option Text → Option Text → Option Text
or_else none w = w
or_else (some v) w = some v

copy_over-lookup :
    (k : Text) (out m : Assoc Text)
    → lookup k (copy_over out m) ≡ or_else (lookup k m) (lookup k out)
unfolding copy_over lookup
copy_over-lookup k out [] = refl
copy_over-lookup k out ((j, v) ∷ m) =
    ground (arith, copy_over-lookup k out m, lookup-insert j k v (copy_over out m))

or_else-none : (o : Option Text) → or_else o none ≡ o
or_else-none none = refl
or_else-none (some v) = refl

merge_string_maps-lookup :
    (k : Text) (base override : Assoc Text)
    → lookup k (merge_string_maps base override) ≡ or_else (lookup k override) (lookup k base)
unfolding merge_string_maps
merge_string_maps-lookup k base override =
    copy_over-lookup k (copy_over [] base) override
    ∙ rw (copy_over-lookup k [] base) (unfold lookup in rw (or_else-none (lookup k base)) refl)

-- In the merged settings each variable, option and label has the repository's value where it has
-- one and the profile's otherwise, and merging the profile in again changes none of them.
pub merge_repo_profile-lookup :
    (profile repo : Repo) (k : Text)
    → (lookup k (merge_repo_profile profile repo).env
        ≡ or_else (lookup k repo.env) (lookup k profile.env))
      × (lookup k (merge_repo_profile profile repo).options
          ≡ or_else (lookup k repo.options) (lookup k profile.options))
      × (lookup k (merge_repo_profile profile repo).labels
          ≡ or_else (lookup k repo.labels) (lookup k profile.labels))
      × (lookup k (merge_repo_profile profile (merge_repo_profile profile repo)).env
          ≡ lookup k (merge_repo_profile profile repo).env)
unfolding merge_repo_profile
merge_repo_profile-lookup profile repo k = (
  merge_string_maps-lookup k profile.env repo.env,
  merge_string_maps-lookup k profile.options repo.options,
  merge_string_maps-lookup k profile.labels repo.labels,
  merge_string_maps-lookup k profile.env (merge_string_maps profile.env repo.env)
      ∙ rw (merge_string_maps-lookup k profile.env repo.env)
          (again (lookup k repo.env) (lookup k profile.env)),
)
  where
    again : (o p : Option Text) → or_else (or_else o p) p ≡ or_else o p
    again none none = refl
    again none (some v) = refl
    again (some v) p = refl
