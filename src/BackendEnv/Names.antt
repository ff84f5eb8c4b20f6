-- ===== src/BackendEnv/Names.antt =====
-- A valid name is a word of `[A-Za-z_][A-Za-z0-9_]*`.
use resticscope.Prelude.{ℕ, suc, ◌≡◌, ◌↔◌, refl, true, ◌||◌, [], ◌∷◌, Text, All, arith}
use resticscope.BackendEnv.{is_letter, is_digit, valid_from, valid_backend_env_name}

-- A word of the expression: a letter or `_`, then any number of letters, digits and `_`.
pub data IsName : Text → Type 0 where
  starts :
      {r : ℕ} {s : Text}
      → is_letter r ≡ true
      → All (λ c. is_letter c || is_digit c ≡ true) s
      → IsName (r ∷ s)

valid_from-All :
    (i : ℕ) (s : Text)
    → (valid_from (suc i) s ≡ true) ↔ All (λ c. is_letter c || is_digit c ≡ true) s
unfolding valid_from
valid_from-All i [] = ((λ h. tt), (λ h. refl))
valid_from-All i (r ∷ s) =
    let ih = valid_from-All (suc i) s in
    (
      (λ h. (ground arith, ih.0 (ground arith))),
      (λ h. let k = ih.1 h.1 in let l = h.0 in ground arith),
    )

-- A name is accepted exactly when it is a letter or an underscore followed by letters, digits and
-- underscores.
pub valid_backend_env_name-IsName : (s : Text) → (valid_backend_env_name s ≡ true) ↔ IsName s
unfolding valid_backend_env_name valid_from
valid_backend_env_name-IsName [] = ((λ h. cc), (λ n. elim n [ ]))
valid_backend_env_name-IsName (r ∷ s) = (to, from)
  where
    to : valid_backend_env_name (r ∷ s) ≡ true → IsName (r ∷ s)
    to h = starts (ground arith) ((valid_from-All 0 s).0 (ground arith))

    from : IsName (r ∷ s) → valid_backend_env_name (r ∷ s) ≡ true
    from (starts l a) = let k = (valid_from-All 0 s).1 a in ground arith
