-- ===== src/BackendEnv.antt =====
-- Names of backend environment variables: internal/model/backendenv.go. A name is its code points.
pub mod Names
pub mod Examples
use resticscope.Prelude.{
  ℕ, suc, Bool, true, false, ◌&&◌, ◌||◌, not, List, [], ◌∷◌, Text, codes, text_eq, has_prefix, leb,
  ◌==◌, if◌then◌else◌,
}

abbrev pub reserved_backend_env_names : List Text
reserved_backend_env_names =
    codes "PATH"
    ∷ codes "HOME"
    ∷ codes "RESTIC_REPOSITORY"
    ∷ codes "RESTIC_REPOSITORY_FILE"
    ∷ codes "RESTIC_PASSWORD"
    ∷ codes "RESTIC_PASSWORD_FILE"
    ∷ codes "RESTIC_PASSWORD_COMMAND"
    ∷ codes "RESTIC_CACHE_DIR"
    ∷ []

abbrev pub reserved_backend_env_prefixes : List Text
reserved_backend_env_prefixes = codes "LD_" ∷ codes "DYLD_" ∷ []

unfoldable pub among : Text → List Text → Bool
among name [] = false
among name (r ∷ reserved) = text_eq r name || among name reserved

unfoldable pub has_any_prefix : Text → List Text → Bool
has_any_prefix name [] = false
has_any_prefix name (p ∷ prefixes) = has_prefix name p || has_any_prefix name prefixes

unfoldable pub reserved_backend_env_name : Text → Bool
reserved_backend_env_name name =
    among name reserved_backend_env_names || has_any_prefix name reserved_backend_env_prefixes

unfoldable pub is_letter : ℕ → Bool
is_letter r = r == b'_' || ((leb b'A' r && leb r b'Z') || (leb b'a' r && leb r b'z'))

unfoldable pub is_digit : ℕ → Bool
is_digit r = leb b'0' r && leb r b'9'

-- The loop of `ValidBackendEnvName`, from an index.
unfoldable pub valid_from : ℕ → Text → Bool
valid_from i [] = true
valid_from i (r ∷ name) =
    let rest = valid_from (suc i) name in
    if is_letter r then rest else if is_digit r then (if i == 0 then false else rest) else false

unfoldable pub valid_backend_env_name : Text → Bool
valid_backend_env_name [] = false
valid_backend_env_name (r ∷ name) = valid_from 0 (r ∷ name)
