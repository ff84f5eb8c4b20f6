-- ===== src/BackendEnv/Examples.antt =====
-- A name of a backend's key.
use resticscope.Prelude.{◌≡◌, ◌↔◌, true, codes}
use resticscope.BackendEnv.{valid_backend_env_name}
use resticscope.BackendEnv.Names.{IsName, valid_backend_env_name-IsName}

valid_backend_env_name-IsName_example :
    (valid_backend_env_name (codes "B2_KEY") ≡ true) ↔ IsName (codes "B2_KEY")
valid_backend_env_name-IsName_example = valid_backend_env_name-IsName (codes "B2_KEY")
