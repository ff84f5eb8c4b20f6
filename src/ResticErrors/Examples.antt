-- ===== src/ResticErrors/Examples.antt =====
-- A locked repository, a restore with an unknown message, and a cancelled helper.
use resticscope.Prelude.{◌≡◌, ◌↔◌, true, false, Option, none, List, [], ◌∷◌, codes, All}
use resticscope.ResticErrors.{
  Error, locked, live, Line, message, consume, new_stream, restored, restore_end, RunErr, CtxErr,
}
use resticscope.ResticErrors.Kinds.{fine, restore_end-restored}
use resticscope.ResticErrors.Codes.{
  Chain, nothing, code_canceled, helper_err_code, helper_sentinel_error,
  helper_err_code-helper_sentinel_error,
}

abbrev locked_error : Error
locked_error = record {
  kind = locked;
  op = codes "snapshots";
  code = 11;
  stderr = codes "repository is already locked";
  wrapped = codes "exit status 11";
}

abbrev stream : List Line
stream = message (codes "status") true ∷ message (codes "later") false ∷ []

restore_end-restored_example :
    (restore_end none live (consume new_stream stream) none [] [] ≡ restored) ↔ (
      (◌≡◌ {A = CtxErr} live live)
      × (◌≡◌ {A = Option RunErr} none none)
      × All (λ l. fine l ≡ true) stream)
restore_end-restored_example = restore_end-restored none live stream none [] []

abbrev timed_out : Chain
timed_out = record nothing { deadline = true; rename_failed = true }

helper_err_code-helper_sentinel_error_example :
    (helper_err_code (helper_sentinel_error code_canceled) ≡ code_canceled)
    × (((helper_sentinel_error (helper_err_code timed_out)).canceled ≡ true)
        ↔ (timed_out.canceled ≡ true))
    × (((helper_sentinel_error (helper_err_code timed_out)).deadline ≡ true)
        ↔ ((timed_out.canceled ≡ false) × (timed_out.deadline ≡ true)))
    × (((helper_sentinel_error (helper_err_code timed_out)).staging_exists ≡ true) ↔ (
        (timed_out.canceled ≡ false)
        × (timed_out.deadline ≡ false)
        × (timed_out.staging_exists ≡ true)))
helper_err_code-helper_sentinel_error_example =
    helper_err_code-helper_sentinel_error timed_out code_canceled
