-- ===== src/Status/Examples.antt =====
-- Statuses at concrete inputs: a daily backup with six hours of grace.
use resticscope.Prelude.{◌≡◌, ◌≤◌, refl, ℕ, arith, pos, none, List, [], ◌∷◌, codes, text_eq, ◌+ℤ◌}
use resticscope.Status.{
  StatusParams, RepoState, RepoStatus, amber, evaluate_status, worst_exit_code, status_row, sub,
  refreshed, is_zero, locked_too_long, status_of_age, wrap,
}
use resticscope.Status.Laws.{severity, worst, worst_exit_code-worst, evaluate_status_mono}

abbrev hour : ℕ
hour = 3600000000000

abbrev daily : StatusParams
daily = record {
  expected_frequency = pos 86400000000000;
  stale_grace = pos 21600000000000;
  lock_max_age = pos 0;
}

abbrev backed_up : RepoState
backed_up = record {
  name = codes "home";
  refreshed_at = 1000000000000000;
  last_snapshot = 1000000000000000;
  locked_since = none;
  last_error = [];
}

evaluate_status_mono_example :
    severity (evaluate_status 1000000000000000 daily backed_up)
    ≤ severity (evaluate_status 1090000000000000 daily backed_up)
evaluate_status_mono_example =
    evaluate_status_mono 1000000000000000 1090000000000000 daily backed_up (omega arith)

-- After a day and an hour the grace runs.
in_grace : evaluate_status 1090000000000000 daily backed_up ≡ amber
unfolding evaluate_status text_eq refreshed is_zero locked_too_long status_of_age sub wrap ◌+ℤ◌
in_grace = refl

abbrev rows : List RepoStatus
rows =
    status_row 1000000000000000 (codes "home") daily backed_up (pos 0)
    ∷ status_row 1090000000000000 (codes "home") daily backed_up (pos 0)
    ∷ []

worst_exit_code-worst_example : worst_exit_code rows ≡ worst rows
worst_exit_code-worst_example = worst_exit_code-worst rows
