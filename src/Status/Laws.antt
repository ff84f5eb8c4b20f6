-- ===== src/Status/Laws.antt =====
-- How a status ages, and the exit code as the worst of the rows.
use resticscope.Prelude.{
  ℕ, ◌+◌, ◌≤◌, ◌≡◌, ◌∙◌, max, true, Option, none, some, List, [], ◌∷◌, ltb, ℤ, pos, ◌≤ℤ◌,
  if◌then◌else◌, arith,
}
use resticscope.Status.{
  Status, green, amber, red, grey, error, StatusParams, RepoState, RepoStatus, max_duration, sub,
  locked_too_long, status_of_age, evaluate_status, worst_from, worst_exit_code,
}

-- The exit code of one status.
abbrev pub exit_code : Status → ℕ
exit_code green = 0
exit_code amber = 1
exit_code red = 2
exit_code grey = 2
exit_code error = 2

-- The largest of the rows' exit codes.
abbrev pub worst : List RepoStatus → ℕ
worst [] = 0
worst (r ∷ rows) = max (exit_code r.status) (worst rows)

exit_code-bound : (s : Status) → exit_code s ≤ 2
exit_code-bound s = ground arith

worst-bound : (rows : List RepoStatus) → worst rows ≤ 2
worst-bound [] = omega arith
worst-bound (r ∷ rows) = omega (arith, exit_code-bound r.status, worst-bound rows)

worst_from-worst :
    (rows : List RepoStatus) (code : ℕ) → code ≤ 2 → worst_from code rows ≡ max code (worst rows)
unfolding worst_from
worst_from-worst [] code h = omega arith
worst_from-worst (r ∷ rows) code h = ground (
  arith,
  worst-bound rows,
  worst_from-worst rows code h,
  worst_from-worst rows (if ltb code 1 then 1 else code),
)

-- The exit code is the largest of the exit codes of the rows, so it does not depend on their order.
pub worst_exit_code-worst : (rows : List RepoStatus) → worst_exit_code rows ≡ worst rows
unfolding worst_exit_code
worst_exit_code-worst rows = worst_from-worst rows 0 (omega arith) ∙ omega arith

sub_mono : (now later t : ℕ) → now ≤ later → sub now t ≤ℤ sub later t
unfolding sub
sub_mono now later t h = ground arith

-- How bad a status is: green is less than amber, amber less than red.
abbrev pub severity : Status → ℕ
severity green = 0
severity amber = 1
severity red = 2
severity grey = 3
severity error = 3

-- Durations that are not negative and whose sum is an int64.
pub record IsModest (p : StatusParams) : Type 0 where
  pub frequency : ℕ
  pub grace : ℕ
  pub frequency_is : p.expected_frequency ≡ pos frequency
  pub grace_is : p.stale_grace ≡ pos grace
  pub fits : frequency + grace ≤ max_duration

status_of_age_mono :
    (p : StatusParams) (a b : ℤ)
    → a ≤ℤ b
    → severity (status_of_age p a) ≤ severity (status_of_age p b)
unfolding status_of_age
status_of_age_mono p a b h = ground arith

locked_too_long_mono :
    (now later : ℕ) (p : StatusParams) (l : Option ℕ)
    → now ≤ later
    → locked_too_long now p l ≡ true
    → locked_too_long later p l ≡ true
unfolding locked_too_long
locked_too_long_mono now later p none h k = k
locked_too_long_mono now later p (some t) h k = ground (arith, sub_mono now later t h)

-- While a repository is not refreshed its status only gets worse: at a later time it is at least as
-- bad as before, whatever the thresholds.
pub evaluate_status_mono :
    (now later : ℕ) (p : StatusParams) (s : RepoState)
    → now ≤ later
    → severity (evaluate_status now p s) ≤ severity (evaluate_status later p s)
unfolding evaluate_status
evaluate_status_mono now later p s h = ground (
  arith,
  locked_too_long_mono now later p s.locked_since h,
  status_of_age_mono p (sub now s.last_snapshot) (sub later s.last_snapshot)
      (sub_mono now later s.last_snapshot h),
  worst_of_age p (sub now s.last_snapshot),
)
  where
    worst_of_age : (p : StatusParams) (a : ℤ) → severity (status_of_age p a) ≤ 2
    worst_of_age p a = unfold status_of_age in ground arith
