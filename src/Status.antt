-- ===== src/Status.antt =====
-- Repository health: internal/model/status.go, the rows and exit code of internal/app/status.go, and
-- what they read of `RepoState` (internal/model/state.go).
--
-- A `time.Time` is the nanoseconds since Go's zero time, a `time.Duration` an integer; `Sub` is
-- clamped to the int64 range as in the time package, and a sum of durations wraps as int64 does.
pub mod Laws
pub mod Examples
use resticscope.Prelude.{
  ℕ, ◌+◌, ◌%◌, ◌^◌, ◌-◌, Bool, true, false, ◌&&◌, not, Option, none, some, List, [], ◌∷◌, Text,
  text_eq, ◌==◌, ltb, leb, ℤ, pos, negsuc, pos_part, neg_part, sub_ℕ, ◌+ℤ◌, ◌-ℤ◌, leb_ℤ, ltb_ℤ,
  if◌then◌else◌,
}

pub data Status : Type 0 where
  green amber red grey error : Status

pub record StatusParams : Type 0 where
  pub expected_frequency : ℤ
  pub stale_grace : ℤ
  pub lock_max_age : ℤ

pub record RepoState : Type 0 where
  pub name : Text
  pub refreshed_at : ℕ
  pub last_snapshot : ℕ
  pub locked_since : Option ℕ
  pub last_error : Text

unfoldable pub is_zero : ℕ → Bool
is_zero t = t == 0

unfoldable pub refreshed : RepoState → Bool
refreshed s = not (is_zero s.refreshed_at)

abbrev pub max_duration : ℕ
max_duration = 9223372036854775807

-- `t.Sub(u)`
unfoldable pub sub : ℕ → ℕ → ℤ
sub t u =
    let d = sub_ℕ t u in
    if ltb_ℤ (pos max_duration) d
    then pos max_duration
    else if ltb_ℤ d (negsuc max_duration)
    then negsuc max_duration
    else d

-- The value of an int64 sum.
unfoldable pub wrap : ℤ → ℤ
wrap (pos n) = let r = n % 2 ^ 64 in if leb r max_duration then pos r else negsuc (2 ^ 64 - r - 1)
wrap (negsuc n) =
    let r = n % 2 ^ 64 in if leb r max_duration then negsuc r else pos (2 ^ 64 - r - 1)

-- `s.LockedSince != nil && p.LockMaxAge > 0 && now.Sub(*s.LockedSince) > p.LockMaxAge`
unfoldable pub locked_too_long : ℕ → StatusParams → Option ℕ → Bool
locked_too_long now p none = false
locked_too_long now p (some since) =
    ltb_ℤ (pos 0) p.lock_max_age && ltb_ℤ p.lock_max_age (sub now since)

unfoldable pub status_of_age : StatusParams → ℤ → Status
status_of_age p age =
    if leb_ℤ age p.expected_frequency
    then green
    else if leb_ℤ age (wrap (p.expected_frequency +ℤ p.stale_grace))
    then amber
    else red

unfoldable pub evaluate_status : ℕ → StatusParams → RepoState → Status
evaluate_status now p s =
    if not (text_eq s.last_error [])
    then error
    else if not (refreshed s)
    then grey
    else if locked_too_long now p s.locked_since
    then red
    else if is_zero s.last_snapshot
    then red
    else status_of_age p (sub now s.last_snapshot)

pub record RepoStatus : Type 0 where
  pub name : Text
  pub status : Status
  pub state : RepoState
  pub stale : Bool

unfoldable pub status_row : ℕ → Text → StatusParams → RepoState → ℤ → RepoStatus
status_row now name params state stale_after = record {
  name = name;
  status = evaluate_status now params state;
  state = state;
  stale =
      refreshed state
      && (ltb_ℤ (pos 0) stale_after && ltb_ℤ stale_after (sub now state.refreshed_at));
}

-- `RowsFromStates`, with each repository's name and parameters.
unfoldable pub rows_from_states :
    ℕ → List (Text × StatusParams) → List RepoState → ℤ → List RepoStatus
rows_from_states now [] states stale_after = []
rows_from_states now (r ∷ repos) [] stale_after = []
rows_from_states now ((name, params) ∷ repos) (s ∷ states) stale_after =
    status_row now name params s stale_after ∷ rows_from_states now repos states stale_after

-- The loop of `WorstExitCode`, from the code so far.
unfoldable pub worst_from : ℕ → List RepoStatus → ℕ
worst_from code [] = code
worst_from code (r ∷ rows) =
    let amber_code = if ltb code 1 then 1 else code in
    let after_green = worst_from code rows in
    let after_amber = worst_from amber_code rows in
    elim r.status [ green ↦ after_green | amber ↦ after_amber | red ↦ 2 | error ↦ 2 | grey ↦ 2 ]

unfoldable pub worst_exit_code : List RepoStatus → ℕ
worst_exit_code rows = worst_from 0 rows
