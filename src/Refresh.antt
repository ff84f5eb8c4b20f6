-- ===== src/Refresh.antt =====
-- internal/app/refresh.go: one repository's refresh, its persistence and its row, and what
-- refreshing them all leaves in the cache.
pub mod History
pub mod Laws
mod Examples
use resticscope.Prelude.{
  ℕ, Text, ◌≡◌, Bool, true, false, Option, none, some, List, [], ◌∷◌, text_eq, length, ℤ, Result,
  ok, err, ◌++◌, if◌then◌else◌,
}
use resticscope.Status.{
  Status, error, StatusParams, RepoState, RepoStatus, evaluate_status, status_row,
}
use resticscope.Snapshots.{Snapshot, observed, latest_snapshot_time}

-- RepoState of internal/model/state.go: what the verdict reads, and the rest of the observation.
pub record CachedState : Type 0 where
  pub state : RepoState
  pub status : Status
  pub snapshot_count : ℕ
  pub snapshots : List Snapshot
  pub hosts : List Text
  pub tags : List Text
  pub restic_ver : Text

-- The error text of a failure, or the snapshots that restic lists. Secrets and restic are
-- parameters.
abbrev pub Answer : Type 0
Answer = Result Text (List Snapshot)

unfoldable pub refresh_failed : ℕ → StatusParams → Text → CachedState → Text → CachedState
unfolding evaluate_status
refresh_failed now params name prior msg =
    let state = record prior.state { name = name; last_error = msg } in
    record prior { state = state; status = evaluate_status now params state }

unfoldable pub observation : ℕ → Text → List Snapshot → RepoState
unfolding latest_snapshot_time
observation now name snaps = record {
  name = name;
  refreshed_at = now;
  last_snapshot = latest_snapshot_time snaps;
  locked_since = none;
  last_error = [];
}

unfoldable pub refresh_succeeded : ℕ → StatusParams → Text → List Snapshot → CachedState
unfolding observed observation evaluate_status
refresh_succeeded now params name snaps = record {
  state = observation now name snaps;
  status = evaluate_status now params (observation now name snaps);
  snapshot_count = length snaps;
  snapshots = snaps;
  hosts = (observed snaps).0;
  tags = (observed snaps).1;
  restic_ver = [];
}

unfoldable pub refresh_one :
    ℕ → StatusParams → Text → CachedState → Result Text (Unit {0}) → Answer → CachedState
unfolding refresh_failed refresh_succeeded
refresh_one now params name prior (err msg) listed = refresh_failed now params name prior msg
refresh_one now params name prior (ok u) (err msg) = refresh_failed now params name prior msg
refresh_one now params name prior (ok u) (ok snaps) = refresh_succeeded now params name snaps

-- The cache: the last state that was saved for each name. `saves` says whether saving works.
abbrev pub Cache : Type 0
Cache = List (Text × CachedState)

unfoldable pub load : Text → Cache → CachedState → CachedState
unfolding text_eq
load name [] missing = missing
load name ((n, s) ∷ cache) missing = if text_eq n name then s else load name cache missing

unfoldable pub save : Bool → Text → CachedState → Cache → Cache
save true name s cache = (name, s) ∷ cache
save false name s cache = cache

-- The zero value that a missing state loads as. Go's zero verdict is the empty text, which is none
-- of the verdicts; grey stands for it, and no refresh reads it.
abbrev pub no_state : CachedState
no_state = record {
  state = record {
    name = [];
    refreshed_at = 0;
    last_snapshot = 0;
    locked_since = none;
    last_error = [];
  };
  status = Status.grey;
  snapshot_count = 0;
  snapshots = [];
  hosts = [];
  tags = [];
  restic_ver = [];
}

-- A configured repository and what its refresh meets: the clock's reading, whether the caller has
-- cancelled before its turn, and the answers.
pub record RefreshTurn : Type 0 where
  pub name : Text
  pub params : StatusParams
  pub now : ℕ
  pub cancelled : Bool
  pub resolved : Result Text (Unit {0})
  pub listed : Answer
  pub saves : Bool

unfoldable pub refresh : RefreshTurn → Cache → Cache × (CachedState × Bool)
unfolding refresh_one load save
refresh r cache =
    let s = refresh_one r.now r.params r.name (load r.name cache no_state) r.resolved r.listed in
    (save r.saves r.name s cache, (s, r.saves))

unfoldable pub refresh_row : ℕ → ℤ → RefreshTurn → Cache → Cache × (RepoStatus × Bool)
unfolding refresh status_row
refresh_row now stale_after r cache =
    let (cache', (s, saved)) = refresh r cache in
    (cache', (status_row now r.name r.params s.state stale_after, saved))

-- `RefreshAll`, the goroutines in any order: `turns` is the order in
-- which they run to their end. One that finds the caller's context cancelled saves nothing. The slice
-- of the results and the joined errors are not modelled.
unfoldable pub refresh_all : List RefreshTurn → Cache → Cache
unfolding refresh
refresh_all [] cache = cache
refresh_all (r ∷ turns) cache =
    refresh_all turns (if r.cancelled then cache else (refresh r cache).0)
