-- ===== src/Refresh/History.antt =====
-- What a sequence of refreshes, internal/app/refresh.go, leaves: a failure keeps the last observation.
use resticscope.Prelude.{ℕ, Text, ◌≡◌, none, List, [], ◌∷◌, ◌⊎◌, length, ok, err}
use resticscope.Status.{evaluate_status}
use resticscope.Snapshots.{Snapshot, observed, latest_snapshot_time}
use resticscope.Refresh.{CachedState, RefreshTurn, refresh_one}

-- The observation of a state: all but the name, the error and the verdict.
abbrev pub SameObservation : CachedState → CachedState → Type 0
SameObservation s t =
    (s.snapshots ≡ t.snapshots)
    × (s.snapshot_count ≡ t.snapshot_count)
    × (s.hosts ≡ t.hosts)
    × (s.tags ≡ t.tags)
    × (s.restic_ver ≡ t.restic_ver)
    × (s.state.refreshed_at ≡ t.state.refreshed_at)
    × (s.state.last_snapshot ≡ t.state.last_snapshot)
    × (s.state.locked_since ≡ t.state.locked_since)

-- What a state holds of a listing that came at the time `now`.
abbrev pub Observes : ℕ → List Snapshot → CachedState → Type 0
Observes now snaps s =
    (s.snapshots ≡ snaps)
    × (s.snapshot_count ≡ length snaps)
    × ((s.hosts, s.tags) ≡ observed snaps)
    × (s.restic_ver ≡ [])
    × (s.state.refreshed_at ≡ now)
    × (s.state.last_snapshot ≡ latest_snapshot_time snaps)
    × (s.state.locked_since ≡ none)

-- The verdict of a state is the one that its own fields give at its last refresh, whose error it has.
abbrev pub IsJudgedAt : RefreshTurn → Text → CachedState → Type 0
IsJudgedAt r msg s =
    (s.state.name ≡ r.name)
    × (s.state.last_error ≡ msg)
    × (s.status ≡ evaluate_status r.now r.params s.state)

-- A refresh whose secrets or whose restic fail, with the text of the first error.
abbrev pub FailsWith : RefreshTurn → Text → Type 0
FailsWith r msg = (r.resolved ≡ err msg) ⊎ ((r.resolved ≡ ok tt) × (r.listed ≡ err msg))

abbrev pub Fails : RefreshTurn → Type 0
Fails r = (msg : Text) × FailsWith r msg

-- Refreshes one behind the other, each with the state that the one before it left.
abbrev pub refreshes : List RefreshTurn → CachedState → CachedState
refreshes [] s = s
refreshes (r ∷ rs) s = refreshes rs (refresh_one r.now r.params r.name s r.resolved r.listed)

-- The verdict of a state is that of the last refresh: of `r`, which left the error `msg`, or of the
-- last failure behind it.
abbrev pub IsJudgedLast : RefreshTurn → Text → List RefreshTurn → CachedState → Type 0
IsJudgedLast r msg [] s = IsJudgedAt r msg s
IsJudgedLast r msg (q ∷ rs) s = (m : Text) × FailsWith q m × IsJudgedLast q m rs s
