-- ===== src/Snapshots/Examples.antt =====
-- Two snapshots of two hosts.
use resticscope.Prelude.{◌≡◌, ℕ, none, List, [], ◌∷◌, codes, Text}
use resticscope.Snapshots.{Snapshot, sort_snapshots_newest_first, latest_snapshot}
use resticscope.Snapshots.Order.{first_of, latest_snapshot-first}

abbrev taken : Text → ℕ → Text → List Text → Snapshot
taken id time host tags = record {
  id = id;
  short_id = id;
  time = time;
  hostname = host;
  tags = tags;
  program_version = codes "restic 0.17.0";
  tree = codes "t";
  paths = codes "/etc" ∷ [];
  summary = none;
}

abbrev snaps : List Snapshot
snaps =
    taken (codes "a") 5 (codes "web") (codes "daily" ∷ [])
    ∷ taken (codes "b") 7 (codes "db") (codes "daily" ∷ codes "sql" ∷ [])
    ∷ []

latest_snapshot-first_example : latest_snapshot snaps ≡ first_of (sort_snapshots_newest_first snaps)
latest_snapshot-first_example = latest_snapshot-first snaps
