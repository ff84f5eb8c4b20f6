-- ===== src/Refresh/Examples.antt =====
-- A listing that succeeds, and one that restic cannot make.
use resticscope.Prelude.{◌≡◌, refl, true, false, none, [], ◌∷◌, codes, text_eq, ok, err, pos}
use resticscope.Status.{StatusParams}
use resticscope.Snapshots.{Snapshot}
use resticscope.Refresh.{RefreshTurn, no_state, refresh_all, load}
use resticscope.Refresh.Laws.{after_refresh, refresh_all-each}

abbrev params : StatusParams
params = record { expected_frequency = pos 0; stale_grace = pos 0; lock_max_age = pos 0 }

abbrev locked_repo : RefreshTurn
locked_repo = record {
  name = codes "home";
  params = params;
  now = 2000;
  cancelled = false;
  resolved = ok tt;
  listed = err (codes "repository is locked");
  saves = true;
}

abbrev snapshot : Snapshot
snapshot = record {
  id = codes "89abcdef";
  short_id = codes "89";
  time = 1000;
  hostname = codes "host";
  tags = [];
  program_version = [];
  tree = [];
  paths = [];
  summary = none;
}

abbrev listed_repo : RefreshTurn
listed_repo = record {
  name = codes "work";
  params = params;
  now = 2000;
  cancelled = false;
  resolved = ok tt;
  listed = ok (snapshot ∷ []);
  saves = true;
}

apart : text_eq (codes "home") (codes "work") ≡ false
unfolding text_eq
apart = refl

refresh_all-each_example :
    load (codes "work") (refresh_all (locked_repo ∷ listed_repo ∷ []) []) no_state
    ≡ after_refresh listed_repo (load (codes "work") [] no_state)
refresh_all-each_example = refresh_all-each (locked_repo ∷ []) listed_repo [] [] (apart, tt) tt
