-- ===== src/Prune/Examples.antt =====
-- Two caches, one of a configured repository.
use resticscope.Prelude.{true, false, some, [], ◌∷◌, codes}
use resticscope.Prune.{DirEntry, prune_entries}
use resticscope.Prune.Laws.{IsPruneRun, prune_entries-IsPruneRun}

abbrev old_cache : DirEntry
old_cache = record {
  name = codes "old";
  is_dir = true;
  cancelled = false;
  size = some 500;
  removes = true;
}

abbrev home_cache : DirEntry
home_cache = record old_cache { name = codes "my_home" }

prune_entries-IsPruneRun_example :
    IsPruneRun
      (codes "my home" ∷ [])
      false
      false
      (old_cache ∷ home_cache ∷ [])
      (prune_entries (codes "my home" ∷ []) false false (old_cache ∷ home_cache ∷ []))
prune_entries-IsPruneRun_example =
    prune_entries-IsPruneRun (codes "my home" ∷ []) false false (old_cache ∷ home_cache ∷ [])
