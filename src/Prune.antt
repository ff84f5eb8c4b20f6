-- ===== src/Prune.antt =====
-- internal/app/prune.go: which of restic's caches are removed, and RepoCacheName of
-- internal/resticx/resticx.go.
pub mod Laws
mod Examples
use resticscope.Prelude.{
  ℕ, ◌+◌, Text, Bool, true, false, ◌&&◌, ◌||◌, not, Option, none, some, List, [], ◌∷◌, ◌++◌,
  text_eq, leb, ◌==◌, if◌then◌else◌, Result, ok, err,
}

-- `sanitize`
unfoldable pub cache_name_char : ℕ → ℕ
cache_name_char r =
    if (leb b'a' r && leb r b'z')
      || (leb b'A' r && leb r b'Z')
      || (leb b'0' r && leb r b'9')
      || r == b'-'
      || r == b'_'
      || r == b'.'
    then r
    else b'_'

unfoldable pub repo_cache_name : Text → Text
unfolding cache_name_char
repo_cache_name [] = []
repo_cache_name (r ∷ name) = cache_name_char r ∷ repo_cache_name name

-- `known[name]`, from the configured repositories.
unfoldable pub is_known_cache : List Text → Text → Bool
unfolding text_eq repo_cache_name
is_known_cache [] name = false
is_known_cache (r ∷ repos) name = text_eq (repo_cache_name r) name || is_known_cache repos name

pub record CacheEntry : Type 0 where
  pub name : Text
  pub size : ℕ
  pub is_orphan : Bool
  pub is_pruned : Bool

-- An entry of the cache directory with what the system answers of it: whether the caller has
-- cancelled, its size, and whether its removal works.
pub record DirEntry : Type 0 where
  pub name : Text
  pub is_dir : Bool
  pub cancelled : Bool
  pub size : Option ℕ
  pub removes : Bool

pub data PruneError : Type 0 where
  prune_cancelled size_failed remove_failed : PruneError

-- The entries so far, the bytes freed, and the names that were removed from the disk.
pub record PruneRun : Type 0 where
  pub entries : List CacheEntry
  pub freed : ℕ
  pub removed : List Text
  pub error : Option PruneError

unfoldable pub pruned : List CacheEntry → ℕ
pruned [] = 0
pruned (e ∷ es) = if e.is_pruned then 1 + pruned es else pruned es

module _ (repos : List Text) (all dry_run : Bool) where
  abbrev pub entry_of : DirEntry → ℕ → CacheEntry
  entry_of de size = record {
    name = de.name;
    size = size;
    is_orphan = not (is_known_cache repos de.name);
    is_pruned = all || not (is_known_cache repos de.name);
  }

  abbrev pub done : CacheEntry → PruneRun → PruneRun
  done e run = record run {
    entries = e ∷ run.entries;
    freed = if e.is_pruned then e.size + run.freed else run.freed;
    removed = if e.is_pruned && not dry_run then e.name ∷ run.removed else run.removed;
  }

  abbrev failed : PruneError → PruneRun
  failed e = record { entries = []; freed = 0; removed = []; error = some e }

  -- The loop over the directory; what a later error leaves of the result is kept.
  unfoldable pub prune_entries : List DirEntry → PruneRun
  unfolding is_known_cache
  prune_entries [] = record { entries = []; freed = 0; removed = []; error = none }
  prune_entries (de ∷ des) =
      let rest = prune_entries des in
      if de.cancelled
      then failed prune_cancelled
      else if not de.is_dir
      then rest
      else elim de.size [
        | none ↦ failed size_failed
        | some size ↦
            if (all || not (is_known_cache repos de.name)) && not dry_run && not de.removes
            then failed remove_failed
            else done (entry_of de size) rest
      ]
