-- ===== src/Prune/Laws.antt =====
-- What pruning removes and what it counts.
use resticscope.Prelude.{
  ℕ, ◌+◌, ◌≤◌, ◌↔◌, ◌⊎◌, Any, here, there, text_eq, arith, Text, ◌≡◌, refl, ap, Bool, true, false,
  ◌&&◌, ◌||◌, not, Option, none, some, List, [], ◌∷◌, if◌then◌else◌, Bool-cases, Option-cases, inl,
  inr,
}
use resticscope.Prune.{
  CacheEntry, DirEntry, PruneRun, PruneError, prune_cancelled, size_failed, remove_failed, entry_of,
  done, is_known_cache, prune_entries, cache_name_char, repo_cache_name,
}

-- The names of the selected entries, and their bytes.
abbrev pub selected : List CacheEntry → List Text
selected [] = []
selected (e ∷ es) = if e.is_pruned then e.name ∷ selected es else selected es

abbrev pub selected_bytes : List CacheEntry → ℕ
selected_bytes [] = 0
selected_bytes (e ∷ es) = if e.is_pruned then e.size + selected_bytes es else selected_bytes es

removed_lem :
    (b dry : Bool) (n : Text) (removed names : List Text)
    → removed ≡ (if dry then [] else names)
    → (if b && not dry then n ∷ removed else removed)
      ≡ (if dry then [] else (if b then n ∷ names else names))
removed_lem true true n removed names h = h
removed_lem true false n removed names h = ap (λ l. n ∷ l) h
removed_lem false true n removed names h = h
removed_lem false false n removed names h = h

-- The characters that a cache keeps of a repository's name; the others are underscores.
abbrev pub IsKeptChar : ℕ → Type 0
IsKeptChar c =
    ((97 ≤ c) × (c ≤ 122))
    ⊎ ((65 ≤ c) × (c ≤ 90))
    ⊎ ((48 ≤ c) × (c ≤ 57))
    ⊎ (c ≡ b'-')
    ⊎ (c ≡ b'_')
    ⊎ (c ≡ b'.')

abbrev pub IsCacheOf : Text → Text → Type 0
IsCacheOf [] [] = Unit
IsCacheOf [] (d ∷ name) = ⊥
IsCacheOf (c ∷ repo) [] = ⊥
IsCacheOf (c ∷ repo) (d ∷ name) =
    ((IsKeptChar c × (d ≡ c)) ⊎ (¬ IsKeptChar c × (d ≡ b'_'))) × IsCacheOf repo name

cache_name_char_iff :
    (c d : ℕ) → (cache_name_char c ≡ d) ↔ ((IsKeptChar c × (d ≡ c)) ⊎ (¬ IsKeptChar c × (d ≡ b'_')))
unfolding cache_name_char
cache_name_char_iff c d = ground arith

repo_cache_name_iff :
    (repo name : Text) → (text_eq (repo_cache_name repo) name ≡ true) ↔ IsCacheOf repo name
unfolding repo_cache_name text_eq
repo_cache_name_iff [] [] = ground arith
repo_cache_name_iff [] (d ∷ name) = ground arith
repo_cache_name_iff (c ∷ repo) [] = ground arith
repo_cache_name_iff (c ∷ repo) (d ∷ name) =
    ground (arith, cache_name_char_iff c d, repo_cache_name_iff repo name)

is_known_cache→Any :
    (repos : List Text) (name : Text)
    → is_known_cache repos name ≡ true
    → Any (λ r. IsCacheOf r name) repos
unfolding is_known_cache
is_known_cache→Any [] name h = absurd (ground arith)
is_known_cache→Any (r ∷ repos) name h = elim (Bool-cases (text_eq (repo_cache_name r) name)) [
  | inl e ↦ here ((repo_cache_name_iff r name).0 e)
  | inr e ↦ there (is_known_cache→Any repos name (rw e at h))
]

Any→is_known_cache :
    (repos : List Text) (name : Text)
    → Any (λ r. IsCacheOf r name) repos
    → is_known_cache repos name ≡ true
unfolding is_known_cache
Any→is_known_cache [] name h = elim h [ ]
Any→is_known_cache (r ∷ repos) name (here h) = rw ((repo_cache_name_iff r name).1 h) refl
Any→is_known_cache (r ∷ repos) name (there h) = ground (arith, Any→is_known_cache repos name h)

-- The entry of a directory: an orphan exactly where no repository's cache has its name, and selected
-- where all are or where it is an orphan.
abbrev pub IsEntryOf : List Text → Bool → DirEntry → CacheEntry → Type 0
IsEntryOf repos all de e =
    (e.name ≡ de.name)
    × (de.size ≡ some e.size)
    × ((e.is_orphan ≡ false) ↔ Any (λ r. IsCacheOf r de.name) repos)
    × (e.is_pruned ≡ (all || e.is_orphan))

-- The entries of a directory's part up to the error, if there is one.
pub data AreEntriesOf (repos : List Text) (all dry_run : Bool)
    : List DirEntry → Option PruneError → List CacheEntry → Type 0 where
  at_end : AreEntriesOf repos all dry_run [] none []
  no_dir :
      {de : DirEntry} {des : List DirEntry} {o : Option PruneError} {es : List CacheEntry}
      → de.cancelled ≡ false
      → de.is_dir ≡ false
      → AreEntriesOf repos all dry_run des o es
      → AreEntriesOf repos all dry_run (de ∷ des) o es
  an_entry :
      {de : DirEntry} {e : CacheEntry} {des : List DirEntry} {o : Option PruneError}
      {es : List CacheEntry}
      → de.cancelled ≡ false
      → de.is_dir ≡ true
      → IsEntryOf repos all de e
      → (e.is_pruned ≡ false) ⊎ (dry_run ≡ true) ⊎ (de.removes ≡ true)
      → AreEntriesOf repos all dry_run des o es
      → AreEntriesOf repos all dry_run (de ∷ des) o (e ∷ es)
  at_cancelled :
      {de : DirEntry} {des : List DirEntry}
      → de.cancelled ≡ true
      → AreEntriesOf repos all dry_run (de ∷ des) (some prune_cancelled) []
  at_size :
      {de : DirEntry} {des : List DirEntry}
      → de.cancelled ≡ false
      → de.is_dir ≡ true
      → de.size ≡ none
      → AreEntriesOf repos all dry_run (de ∷ des) (some size_failed) []
  at_removal :
      {de : DirEntry} {e : CacheEntry} {des : List DirEntry}
      → de.cancelled ≡ false
      → de.is_dir ≡ true
      → IsEntryOf repos all de e
      → e.is_pruned ≡ true
      → dry_run ≡ false
      → de.removes ≡ false
      → AreEntriesOf repos all dry_run (de ∷ des) (some remove_failed) []

module _ (repos : List Text) (all dry_run : Bool) where
  abbrev pub IsPruneRun : List DirEntry → PruneRun → Type 0
  IsPruneRun des run =
      AreEntriesOf repos all dry_run des run.error run.entries
      × (run.freed ≡ selected_bytes run.entries)
      × (run.removed ≡ (if dry_run then [] else selected run.entries))

  failed-IsPruneRun :
      (des : List DirEntry) (o : Option PruneError)
      → AreEntriesOf repos all dry_run des o []
      → IsPruneRun des (record { entries = []; freed = 0; removed = []; error = o })
  failed-IsPruneRun des o h = (h, refl, by_cases dry_run)
    where
      by_cases : (b : Bool) → ◌≡◌ {A = List Text} [] (if b then [] else [])
      by_cases true = refl
      by_cases false = refl

  entry_of-IsEntryOf :
      (de : DirEntry) (size : ℕ)
      → de.size ≡ some size
      → IsEntryOf repos all de (entry_of repos all dry_run de size)
  entry_of-IsEntryOf de size h = (
    refl,
    h,
    (
      λ e. is_known_cache→Any repos de.name (ground arith),
      λ a. ground (arith, Any→is_known_cache repos de.name a),
    ),
    refl,
  )

  abbrev blocked : DirEntry → Bool
  blocked de = (all || not (is_known_cache repos de.name)) && not dry_run && not de.removes

  done-IsPruneRun :
      (de : DirEntry) (des : List DirEntry) (size : ℕ) (run : PruneRun)
      → de.cancelled ≡ false
      → de.is_dir ≡ true
      → de.size ≡ some size
      → blocked de ≡ false
      → IsPruneRun des run
      → IsPruneRun (de ∷ des) (done repos all dry_run (entry_of repos all dry_run de size) run)
  done-IsPruneRun de des size run c d z b h = (
    an_entry c d (entry_of-IsEntryOf de size z) (ground arith) h.0,
    rw h.1 refl,
    removed_lem (all || not (is_known_cache repos de.name)) dry_run de.name run.removed
        (selected run.entries) h.2,
  )

  -- Pruning goes through the directory in its order: each directory in it, up to the first error,
  -- is one entry with its name and its size, an orphan exactly where it is not the cache of a
  -- configured repository, and selected where all are asked for or where it is an orphan; other
  -- files are passed over. The error, if there is one, is a cancellation, a size that cannot be
  -- read, or a selected cache that cannot be removed, at the first place that has one. The freed
  -- bytes are those of the selected entries, and the caches removed from the disk are the selected
  -- ones in their order, none on a dry run.
  pub prune_entries-IsPruneRun :
      (des : List DirEntry) → IsPruneRun des (prune_entries repos all dry_run des)
  unfolding prune_entries
  prune_entries-IsPruneRun [] = failed-IsPruneRun [] none at_end
  prune_entries-IsPruneRun (de ∷ des) = elim (Bool-cases de.cancelled) [
    | inl c ↦ simp c (failed-IsPruneRun (de ∷ des) (some prune_cancelled) (at_cancelled c))
    | inr c ↦ elim (Bool-cases de.is_dir) [
      | inr d ↦ let (h, f, r) = prune_entries-IsPruneRun des in simp (c, d) (no_dir c d h, f, r)
      | inl d ↦ elim (Option-cases de.size) [
        | inl z ↦ simp (c, d, z) (failed-IsPruneRun (de ∷ des) (some size_failed) (at_size c d z))
        | inr (size, z) ↦ elim (Bool-cases (blocked de)) [
          | inl b ↦
              simp (c, d, z, b)
                (failed-IsPruneRun (de ∷ des) (some remove_failed) (
                  at_removal c d (entry_of-IsEntryOf de size z) (ground arith) (ground arith)
                    (ground arith)))
          | inr b ↦
              simp (c, d, z, b)
                (done-IsPruneRun de des size (prune_entries repos all dry_run des) c d z b
                  (prune_entries-IsPruneRun des))
        ]
      ]
    ]
  ]
