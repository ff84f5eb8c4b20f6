-- ===== src/BrowseSession/Ended.antt =====
-- How IndexSnapshot, internal/app/browsesession.go, ends: what its calls leave open and what they keep.
use resticscope.Prelude.{
  ℕ, ◌≤◌, ◌≡◌, ◌≢◌, ◌↔◌, Bool, true, false, ◌&&◌, not, Option, none, some, List, [], ◌∷◌, refl,
  arith, leb, if◌then◌else◌, Bool-cases, inl, inr, ◌⊎◌,
}
use resticscope.BrowseSession.Index.{
  StoreCall, begin_op, is_indexed, begin_index, stream_tree, commit, rollback, release, free_memory,
  Answers, IndexRun, browse_memory_trim_after_entries, end_index, roll_back, release_op,
  trim_memory, calling, fill_index, index_snapshot,
}

-- A store as the calls see it: whether an operation and a transaction are open, whether the
-- snapshot was kept by a commit, and whether memory was given back.
pub record Store : Type 0 where
  pub op : Bool
  pub tx : Bool
  pub kept : Bool
  pub freed : Bool

-- A call where it is allowed: an operation is released only without an open transaction, a failed
-- commit leaves the transaction open, and memory is given back outside of operations.
abbrev pub take_call : StoreCall → Store → Option Store
take_call begin_op s = if s.op then none else some (record s { op = true })
take_call is_indexed s = if s.op then some s else none
take_call begin_index s = if s.op && not s.tx then some (record s { tx = true }) else none
take_call stream_tree s = if s.tx then some s else none
take_call (commit true) s = if s.tx then some (record s { tx = false; kept = true }) else none
take_call (commit false) s = if s.tx then some s else none
take_call rollback s = if s.tx then some (record s { tx = false }) else none
take_call release s = if s.op && not s.tx then some (record s { op = false }) else none
take_call free_memory s = if s.op then none else some (record s { freed = true })

abbrev pub take_calls : List StoreCall → Store → Option Store
take_calls [] s = some s
take_calls (c ∷ calls) s = elim (take_call c s) [ none ↦ none | some t ↦ take_calls calls t ]

abbrev pub closed_store : Store
closed_store = record { op = false; tx = false; kept = false; freed = false }

-- What a run leaves behind, with its error and its report.
abbrev pub IsEnded : Answers → IndexRun → Type 0
IsEnded a r =
    (s : Store) × (take_calls r.calls closed_store ≡ some s)
    × (s.op ≡ false)
    × (s.tx ≡ false)
    × ((s.kept ≡ true) ↔ ((r.error ≡ none) × (a.indexed ≡ some false)))
    × ((s.kept ≡ false) ⊎ ((a.stream ≡ some true) × (r.reported ≡ some a.added)))
    × ((s.freed ≡ true) ↔ ((s.kept ≡ true) × (browse_memory_trim_after_entries ≤ a.added)))

kept_lem :
    (a : Answers)
    → a.indexed ≡ some false
    → a.stream ≡ some true
    → IsEnded a (
        trim_memory (
          release_op (
            calling begin_op (
              calling is_indexed (
                calling begin_index (record {
                  error = none;
                  calls = stream_tree ∷ commit true ∷ [];
                  reported = some a.added;
                  committed = true;
                  trim = leb browse_memory_trim_after_entries a.added;
                }))))))
unfolding release_op trim_memory
kept_lem a h k = elim (Bool-cases (leb browse_memory_trim_after_entries a.added)) [
  | inl e ↦ rw e (
    record { op = false; tx = false; kept = true; freed = true },
    refl,
    refl,
    refl,
    (λ q. (refl, h), λ q. refl),
    inr (k, refl),
    ground arith,
  )
  | inr e ↦ rw e (
    record { op = false; tx = false; kept = true; freed = false },
    refl,
    refl,
    refl,
    (λ q. (refl, h), λ q. refl),
    inr (k, refl),
    ground arith,
  )
]

abbrev answers : Bool → Bool → Bool → Option Bool → Bool → Bool → Option Bool → Bool → ℕ → Answers
answers enabled known begins indexed resolves tx_begins stream commits added = record {
  enabled = enabled;
  known = known;
  begins = begins;
  indexed = indexed;
  resolves = resolves;
  tx_begins = tx_begins;
  stream = stream;
  commits = commits;
  added = added;
}

IsEnded-empty :
    (a : Answers)
    → take_calls (index_snapshot a).calls closed_store ≡ some closed_store
    → ((index_snapshot a).error ≢ none) ⊎ (a.indexed ≢ some false)
    → IsEnded a (index_snapshot a)
IsEnded-empty a e h = (closed_store, e, refl, refl, ground arith, inl refl, ground arith)

ended :
    (enabled known begins : Bool) (indexed : Option Bool) (resolves tx_begins : Bool)
    (stream : Option Bool) (commits : Bool) (added : ℕ)
    → IsEnded (answers enabled known begins indexed resolves tx_begins stream commits added) (
        index_snapshot
          (answers enabled known begins indexed resolves tx_begins stream commits added))
unfolding index_snapshot fill_index end_index roll_back release_op trim_memory
ended false kn be ix re tb st co n =
    IsEnded-empty (answers false kn be ix re tb st co n) refl (ground arith)
ended true false be ix re tb st co n =
    IsEnded-empty (answers true false be ix re tb st co n) refl (ground arith)
ended true true false ix re tb st co n =
    IsEnded-empty (answers true true false ix re tb st co n) refl (ground arith)
ended true true true none re tb st co n =
    IsEnded-empty (answers true true true none re tb st co n) refl (ground arith)
ended true true true (some true) re tb st co n =
    IsEnded-empty (answers true true true (some true) re tb st co n) refl (ground arith)
ended true true true (some false) false tb st co n =
    IsEnded-empty (answers true true true (some false) false tb st co n) refl (ground arith)
ended true true true (some false) true false st co n =
    IsEnded-empty (answers true true true (some false) true false st co n) refl (ground arith)
ended true true true (some false) true true none co n =
    IsEnded-empty (answers true true true (some false) true true none co n) refl (ground arith)
ended true true true (some false) true true (some false) co n =
    IsEnded-empty (answers true true true (some false) true true (some false) co n) refl
      (ground arith)
ended true true true (some false) true true (some true) false n =
    IsEnded-empty (answers true true true (some false) true true (some true) false n) refl
      (ground arith)
ended true true true (some false) true true (some true) true n =
    kept_lem (answers true true true (some false) true true (some true) true n) refl refl

-- Every run makes its calls in an allowed order and ends with no operation and no transaction open:
-- a transaction that is not committed is rolled back before the operation is released. The
-- snapshot is kept exactly when there is no error and it was not indexed before; then the stream
-- was complete and the number of the nodes added was reported. Memory is given back exactly behind
-- a snapshot that was kept with 250,000 nodes or more.
pub index_snapshot-IsEnded : (a : Answers) → IsEnded a (index_snapshot a)
unfolding index_snapshot fill_index end_index roll_back release_op trim_memory
index_snapshot-IsEnded a =
    ended a.enabled a.known a.begins a.indexed a.resolves a.tx_begins a.stream a.commits a.added
