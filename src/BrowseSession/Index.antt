-- ===== src/BrowseSession/Index.antt =====
-- IndexSnapshot, internal/app/browsesession.go, with its deferred functions.
use resticscope.Prelude.{
  ℕ, Bool, true, false, not, Option, none, some, List, [], ◌∷◌, ◌++◌, leb, if◌then◌else◌,
}

pub data IndexError : Type 0 where
  not_enabled unknown_repo not_begun lookup_failed unresolved begin_failed : IndexError
  stream_failed incomplete commit_failed : IndexError

-- The calls of the session, of its store and of the runtime; a commit has its answer.
pub data StoreCall : Type 0 where
  begin_op is_indexed begin_index stream_tree : StoreCall
  commit : Bool → StoreCall
  rollback release free_memory : StoreCall

-- The answers of the store, the secrets and restic, in the order they are asked for.
pub record Answers : Type 0 where
  pub enabled : Bool
  pub known : Bool
  pub begins : Bool
  pub indexed : Option Bool
  pub resolves : Bool
  pub tx_begins : Bool
  -- Whether the stream's summary is complete, and the nodes that were added.
  pub stream : Option Bool
  pub added : ℕ
  pub commits : Bool

-- A run, or what is left of it: its error, the calls in their order, the progress that it reports
-- behind the stream, and the local variables that its deferred functions read.
pub record IndexRun : Type 0 where
  pub error : Option IndexError
  pub calls : List StoreCall
  pub reported : Option ℕ
  pub committed : Bool
  pub trim : Bool

abbrev stopped : IndexError → List StoreCall → IndexRun
stopped e calls = record {
  error = some e;
  calls = calls;
  reported = none;
  committed = false;
  trim = false;
}

abbrev pub browse_memory_trim_after_entries : ℕ
browse_memory_trim_after_entries = 250000

-- From the stream on.
unfoldable pub end_index : Answers → IndexRun
end_index a = elim a.stream [
  | none ↦ stopped stream_failed (stream_tree ∷ [])
  | some false ↦ record (stopped incomplete (stream_tree ∷ [])) { reported = some a.added }
  | some true ↦ elim a.commits [
    | false ↦ record (stopped commit_failed (stream_tree ∷ commit false ∷ [])) {
      reported = some a.added;
    }
    | true ↦ record {
      error = none;
      calls = stream_tree ∷ commit true ∷ [];
      reported = some a.added;
      committed = true;
      trim = leb browse_memory_trim_after_entries a.added;
    }
  ]
]

-- The deferred rollback, the deferred release, and the deferred trim.
unfoldable pub roll_back : IndexRun → IndexRun
roll_back r = if r.committed then r else record r { calls = r.calls ++ rollback ∷ [] }

unfoldable pub release_op : IndexRun → IndexRun
release_op r = record r { calls = r.calls ++ release ∷ [] }

unfoldable pub trim_memory : IndexRun → IndexRun
trim_memory r = if r.trim then record r { calls = r.calls ++ free_memory ∷ [] } else r

-- What a run does behind a call.
abbrev pub calling : StoreCall → IndexRun → IndexRun
calling c r = record r { calls = c ∷ r.calls }

-- Behind `IsIndexed`.
unfoldable pub fill_index : Answers → IndexRun
unfolding end_index roll_back
fill_index a =
    if not a.resolves
    then stopped unresolved []
    else if not a.tx_begins
    then stopped begin_failed []
    else calling begin_index (roll_back (end_index a))

unfoldable pub index_snapshot : Answers → IndexRun
unfolding fill_index release_op trim_memory
index_snapshot a =
    if not a.enabled
    then stopped not_enabled []
    else if not a.known
    then stopped unknown_repo []
    else if not a.begins
    then stopped not_begun []
    else trim_memory (
        release_op (
          calling begin_op (
            calling is_indexed (elim a.indexed [
              | none ↦ stopped lookup_failed []
              | some true ↦ record {
                error = none;
                calls = [];
                reported = none;
                committed = false;
                trim = false;
              }
              | some false ↦ fill_index a
            ]))))
