-- ===== src/BrowseSession/Safety.antt =====
-- What holds of a session in every interleaving of operations and Close.
use resticscope.Prelude.{
  ℕ, ◌+◌, ◌≤◌, ◌≡◌, refl, sym, subst, Bool, true, false, List, [], ◌∷◌, ◌++◌, arith, if◌then◌else◌,
  ◌==◌, All, ◌⊎◌,
}
use resticscope.BrowseSession.{
  Session, new_browse_session, Pc, waiting, locked, ensuring, opening, opened, failing, using,
  finished, closing, close_waiting, close_holding, close_done, Local, lock, refuse, register,
  ensure_closed, reuse, begin_open, open_fails, open_succeeds, keep_store, drop_store, abort,
  release, mark, close_lock, close_nothing, close_store, Step, step, Reach, here, next,
}

-- How many threads stand at each place that matters.
pub record Tally : Type 0 where
  pub n_locked : ℕ
  pub n_ensuring : ℕ
  pub n_opening : ℕ
  pub n_opened : ℕ
  pub n_failing : ℕ
  pub n_using : ℕ
  pub n_close_waiting : ℕ
  pub n_close_holding : ℕ
  pub n_close_done : ℕ

abbrev pub code : Pc → ℕ
code waiting = 0
code finished = 0
code closing = 0
code locked = 1
code ensuring = 2
code opening = 3
code opened = 4
code failing = 5
code using = 6
code close_waiting = 7
code close_holding = 8
code close_done = 9

-- One thread's part in the count of a place, and the count.
abbrev pub hit : ℕ → Pc → ℕ
hit k pc = if code pc == k then 1 else 0

abbrev pub count : ℕ → List Pc → ℕ
count k [] = 0
count k (pc ∷ ts) = hit k pc + count k ts

abbrev pub tally : List Pc → Tally
tally ts = record {
  n_locked = count 1 ts;
  n_ensuring = count 2 ts;
  n_opening = count 3 ts;
  n_opened = count 4 ts;
  n_failing = count 5 ts;
  n_using = count 6 ts;
  n_close_waiting = count 7 ts;
  n_close_holding = count 8 ts;
  n_close_done = count 9 ts;
}

-- A tally with one more thread.
abbrev pub add : Pc → Tally → Tally
add pc t = record {
  n_locked = hit 1 pc + t.n_locked;
  n_ensuring = hit 2 pc + t.n_ensuring;
  n_opening = hit 3 pc + t.n_opening;
  n_opened = hit 4 pc + t.n_opened;
  n_failing = hit 5 pc + t.n_failing;
  n_using = hit 6 pc + t.n_using;
  n_close_waiting = hit 7 pc + t.n_close_waiting;
  n_close_holding = hit 8 pc + t.n_close_holding;
  n_close_done = hit 9 pc + t.n_close_done;
}

count-middle :
    (k : ℕ) (pc : Pc) (before after : List Pc)
    → count k (before ++ pc ∷ after) ≡ hit k pc + count k (before ++ after)
count-middle k pc [] after = refl
count-middle k pc (p ∷ before) after = omega (arith, count-middle k pc before after)

tally-middle :
    (pc : Pc) (before after : List Pc)
    → tally (before ++ pc ∷ after) ≡ add pc (tally (before ++ after))
tally-middle pc before after =
    rw
      (
        count-middle 1 pc before after,
        count-middle 2 pc before after,
        count-middle 3 pc before after,
        count-middle 4 pc before after,
        count-middle 5 pc before after,
        count-middle 6 pc before after,
        count-middle 7 pc before after,
        count-middle 8 pc before after,
        count-middle 9 pc before after,
      )
      refl

abbrev pub bit : Bool → ℕ
bit b = if b then 1 else 0

pub record IsSafe (s : Session) (t : Tally) : Type 0 where
  -- `opMu` is held by the one thread between its lock and its unlock.
  pub exclusive :
      t.n_locked + t.n_ensuring + t.n_opening + t.n_opened + t.n_failing + t.n_using
        + t.n_close_holding
      ≡ bit s.op_mu
  -- The open stores are the session's and the one that is about to be kept or closed.
  pub accounted : s.live ≡ bit s.store + t.n_opened
  -- An operation uses an open store, and a store is opened only where there is none.
  pub in_use : t.n_using ≤ bit s.store
  pub one_store : t.n_opening + t.n_opened + bit s.store ≤ 1
  -- An operation at work can be cancelled.
  pub cancellable :
      t.n_ensuring + t.n_opening + t.n_opened + t.n_failing + t.n_using ≤ bit s.inflight
  -- A Close that has begun has marked the session.
  pub marked : (s.closed ≡ true) ⊎ (t.n_close_waiting + t.n_close_holding + t.n_close_done ≡ 0)
  -- Behind a Close that has returned, no store is open and no operation is at work.
  pub shut :
      (t.n_close_done ≡ 0)
      ⊎ ((s.live ≡ 0)
          × (s.store ≡ false)
          × (t.n_ensuring + t.n_opening + t.n_opened + t.n_using ≡ 0))

Local-IsSafe :
    {s s' : Session} {pc pc' : Pc} (t : Tally)
    → Local s pc s' pc'
    → IsSafe s (add pc t)
    → IsSafe s' (add pc' t)
Local-IsSafe t (lock e) h = ground arith
Local-IsSafe t (refuse e) h = ground arith
Local-IsSafe t (register e) h = ground arith
Local-IsSafe t (ensure_closed e) h = ground arith
Local-IsSafe t (reuse e e') h = ground arith
Local-IsSafe t (begin_open e e') h = ground arith
Local-IsSafe t open_fails h = ground arith
Local-IsSafe t open_succeeds h = ground arith
Local-IsSafe t (keep_store e) h = ground arith
Local-IsSafe t (drop_store e) h = ground arith
Local-IsSafe t abort h = ground arith
Local-IsSafe t release h = ground arith
Local-IsSafe t mark h = ground arith
Local-IsSafe t (close_lock e) h = ground arith
Local-IsSafe t (close_nothing e) h = ground arith
Local-IsSafe t (close_store e) h = ground arith

none_at : (k : ℕ) (ts : List Pc) → 1 ≤ k → All (λ pc. code pc ≡ 0) ts → count k ts ≡ 0
none_at k [] e h = refl
none_at k (pc ∷ ts) e h = ground (arith, none_at k ts e h.1, h.0)

begins : (ts : List Pc) → All (λ pc. code pc ≡ 0) ts → IsSafe new_browse_session (tally ts)
begins ts h = ground (
  arith,
  none_at 1 ts (omega arith) h,
  none_at 2 ts (omega arith) h,
  none_at 3 ts (omega arith) h,
  none_at 4 ts (omega arith) h,
  none_at 5 ts (omega arith) h,
  none_at 6 ts (omega arith) h,
  none_at 7 ts (omega arith) h,
  none_at 8 ts (omega arith) h,
  none_at 9 ts (omega arith) h,
)

Step-IsSafe :
    {s s' : Session} {ts ts' : List Pc}
    → Step s ts s' ts'
    → IsSafe s (tally ts)
    → IsSafe s' (tally ts')
Step-IsSafe {s} {s'} (step {pc = pc} {pc' = pc'} before after l) h =
    subst (IsSafe s') (sym (tally-middle pc' before after))
      (Local-IsSafe (tally (before ++ after)) l (subst (IsSafe s) (tally-middle pc before after) h))

-- Threads that are not at work: operations and calls of Close before their first step, and operations
-- that have finished.
abbrev pub AreAtRest : List Pc → Type 0
AreAtRest ts = All (λ pc. code pc ≡ 0) ts

-- From a new session, in every interleaving of any number of operations with any number of calls
-- of Close: one thread at most is between the lock and the unlock of `opMu`; the stores that are
-- open are the session's and one about to be kept or closed, one in all; an operation uses an open
-- store and can be cancelled; and behind a Close that has returned, no store is open, none is kept,
-- and no operation is at work.
pub Reach-IsSafe :
    (ts : List Pc) {s : Session} {us : List Pc} → AreAtRest ts → Reach ts s us → IsSafe s (tally us)
Reach-IsSafe ts h here = begins ts h
Reach-IsSafe ts h (next r st) = Step-IsSafe st (Reach-IsSafe ts h r)
