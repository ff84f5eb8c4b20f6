-- ===== src/BrowseSession.antt =====
-- internal/app/browsesession.go: the operations of a browse session and Close as threads that take
-- turns, and the transaction of IndexSnapshot.
pub mod Safety
pub mod Index
pub mod Ended
pub mod Progress
mod Examples
use resticscope.Prelude.{ℕ, suc, ◌+◌, ◌-◌, ◌≡◌, Bool, true, false, List, [], ◌∷◌, ◌++◌}

-- The fields of a session, whether `opMu` is locked, and how many stores are open.
pub record Session : Type 0 where
  pub store : Bool
  pub closed : Bool
  pub inflight : Bool
  pub op_mu : Bool
  pub live : ℕ

abbrev pub new_browse_session : Session
new_browse_session = record {
  store = false;
  closed = false;
  inflight = false;
  op_mu = false;
  live = 0;
}

-- Where a thread stands: an operation between its call of `beginOp` and its release, or a Close.
pub data Pc : Type 0 where
  waiting locked ensuring opening opened failing using finished : Pc
  closing close_waiting close_holding close_done : Pc

-- One step of a thread. The lock `mu` is held within a step; `opMu` is held from one to another.
pub data Local (s : Session) : Pc → Session → Pc → Type 0 where
  -- beginOp
  lock : s.op_mu ≡ false → Local s waiting (record s { op_mu = true }) locked
  refuse : s.closed ≡ true → Local s locked (record s { op_mu = false }) finished
  register : s.closed ≡ false → Local s locked (record s { inflight = true }) ensuring
  -- ensureStore
  ensure_closed : s.closed ≡ true → Local s ensuring s failing
  reuse : s.closed ≡ false → s.store ≡ true → Local s ensuring s using
  begin_open : s.closed ≡ false → s.store ≡ false → Local s ensuring s opening
  -- `open` fails, or is cancelled and its store closed at once.
  open_fails : Local s opening s failing
  open_succeeds : Local s opening (record s { live = suc s.live }) opened
  keep_store : s.closed ≡ false → Local s opened (record s { store = true }) using
  drop_store : s.closed ≡ true → Local s opened (record s { live = s.live - 1 }) failing
  -- The error path of beginOp, and release.
  abort : Local s failing (record s { inflight = false; op_mu = false }) finished
  release : Local s using (record s { inflight = false; op_mu = false }) finished
  -- Close
  mark : Local s closing (record s { closed = true }) close_waiting
  close_lock : s.op_mu ≡ false → Local s close_waiting (record s { op_mu = true }) close_holding
  close_nothing : s.store ≡ false → Local s close_holding (record s { op_mu = false }) close_done
  close_store :
      s.store ≡ true
      → Local s close_holding
          (record s { op_mu = false; store = false; live = s.live - 1 })
          close_done

-- Any thread may take the next step.
pub data Step : Session → List Pc → Session → List Pc → Type 0 where
  step :
      {s s' : Session} {pc pc' : Pc} (before after : List Pc)
      → Local s pc s' pc'
      → Step s (before ++ pc ∷ after) s' (before ++ pc' ∷ after)

pub data Reach (ts : List Pc) : Session → List Pc → Type 0 where
  here : Reach ts new_browse_session ts
  next : {s s' : Session} {us us' : List Pc} → Reach ts s us → Step s us s' us' → Reach ts s' us'
