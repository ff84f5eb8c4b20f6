-- ===== src/Refresh/Laws.antt =====
-- The order of concurrent refreshes does not matter.
use resticscope.Prelude.{
  Text, ◌≡◌, refl, ap, ◌∙◌, Bool, true, false, List, [], ◌∷◌, ◌++◌, inl, inr, text_eq, text_eq_iff,
  if◌then◌else◌, Bool-cases, All,
}
use resticscope.Refresh.{
  CachedState, Cache, RefreshTurn, refresh_one, load, save, no_state, refresh, refresh_all,
}

-- What a refresh leaves in the cache for its repository.
abbrev pub after_refresh : RefreshTurn → CachedState → CachedState
after_refresh r before =
    if r.cancelled
    then before
    else if r.saves
    then refresh_one r.now r.params r.name before r.resolved r.listed
    else before

-- One turn.
abbrev turn : RefreshTurn → Cache → Cache
turn r cache = if r.cancelled then cache else (refresh r cache).0

load-save :
    (b : Bool) (name other : Text) (s t : CachedState) (cache : Cache)
    → load other (save b name s cache) t
      ≡ (if b then (if text_eq name other then s else load other cache t) else load other cache t)
unfolding load save
load-save true name other s t cache = refl
load-save false name other s t cache = refl

load-turn :
    (r : RefreshTurn) (cache : Cache)
    → load r.name (turn r cache) no_state ≡ after_refresh r (load r.name cache no_state)
unfolding refresh
load-turn r cache = elim (Bool-cases r.cancelled) [
  | inl e ↦ rw e refl
  | inr e ↦ rw e (
      load-save r.saves r.name r.name _ no_state cache
      ∙ (rw ((text_eq_iff r.name r.name).1 refl) refl))
]

load-turn_other :
    (r : RefreshTurn) (name : Text) (cache : Cache)
    → text_eq r.name name ≡ false
    → load name (turn r cache) no_state ≡ load name cache no_state
unfolding refresh
load-turn_other r name cache h = elim (Bool-cases r.cancelled) [
  | inl e ↦ rw e refl
  | inr e ↦ rw e (load-save r.saves r.name name _ no_state cache ∙ at r.saves _)
]
  where
    at :
        (b : Bool) (s : CachedState)
        → (if b
            then (if text_eq r.name name then s else load name cache no_state)
            else load name cache no_state)
          ≡ load name cache no_state
    at true s = rw h refl
    at false s = refl

-- No repository of the turns has the name.
abbrev pub AreOthers : Text → List RefreshTurn → Type 0
AreOthers name turns = All (λ q. text_eq q.name name ≡ false) turns

refresh_all-others :
    (turns : List RefreshTurn) (name : Text) (cache : Cache)
    → AreOthers name turns
    → load name (refresh_all turns cache) no_state ≡ load name cache no_state
unfolding refresh_all
refresh_all-others [] name cache h = refl
refresh_all-others (q ∷ turns) name cache h =
    refresh_all-others turns name (turn q cache) h.1 ∙ load-turn_other q name cache h.0

-- In whatever order the refreshes of distinct repositories run, the cache has for each of them what
-- its own refresh makes of its state before all of them, or that state where the refresh was
-- cancelled before its turn or was not saved.
pub refresh_all-each :
    (before : List RefreshTurn) (r : RefreshTurn) (after : List RefreshTurn) (cache : Cache)
    → AreOthers r.name before
    → AreOthers r.name after
    → load r.name (refresh_all (before ++ r ∷ after) cache) no_state
      ≡ after_refresh r (load r.name cache no_state)
unfolding refresh_all
refresh_all-each [] r after cache h k =
    refresh_all-others after r.name (turn r cache) k ∙ load-turn r cache
refresh_all-each (q ∷ before) r after cache h k =
    refresh_all-each before r after (turn q cache) h.1 k
    ∙ ap (after_refresh r) (load-turn_other q r.name cache h.0)
