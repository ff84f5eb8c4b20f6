-- ===== src/Snapshots/Order.antt =====
-- The order of snapshots, and that `latestSnapshot` finds the first of the sorted list.
use mathlib.Core.List.{Perm}
use resticscope.Prelude.{
  ℕ, ◌≡◌, refl, sym, ◌∙◌, ap, max, true, false, Option, none, some, List, [], ◌∷◌, text_eq_iff,
  text_lt_irrefl, text_lt_total, if◌then◌else◌, arith, ltb, sort_stable, insert_stable, IsSorted,
  IsStrictOrder, sort_stable-perm, sort_stable-IsSorted, text_lt-order,
}
use resticscope.Snapshots.{
  Snapshot, snapshot_before_newest, sort_snapshots_newest_first, latest_from, latest_snapshot,
  latest_time_from, latest_snapshot_time,
}

snapshot_before_newest-asym :
    (a b : Snapshot) → snapshot_before_newest a b ≡ true → snapshot_before_newest b a ≡ false
unfolding snapshot_before_newest
snapshot_before_newest-asym a b h = ground (
  arith,
  text_eq_iff a.id b.id,
  text_eq_iff b.id a.id,
  text_lt-order.asym b.id a.id,
  text_lt-order.asym b.short_id a.short_id,
)

snapshot_before_newest_trans :
    (a b c : Snapshot)
    → snapshot_before_newest b a ≡ false
    → snapshot_before_newest c b ≡ false
    → snapshot_before_newest c a ≡ false
unfolding snapshot_before_newest
snapshot_before_newest_trans a b c h k = ground (
  arith,
  text_eq_iff b.id a.id,
  text_eq_iff c.id b.id,
  text_eq_iff c.id a.id,
  text_lt-order.not_less_trans c.id b.id a.id,
  text_lt-order.not_less_trans c.short_id b.short_id a.short_id,
  text_lt_total a.id b.id,
  text_lt_total b.id c.id,
  text_lt_irrefl a.id,
)

pub snapshot_before_newest-order : IsStrictOrder snapshot_before_newest
snapshot_before_newest-order = record {
  asym = snapshot_before_newest-asym;
  not_less_trans = snapshot_before_newest_trans;
}

-- The first of a list.
abbrev pub first_of : {A : Type 0} → List A → Option A
first_of [] = none
first_of (x ∷ xs) = some x

-- The newer of two, the left one where neither is.
abbrev newer : Snapshot → Option Snapshot → Option Snapshot
newer a none = some a
newer a (some b) = some (if snapshot_before_newest b a then b else a)

newer-first :
    (x : Snapshot) (ys : List Snapshot)
    → first_of (insert_stable snapshot_before_newest x ys) ≡ newer x (first_of ys)
unfolding insert_stable
newer-first x [] = refl
newer-first x (y ∷ ys) = ground arith

newer_assoc :
    (a b : Snapshot) (c : Option Snapshot)
    → newer (if snapshot_before_newest b a then b else a) c ≡ newer a (newer b c)
newer_assoc a b none = ground arith
newer_assoc a b (some c) = ground (
  arith,
  snapshot_before_newest-order.asym b a,
  snapshot_before_newest-order.asym c b,
  snapshot_before_newest-order.not_less_trans a b c,
  snapshot_before_newest-order.not_less_trans b a c,
  snapshot_before_newest-order.not_less_trans a c b,
)

latest_from-newer :
    (a : Snapshot) (snaps : List Snapshot)
    → latest_from (some a) snaps ≡ newer a (first_of (sort_snapshots_newest_first snaps))
unfolding latest_from sort_snapshots_newest_first sort_stable
latest_from-newer a [] = refl
latest_from-newer a (s ∷ snaps) =
    latest_from-newer (if snapshot_before_newest s a then s else a) snaps
    ∙ newer_assoc a s (first_of (sort_stable snapshot_before_newest snaps))
    ∙ sym (ap (newer a) (newer-first s (sort_stable snapshot_before_newest snaps)))

-- The newest snapshot is the first of the snapshots sorted newest first, ties included, and there is
-- none just for an empty list.
pub latest_snapshot-first :
    (snaps : List Snapshot) → latest_snapshot snaps ≡ first_of (sort_snapshots_newest_first snaps)
unfolding latest_snapshot latest_from sort_snapshots_newest_first sort_stable
latest_snapshot-first [] = refl
latest_snapshot-first (s ∷ snaps) =
    latest_from-newer s snaps ∙ sym (newer-first s (sort_stable snapshot_before_newest snaps))

-- Sorting keeps the snapshots, and none is newer than one before it.
pub sort_snapshots_newest_first-IsSorted :
    (snaps : List Snapshot)
    → Perm (sort_snapshots_newest_first snaps) snaps
      × IsSorted snapshot_before_newest (sort_snapshots_newest_first snaps)
unfolding sort_snapshots_newest_first
sort_snapshots_newest_first-IsSorted snaps = (
  sort_stable-perm snapshot_before_newest snaps,
  sort_stable-IsSorted snapshot_before_newest snapshot_before_newest-order snaps,
)

abbrev time_of : Option Snapshot → ℕ
time_of none = 0
time_of (some s) = s.time

latest_time_from-max :
    (t : ℕ) (snaps : List Snapshot)
    → latest_time_from t snaps ≡ max t (time_of (first_of (sort_snapshots_newest_first snaps)))
unfolding latest_time_from sort_snapshots_newest_first sort_stable
latest_time_from-max t [] = omega arith
latest_time_from-max t (s ∷ snaps) =
    latest_time_from-max (if ltb t s.time then s.time else t) snaps
    ∙ rw (newer-first s (sort_stable snapshot_before_newest snaps))
        (newest t s (first_of (sort_stable snapshot_before_newest snaps)))
  where
    newest :
        (t : ℕ) (s : Snapshot) (o : Option Snapshot)
        → max (if ltb t s.time then s.time else t) (time_of o) ≡ max t (time_of (newer s o))
    newest t s none = ground arith
    newest t s (some b) = unfold snapshot_before_newest in ground arith

-- The latest time is that of the newest snapshot, and zero where there is none.
pub latest_snapshot_time-latest :
    (snaps : List Snapshot)
    → latest_snapshot_time snaps ≡ elim (latest_snapshot snaps) [ none ↦ 0 | some s ↦ s.time ]
unfolding latest_snapshot_time
latest_snapshot_time-latest snaps =
    latest_time_from-max 0 snaps
    ∙ rw (latest_snapshot-first snaps) (zero_max (first_of (sort_snapshots_newest_first snaps)))
  where
    zero_max : (o : Option Snapshot) → max 0 (time_of o) ≡ elim o [ none ↦ 0 | some s ↦ s.time ]
    zero_max none = omega arith
    zero_max (some s) = omega arith
