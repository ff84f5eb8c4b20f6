-- ===== src/BrowseSession/Progress.antt =====
-- The progress of browseProgressFunc, internal/app/browsesession.go.
use resticscope.Prelude.{
  ℕ, ◌+◌, ◌%◌, ◌≤◌, ◌≡◌, ◌||◌, ◌&&◌, true, false, List, [], ◌∷◌, arith, leb, ◌==◌, Bool-cases, inl,
  inr, ◌⊎◌,
}

abbrev pub browse_progress_check_every : ℕ
browse_progress_check_every = 2000

-- 250 ms in nanoseconds.
abbrev pub browse_progress_interval : ℕ
browse_progress_interval = 250000000

-- The counts that are reported with their times, of the clock's readings at the nodes to come:
-- `last` is the time of the last report, 0 for none, and `count` the nodes that were added.
unfoldable pub progress_reports : ℕ → ℕ → List ℕ → List (ℕ × ℕ)
progress_reports last count [] = []
progress_reports last count (now ∷ nows) =
    let c = count + 1 in
    elim (c % browse_progress_check_every == 0
      && (last == 0 || leb (last + browse_progress_interval) now)) [
        | true ↦ (c, now) ∷ progress_reports now c nows
        | false ↦ progress_reports last c nows
      ]

-- Every report is at a multiple of 2000 nodes, and not before the interval is over since `last`,
-- where there was a report before.
abbrev pub AreSpaced : ℕ → List (ℕ × ℕ) → Type 0
AreSpaced last [] = Unit
AreSpaced last (r ∷ rs) =
    (r.0 % browse_progress_check_every ≡ 0)
    × ((last ≡ 0) ⊎ (last + browse_progress_interval ≤ r.1))
    × AreSpaced r.1 rs

-- Progress is reported only at multiples of 2000 nodes, and never sooner than 250 ms behind the
-- report before, however the clock's readings come.
pub progress_reports-AreSpaced :
    (last count : ℕ) (nows : List ℕ) → AreSpaced last (progress_reports last count nows)
unfolding progress_reports
progress_reports-AreSpaced last count [] = tt
progress_reports-AreSpaced last count (now ∷ nows) =
    elim (Bool-cases (
      (count + 1) % browse_progress_check_every == 0
      && (last == 0 || leb (last + browse_progress_interval) now))) [
        | inl e ↦
            rw (e, AreSpaced, progress_reports)
              (ground arith, ground arith, progress_reports-AreSpaced now (count + 1) nows)
        | inr e ↦ rw (e, progress_reports) (progress_reports-AreSpaced last (count + 1) nows)
      ]
