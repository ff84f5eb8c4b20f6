-- ===== src/Diff/Entry/Progress.antt =====
-- What `onProgress` is told by the scan of a diff.
use resticscope.Prelude.{
  ℕ, zero, suc, ◌+◌, ◌%◌, ◌≡◌, refl, Option, none, some, List, [], ◌∷◌, ◌++◌, ◌==◌, if◌then◌else◌,
  arith,
}
use resticscope.Diff.Entry.{
  DiffEntry, ScanLine, LineResult, skip, malformed, entry, read_line, OnEntry, Scan, start,
  diff_progress_every, add_error, count_seen, take_entry, scan_line, and_then, take_line,
  scan_lines, finish, scan_diff,
}

-- The multiples of `diff_progress_every` up to a count, in order.
abbrev milestones : ℕ → List ℕ
milestones zero = []
milestones (suc n) =
    if (n + 1) % diff_progress_every == 0 then milestones n ++ (n + 1) ∷ [] else milestones n

module _ {C : Type 0} where
  abbrev Told : Scan C → Type 0
  Told s = s.progress ≡ milestones s.seen

  count_seen-Told : (s : Scan C) → Told s → Told (count_seen s)
  unfolding count_seen
  count_seen-Told s h = ground arith

module _ {C E : Type 0} where
  and_then-Told :
      (r : Scan C × Option E) (next : Scan C → Scan C × Option E)
      → Told r.0
      → ((s : Scan C) → Told s → Told (next s).0)
      → Told (and_then r next).0
  and_then-Told (s, some e) next h k = h
  and_then-Told (s, none) next h k = k s h

  take_entry-Told :
      (on_entry : Option (OnEntry C E)) (e : DiffEntry) (s : Scan C)
      → Told s
      → Told (take_entry on_entry e s).0
  unfolding take_entry
  take_entry-Told none e s h = count_seen-Told _ h
  take_entry-Told (some f) e s h =
      and_then-Told (record s { caller = (f e s.caller).0 }, (f e s.caller).1) _ h count_seen-Told

module _ {C E : Type 0} (on_entry : Option (OnEntry C E)) where
  take_line-Told : (r : LineResult) (s : Scan C) → Told s → Told (take_line on_entry r s).0
  unfolding take_line
  take_line-Told skip s h = h
  take_line-Told malformed s h = unfold add_error in h
  take_line-Told (entry e) s h = take_entry-Told on_entry e s h

  scan_lines-Told :
      (ls : List (ScanLine E)) (s : Scan C) → Told s → Told (scan_lines on_entry ls s).0
  unfolding scan_lines scan_line
  scan_lines-Told [] s h = h
  scan_lines-Told (l ∷ ls) s h =
      and_then-Told (scan_line on_entry l s) (scan_lines on_entry ls)
        (and_then-Told (s, l.ctx_err) (take_line on_entry (read_line l)) h
          (take_line-Told (read_line l)))
        (scan_lines-Told ls)

-- The calls of `onProgress` at an error and at the end.
abbrev pub told : {C E : Type 0} → Scan C × Option E → List ℕ
told (s, some e) = milestones s.seen
told (s, none) =
    if s.seen % diff_progress_every == 0
    then milestones s.seen
    else milestones s.seen ++ s.seen ∷ []

finish-told :
    {C E : Type 0} (scan_err ctx_err : Option E) (s : Scan C)
    → Told s
    → (finish scan_err ctx_err s).0.progress ≡ told (finish scan_err ctx_err s)
unfolding finish
finish-told (some e) ctx_err s h = h
finish-told none (some e) s h = h
finish-told none none s h = rw h

ended-told :
    {C E : Type 0} (scan_err ctx_err : Option E) (r : Scan C × Option E)
    → Told r.0
    → (and_then r (finish scan_err ctx_err)).0.progress
      ≡ told (and_then r (finish scan_err ctx_err))
ended-told scan_err ctx_err (s, some e) h = h
ended-told scan_err ctx_err (s, none) h = finish-told scan_err ctx_err s h

-- Progress is reported at each multiple of 256 entries, in order and once; a scan that ends without
-- an error reports its last count too, unless that is such a multiple, and one that ends with an
-- error reports nothing more.
pub scan_diff-told :
    {C E : Type 0} (on_entry : Option (OnEntry C E)) (ls : List (ScanLine E))
    (scan_err ctx_err : Option E) (c : C)
    → (scan_diff on_entry ls scan_err ctx_err c).0.progress
      ≡ told (scan_diff on_entry ls scan_err ctx_err c)
unfolding scan_diff
scan_diff-told on_entry ls scan_err ctx_err c =
    ended-told scan_err ctx_err (scan_lines on_entry ls (start c))
      (scan_lines-Told on_entry ls (start c) refl)
