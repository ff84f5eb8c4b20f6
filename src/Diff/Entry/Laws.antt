-- ===== src/Diff/Entry/Laws.antt =====
-- What the scan of a diff returns, against a plain description by filtering.
use resticscope.Prelude.{
  ℕ, suc, ◌+◌, ◌≡◌, refl, sym, Text, true, false, ◌&&◌, not, none, some, inl, inr, ◌⊎◌, List, [],
  ◌∷◌, ◌++◌, append_assoc, append-nil, ◌==◌, text_eq, if◌then◌else◌, arith, All,
}
use resticscope.Paths.{root, trim_right_slash}
use resticscope.Diff.Kinds.{nonzero, primary_change_type, parse_modifier}
use resticscope.Diff.Entry.{
  DiffEntry, ends_in_slash, new_diff_entry, ChangeMsg, ScanLine, LineResult, skip, malformed, entry,
  read_change, read_line, Scan, start, count_seen, add_error, take_entry, take_line, scan_line,
  scan_lines, finish, scan_diff, collect, parse_diff,
}

LineResult-cases :
    (r : LineResult) → (r ≡ skip) ⊎ ((r ≡ malformed) ⊎ ((e : DiffEntry) × (r ≡ entry e)))
LineResult-cases skip = inl refl
LineResult-cases malformed = inr (inl refl)
LineResult-cases (entry e) = inr (inr (e, refl))

-- The entries among the lines, in order.
abbrev pub entries_of : {E : Type 0} → List (ScanLine E) → List DiffEntry
entries_of [] = []
entries_of (l ∷ ls) = elim (read_line l) [
  | skip ↦ entries_of ls
  | malformed ↦ entries_of ls
  | entry e ↦ e ∷ entries_of ls
]

-- How many of the lines are malformed.
abbrev pub malformed_in : {E : Type 0} → List (ScanLine E) → ℕ
malformed_in [] = 0
malformed_in (l ∷ ls) = elim (read_line l) [
  | skip ↦ malformed_in ls
  | malformed ↦ suc (malformed_in ls)
  | entry e ↦ malformed_in ls
]

-- No line finds the context cancelled.
abbrev pub Live : {E : Type 0} → List (ScanLine E) → Type 0
Live ls = All (λ l. l.ctx_err ≡ none) ls

abbrev collected : DiffEntry → Scan (List DiffEntry) → Scan (List DiffEntry)
collected e s = count_seen (record s { caller = s.caller ++ e ∷ [] })

-- The state after the lines, when nothing interrupts the scan.
abbrev Collects : {E : Type 0} → List (ScanLine E) → Scan (List DiffEntry) → Type 0
Collects ls s =
    ((scan_lines (some collect) ls s).1 ≡ none)
    × ((scan_lines (some collect) ls s).0.caller ≡ s.caller ++ entries_of ls)
    × ((scan_lines (some collect) ls s).0.out.parse_errors ≡ s.out.parse_errors + malformed_in ls)

module _ {E : Type 0} (l : ScanLine E) (ls : List (ScanLine E)) (s : Scan (List DiffEntry))
    (live : l.ctx_err ≡ none) where
  skip-Collects : read_line l ≡ skip → Collects ls s → Collects (l ∷ ls) s
  unfolding scan_lines scan_line take_line
  skip-Collects e h = ground arith

  malformed-Collects : read_line l ≡ malformed → Collects ls (add_error s) → Collects (l ∷ ls) s
  unfolding scan_lines scan_line take_line add_error
  malformed-Collects e h = ground arith

  entry-Collects :
      (x : DiffEntry) → read_line l ≡ entry x → Collects ls (collected x s) → Collects (l ∷ ls) s
  unfolding scan_lines scan_line take_line take_entry count_seen
  entry-Collects x e h = ground (arith, append_assoc s.caller (x ∷ []) (entries_of ls))

scan_lines-Collects :
    {E : Type 0} (ls : List (ScanLine E)) (s : Scan (List DiffEntry)) → Live ls → Collects ls s
scan_lines-Collects [] s h = unfold scan_lines in (refl, sym (append-nil s.caller), omega arith)
scan_lines-Collects (l ∷ ls) s h = elim (LineResult-cases (read_line l)) [
  | inl e ↦ skip-Collects l ls s h.0 e (scan_lines-Collects ls s h.1)
  | inr (inl e) ↦ malformed-Collects l ls s h.0 e (scan_lines-Collects ls (add_error s) h.1)
  | inr (inr (x, e)) ↦ entry-Collects l ls s h.0 x e (scan_lines-Collects ls (collected x s) h.1)
]

-- Parsing buffered output whose lines are all read returns the entries of the lines that are
-- well-formed changes, in their order, and the number of malformed lines.
pub parse_diff-entries_of :
    {E : Type 0} (ls : List (ScanLine E))
    → Live ls
    → parse_diff ls none
      ≡ (record { entries = entries_of ls; parse_errors = malformed_in ls }, none)
unfolding parse_diff scan_diff finish
parse_diff-entries_of ls h = ground (arith, scan_lines-Collects ls (start []) h)

-- An entry's mask and type are those of its markers, all of which are known, and its path is no
-- longer one with a slash at its end.
pub record IsEntry (e : DiffEntry) : Type 0 where
  pub some_kind : nonzero e.kinds ≡ true
  pub parsed : parse_modifier e.modifier ≡ (primary_change_type e.kinds, e.kinds, false)
  pub typed : e.type ≡ primary_change_type e.kinds
  pub no_slash : ends_in_slash e.path ≡ false

ends_in_slash-trim : (s : Text) → ends_in_slash (trim_right_slash s) ≡ false
unfolding trim_right_slash
ends_in_slash-trim [] = unfold ends_in_slash in refl
ends_in_slash-trim (c ∷ s) = kept (trim_right_slash s) (ends_in_slash-trim s)
  where
    kept :
        (r : Text)
        → ends_in_slash r ≡ false
        → ends_in_slash (elim r [ [] ↦ if c == b'/' then [] else c ∷ [] | d ∷ t ↦ c ∷ d ∷ t ])
          ≡ false
    kept [] h = unfold ends_in_slash in ground arith
    kept (d ∷ t) h = unfold ends_in_slash in h

primary-parse : (m : Text) → (parse_modifier m).0 ≡ primary_change_type (parse_modifier m).1
unfolding parse_modifier
primary-parse m = refl

-- The root is no change, so a path that keeps its slash has none at its end.
clean_path :
    (raw : Text)
    → text_eq raw root ≡ false
    → ends_in_slash
        (if ends_in_slash raw && not (text_eq raw root) then trim_right_slash raw else raw)
      ≡ false
clean_path raw h = ground (arith, ends_in_slash-trim raw)

-- What a well-formed change line gives is an entry with a known, non-empty mask, the primary type
-- of that mask, and a path that does not end in a slash.
pub read_change-IsEntry : (env : ChangeMsg) (e : DiffEntry) → read_change env ≡ entry e → IsEntry e
read_change-IsEntry env e h = record {
  some_kind = unfold read_change new_diff_entry in ground arith;
  parsed = unfold read_change new_diff_entry in ground (arith, primary-parse env.modifier);
  typed = unfold read_change new_diff_entry in ground (arith, primary-parse env.modifier);
  no_slash = unfold read_change new_diff_entry in ground (arith, clean_path env.path);
}
