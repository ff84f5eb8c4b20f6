-- ===== src/Diff/Entry.antt =====
-- Reading `restic diff --json`: `newDiffEntry`, `ScanDiffNDJSON` and `ParseDiffNDJSON` of
-- internal/model/diff.go. The lines that the scanner delivers are given with what `ctx.Err()` says
-- before each, and with what `json.Unmarshal` makes of their trimmed bytes.
pub mod Laws
pub mod Progress
use resticscope.Prelude.{
  ℕ, suc, ◌+◌, ◌%◌, Text, Bool, true, false, ◌&&◌, ◌||◌, not, Option, none, some, List, [], ◌∷◌,
  ◌++◌, ◌==◌, text_eq, has_prefix, codes, if◌then◌else◌,
}
use resticscope.Paths.{root, trim_right_slash}
use resticscope.Diff.Kinds.{ChangeType, ModifierKind, nonzero, parse_modifier}

pub record DiffEntry : Type 0 where
  pub path : Text
  pub modifier : Text
  pub type : ChangeType
  pub kinds : ModifierKind
  pub is_dir : Bool

-- `strings.HasSuffix(s, "/")`
unfoldable pub ends_in_slash : Text → Bool
ends_in_slash [] = false
ends_in_slash (c ∷ []) = c == b'/'
ends_in_slash (c ∷ d ∷ s) = ends_in_slash (d ∷ s)

-- The entry, and whether the modifier has an unknown marker.
unfoldable pub new_diff_entry : Text → Text → DiffEntry × Bool
new_diff_entry raw_path modifier =
    let dir = ends_in_slash raw_path in
    let clean =
      if dir && not (text_eq raw_path root) then trim_right_slash raw_path else raw_path in
    let (primary, kinds, unknown) = parse_modifier modifier in
    (
      record { path = clean; modifier = modifier; type = primary; kinds = kinds; is_dir = dir },
      unknown,
    )

-- The envelope of one line.
pub record ChangeMsg : Type 0 where
  pub message_type : Text
  pub path : Text
  pub modifier : Text

-- What the loop meets at one line: `ctx.Err()`, whether the trimmed line is empty, and what
-- `json.Unmarshal` returns (`none` is its error).
pub record ScanLine (E : Type 0) : Type 0 where
  pub ctx_err : Option E
  pub blank : Bool
  pub decoded : Option ChangeMsg

pub record SnapshotDiff : Type 0 where
  pub entries : List DiffEntry
  pub parse_errors : ℕ

abbrev pub no_diff : SnapshotDiff
no_diff = record { entries = []; parse_errors = 0 }

-- What one decoded line is: skipped, malformed, or an entry.
pub data LineResult : Type 0 where
  skip malformed : LineResult
  entry : DiffEntry → LineResult

unfoldable pub read_change : ChangeMsg → LineResult
read_change env =
    if not (text_eq env.message_type (codes "change"))
    then skip
    else if text_eq env.path []
        || (text_eq env.path root || (text_eq env.modifier [] || not (has_prefix env.path root)))
    then malformed
    else (let (e, unknown_modifier) = new_diff_entry env.path env.modifier in
        if unknown_modifier || not (nonzero e.kinds) then malformed else entry e)

unfoldable pub read_line : {E : Type 0} → ScanLine E → LineResult
read_line l =
    if l.blank then skip else elim l.decoded [ none ↦ malformed | some env ↦ read_change env ]

-- The variables of the loop: the result, the count, the numbers that `onProgress` was called with,
-- in order, and the state of the caller that `onEntry` changes.
pub record Scan (C : Type 0) : Type 0 where
  pub out : SnapshotDiff
  pub seen : ℕ
  pub progress : List ℕ
  pub caller : C

abbrev pub diff_progress_every : ℕ
diff_progress_every = 256

module _ {C : Type 0} where
  abbrev pub start : C → Scan C
  start c = record { out = no_diff; seen = 0; progress = []; caller = c }

  unfoldable pub add_error : Scan C → Scan C
  add_error s = record s { out = record s.out { parse_errors = s.out.parse_errors + 1 } }

  -- Behind the entry: `seen++`, and `onProgress` at each multiple of `diffProgressEvery`.
  unfoldable pub count_seen : Scan C → Scan C
  count_seen s =
      let n = s.seen + 1 in
      record s {
        seen = n;
        progress = if n % diff_progress_every == 0 then s.progress ++ n ∷ [] else s.progress;
      }

-- `onEntry`, which may change what its caller holds and returns an error or nil.
abbrev pub OnEntry : Type 0 → Type 0 → Type 0
OnEntry C E = DiffEntry → C → C × Option E

module _ {C E : Type 0} where
  -- An early return with an error, or what follows.
  abbrev pub and_then : Scan C × Option E → (Scan C → Scan C × Option E) → Scan C × Option E
  and_then (s, some err) next = (s, some err)
  and_then (s, none) next = next s

  -- Without `onEntry` the entry is appended to `out`.
  unfoldable pub take_entry : Option (OnEntry C E) → DiffEntry → Scan C → Scan C × Option E
  take_entry none e s =
      (count_seen (record s { out = record s.out { entries = s.out.entries ++ e ∷ [] } }), none)
  take_entry (some on_entry) e s =
      let (c, err) = on_entry e s.caller in
      and_then (record s { caller = c }, err) (λ s'. (count_seen s', none))

  unfoldable pub take_line : Option (OnEntry C E) → LineResult → Scan C → Scan C × Option E
  take_line on_entry skip s = (s, none)
  take_line on_entry malformed s = (add_error s, none)
  take_line on_entry (entry e) s = take_entry on_entry e s

  -- One round of the loop: the state, and the error that it returns with.
  unfoldable pub scan_line : Option (OnEntry C E) → ScanLine E → Scan C → Scan C × Option E
  scan_line on_entry l s = and_then (s, l.ctx_err) (take_line on_entry (read_line l))

  unfoldable pub scan_lines : Option (OnEntry C E) → List (ScanLine E) → Scan C → Scan C × Option E
  scan_lines on_entry [] s = (s, none)
  scan_lines on_entry (l ∷ ls) s = and_then (scan_line on_entry l s) (scan_lines on_entry ls)

  -- Behind the loop: `scanner.Err()`, `ctx.Err()`, and the last call of `onProgress`.
  unfoldable pub finish : Option E → Option E → Scan C → Scan C × Option E
  finish (some err) ctx_err s = (s, some err)
  finish none (some err) s = (s, some err)
  finish none none s = (
    record s {
      progress =
          if s.seen % diff_progress_every == 0 then s.progress else s.progress ++ s.seen ∷ [];
    },
    none,
  )

  unfoldable pub scan_diff :
      Option (OnEntry C E)
      → List (ScanLine E)
      → (scan_err ctx_err : Option E) → C
      → Scan C × Option E
  scan_diff on_entry ls scan_err ctx_err c =
      and_then (scan_lines on_entry ls (start c)) (finish scan_err ctx_err)

-- The closure of `ParseDiffNDJSON`, which appends to its own slice.
abbrev pub collect : {E : Type 0} → OnEntry (List DiffEntry) E
collect e entries = (entries ++ e ∷ [], none)

-- `ParseDiffNDJSON`: the background context has no error.
unfoldable pub parse_diff : {E : Type 0} → List (ScanLine E) → Option E → SnapshotDiff × Option E
parse_diff ls scan_err =
    let (s, err) = scan_diff (some collect) ls scan_err none [] in
    elim err [ some e ↦ (s.out, some e) | none ↦ (record s.out { entries = s.caller }, none) ]
