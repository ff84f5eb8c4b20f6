-- ===== src/ResticErrors/Kinds.antt =====
-- The kind decides what an error shows, and a restore without an error was complete.
use resticscope.Prelude.{
  Text, ◌≡◌, ◌↔◌, refl, Bool, true, false, ◌&&◌, not, Option, none, some, List, [], ◌∷◌, ◌==◌, inl,
  inr, ◌⊎◌, arith, Option-cases, Bool-cases, All,
}
use resticscope.ResticErrors.{
  ErrorKind, unknown, repo_not_found, locked, wrong_password, binary_missing, timeout, parse,
  canceled, partial, Error, CtxErr, live, cancelled, deadline, RunErr, error_text, to_event,
  ExtractTreeStream, new_stream, Line, message, malformed, seen, consume, restored, restore_end,
}

-- The text of an error depends on restic's error output for the unknown kind alone.
pub error_text-stderr :
    (e : Error) (stderr : Text)
    → (e.kind ≡ unknown) ⊎ (error_text (record e { stderr = stderr }) ≡ error_text e)
unfolding error_text
error_text-stderr e stderr = at e.kind refl
  where
    at :
        (k : ErrorKind)
        → e.kind ≡ k
        → (e.kind ≡ unknown) ⊎ (error_text (record e { stderr = stderr }) ≡ error_text e)
    at unknown h = inl h
    at repo_not_found h = inr (rw (h, error_text) refl)
    at locked h = inr (rw (h, error_text) refl)
    at wrong_password h = inr (rw (h, error_text) refl)
    at binary_missing h = inr (rw (h, error_text) refl)
    at timeout h = inr (rw (h, error_text) refl)
    at parse h = inr (rw (h, error_text) refl)
    at canceled h = inr (rw (h, error_text) refl)
    at partial h = inr (rw (h, error_text) refl)

-- A line of a complete restore: JSON, and where its type is known, accepted and no error record.
abbrev pub fine : Line → Bool
fine malformed = false
fine (message t accepted) = elim (to_event t) [ none ↦ true | some k ↦ accepted && not (k == 2) ]

abbrev IsClear : ExtractTreeStream → Type 0
IsClear s = (s.cb_err ≡ false) × (s.decode_err ≡ false) × (s.saw_error ≡ false)

consume-IsClear :
    (s : ExtractTreeStream) (lines : List Line)
    → IsClear (consume s lines) ↔ (IsClear s × All (λ l. fine l ≡ true) lines)
unfolding consume
consume-IsClear s [] = (λ h. (h, tt), λ h. h.0)
consume-IsClear s (malformed ∷ lines) = ground arith
consume-IsClear s (message t a ∷ lines) = elim (Option-cases (to_event t)) [
  | inl e ↦ rw (e, fine, All, consume) (ground (arith, consume-IsClear s lines))
  | inr (k, e) ↦ elim (Bool-cases a) [
    | inl b ↦ rw (e, b, fine, All, consume) (ground (arith, consume-IsClear (seen s k) lines))
    | inr b ↦ rw (e, b, fine, All, consume) (ground arith)
  ]
]

restore_end-live :
    (redact : Option (Text → Text)) (ctx : CtxErr) (s : ExtractTreeStream) (run : Option RunErr)
    (wrapped stderr : Text)
    → (restore_end redact ctx s run wrapped stderr ≡ restored)
      ↔ ((ctx ≡ live) × (run ≡ none) × IsClear s)
unfolding restore_end
restore_end-live redact live s run wrapped stderr = ground arith
restore_end-live redact cancelled s run wrapped stderr = ground arith
restore_end-live redact deadline s run wrapped stderr = ground arith

-- The restore reports success exactly where the context is live, the runner has no error, and every
-- line of the stream is JSON and, where its type is known, accepted by the caller and no error.
pub restore_end-restored :
    (redact : Option (Text → Text)) (ctx : CtxErr) (lines : List Line) (run : Option RunErr)
    (wrapped stderr : Text)
    → (restore_end redact ctx (consume new_stream lines) run wrapped stderr ≡ restored)
      ↔ ((ctx ≡ live) × (run ≡ none) × All (λ l. fine l ≡ true) lines)
restore_end-restored redact ctx lines run wrapped stderr = ground (
  arith,
  restore_end-live redact ctx (consume new_stream lines) run wrapped stderr,
  consume-IsClear new_stream lines,
)
