-- ===== src/ResticErrors.antt =====
-- How restic's failures are classified: internal/resticx/errors.go, the events and the end of a
-- restore in internal/resticx/extract_tree.go, and the codes by which the root helper passes errors on
-- (internal/app/extract_helper.go and internal/app/extract_privileged.go).
pub mod Kinds
pub mod Codes
mod Examples
use resticscope.Prelude.{
  ℕ, Text, Bool, true, false, ◌||◌, Option, none, some, List, [], ◌∷◌, ◌++◌, codes, text_eq, ◌==◌,
  if◌then◌else◌,
}

pub data ErrorKind : Type 0 where
  unknown repo_not_found locked wrong_password binary_missing : ErrorKind
  timeout parse canceled partial : ErrorKind

-- `wrapped` is the text of the wrapped error.
pub record Error : Type 0 where
  pub kind : ErrorKind
  pub op : Text
  pub code : ℕ
  pub stderr : Text
  pub wrapped : Text

-- `ctx.Err()`
pub data CtxErr : Type 0 where
  live cancelled deadline : CtxErr

-- What `errors.Is` and `errors.As` tell of a process error, and its text.
pub record RunErr : Type 0 where
  pub not_found : Bool
  pub exit_code : Option ℕ
  pub text : Text

unfoldable pub kind_of_code : ℕ → ErrorKind
kind_of_code code =
    if code == 10
    then repo_not_found
    else if code == 11
    then locked
    else if code == 12
    then wrong_password
    else unknown

unfoldable pub classify_run : Text → RunErr → Text → Error
unfolding kind_of_code
classify_run op e stderr =
    if e.not_found
    then record { kind = binary_missing; op = op; code = 0; stderr = []; wrapped = e.text }
    else elim e.exit_code [
      | some c ↦ record {
        kind = kind_of_code c;
        op = op;
        code = c;
        stderr = stderr;
        wrapped = e.text;
      }
      | none ↦ record { kind = unknown; op = op; code = 0; stderr = stderr; wrapped = e.text }
    ]

-- The redaction is a parameter; `none` is a client without one.
unfoldable pub classify : Option (Text → Text) → CtxErr → Text → RunErr → Text → Error
unfolding classify_run
classify redact ctx op e stderr =
    let redacted : Text = elim redact [ none ↦ stderr | some f ↦ f stderr ] in
    elim ctx [
      | cancelled ↦ record {
        kind = canceled;
        op = op;
        code = 0;
        stderr = [];
        wrapped = codes "context canceled";
      }
      | deadline ↦ record { kind = timeout; op = op; code = 0; stderr = redacted; wrapped = e.text }
      | live ↦ classify_run op e redacted
    ]

-- `Error()`
unfoldable pub error_text : Error → Text
unfolding text_eq
error_text e = elim e.kind [
  | repo_not_found ↦ codes "restic " ++ (e.op ++ codes ": repository does not exist (exit 10)")
  | locked ↦ codes "restic " ++ (e.op ++ codes ": repository is locked (exit 11)")
  | wrong_password ↦ codes "restic " ++ (e.op ++ codes ": wrong password (exit 12)")
  | binary_missing ↦ codes "restic binary not found on PATH"
  | timeout ↦ codes "restic " ++ (e.op ++ codes ": timed out")
  | parse ↦ codes "restic " ++ (e.op ++ (codes ": could not parse JSON output: " ++ e.wrapped))
  | canceled ↦ codes "restic " ++ (e.op ++ codes ": canceled")
  | partial ↦ codes "restic " ++ (e.op ++ codes ": completed with errors")
  | unknown ↦
      if text_eq e.stderr []
      then codes "restic " ++ (e.op ++ (codes " failed: " ++ e.wrapped))
      else codes "restic "
        ++ (e.op
            ++ (codes " failed: "
                ++ (e.wrapped ++ (codes " (stderr: " ++ (e.stderr ++ codes ")")))))
]

-- `message_type`, and an event's kind.
unfoldable pub to_event : Text → Option ℕ
unfolding text_eq
to_event message_type =
    if text_eq message_type (codes "status")
    then some 0
    else if text_eq message_type (codes "summary")
    then some 1
    else if text_eq message_type (codes "error")
    then some 2
    else none

pub record ExtractTreeStream : Type 0 where
  pub cb_err : Bool
  pub decode_err : Bool
  pub saw_summary : Bool
  pub saw_error : Bool

abbrev pub new_stream : ExtractTreeStream
new_stream = record { cb_err = false; decode_err = false; saw_summary = false; saw_error = false }

-- A decoded message with its type and whether the callback accepts it, or a text that is not JSON.
pub data Line : Type 0 where
  message : Text → Bool → Line
  malformed : Line

abbrev pub seen : ExtractTreeStream → ℕ → ExtractTreeStream
seen s k = record s { saw_summary = k == 1 || s.saw_summary; saw_error = k == 2 || s.saw_error }

-- The decoding loop; the end of the list is the end of the stream.
unfoldable pub consume : ExtractTreeStream → List Line → ExtractTreeStream
unfolding to_event
consume s [] = s
consume s (malformed ∷ lines) = record s { decode_err = true }
consume s (message t accepted ∷ lines) = elim (to_event t) [
  | none ↦ consume s lines
  | some k ↦ elim accepted [
    | true ↦ consume (seen s k) lines
    | false ↦ record (seen s k) { cb_err = true }
  ]
]

pub data RestoreEnd : Type 0 where
  restored : RestoreEnd
  context_canceled : RestoreEnd
  callback_error : RestoreEnd
  failed_with : Error → RestoreEnd

abbrev partial_error : ℕ → Error
partial_error c = record {
  kind = partial;
  op = codes "restore";
  code = c;
  stderr = [];
  wrapped = [];
}

-- The switch at the end of `ExtractTree`; `run` is the runner's error, if it has one, `wrapped` the
-- text of the decoding error, and `stderr` already scrubbed.
unfoldable pub restore_end :
    Option (Text → Text) → CtxErr → ExtractTreeStream → Option RunErr → Text → Text → RestoreEnd
unfolding classify
restore_end redact cancelled s run wrapped stderr = context_canceled
restore_end redact deadline s run wrapped stderr = failed_with (
    classify redact deadline (codes "restore")
      (elim run [
        | none ↦ record { not_found = false; exit_code = none; text = codes "<nil>" }
        | some e ↦ e
      ])
      stderr)
restore_end redact live s run wrapped stderr =
    if s.cb_err
    then callback_error
    else if s.decode_err
    then failed_with
        (record { kind = parse; op = codes "restore"; code = 0; stderr = []; wrapped = wrapped })
    else elim run [
      | none ↦ if s.saw_error then failed_with (partial_error 0) else restored
      | some e ↦
          if s.saw_summary
          then failed_with (partial_error (elim e.exit_code [ none ↦ 0 | some c ↦ c ]))
          else failed_with (classify redact live (codes "restore") e stderr)
    ]
