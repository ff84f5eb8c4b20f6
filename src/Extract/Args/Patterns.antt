-- ===== src/Extract/Args/Patterns.antt =====
-- Each include path reaches restic once and as a literal: on the command line within its budget, or
-- as a line of the pattern file.
use resticscope.Prelude.{
  ℕ, ◌+◌, ◌≤◌, Text, ◌≡◌, refl, ap, sym, ◌∙◌, Bool, true, false, inl, inr, List, [], ◌∷◌, ◌++◌,
  codes, arith, ◌==◌, leb, All, append_assoc, append-nil, Bool-cases, if◌then◌else◌, Result, ok,
  err, require-ok, >>=-ok,
}
use resticscope.Paths.{cons_head}
use resticscope.Extract.{byte_len}
use resticscope.Extract.Plain.{contains_rune-All}
use resticscope.Extract.Args.{
  ArgsError, argv_include_overflow, is_meta, literal_include_pattern, file_safe_pattern,
  add_includes, with_file, with_includes, max_argv_include_bytes, argv_include_flag_overhead,
}

-- The lines of a text, each ended by a line feed.
abbrev pub lines : Text → List Text
lines [] = []
lines (c ∷ s) = if c == b'\n' then [] ∷ lines s else cons_head c (lines s)

lines-append :
    (p s : Text) → All (λ c. (c == b'\n') ≡ false) p → lines (p ++ b'\n' ∷ s) ≡ p ∷ lines s
unfolding cons_head
lines-append [] s h = refl
lines-append (c ∷ p) s h = rw (h.0, lines-append p s h.1) refl

pattern-All :
    (p : Text)
    → All (λ c. (c == b'\n') ≡ false) p
    → All (λ c. (c == b'\n') ≡ false) (literal_include_pattern p)
unfolding literal_include_pattern
pattern-All [] h = tt
pattern-All (r ∷ p) h = elim (Bool-cases (is_meta r)) [
  | inl e ↦ rw (e, All) (refl, (h.0, pattern-All p h.1))
  | inr e ↦ rw (e, All) (h.0, pattern-All p h.1)
]

module _ (is_space : ℕ → Bool) where
  -- The include paths that go into the file, and those that stay on the command line.
  abbrev pub in_file : List Text → List Text
  in_file [] = []
  in_file (inc ∷ incs) =
      if file_safe_pattern is_space inc
      then literal_include_pattern inc ∷ in_file incs
      else in_file incs

  abbrev pub on_argv : List Text → List Text
  on_argv [] = []
  on_argv (inc ∷ incs) =
      if file_safe_pattern is_space inc
      then on_argv incs
      else literal_include_pattern inc ∷ on_argv incs

  file_safe-All :
      (p : Text) → file_safe_pattern is_space p ≡ true → All (λ c. (c == b'\n') ≡ false) p
  unfolding file_safe_pattern
  file_safe-All p h = contains_rune-All b'\n' p (ground arith)

-- `--include` in front of each pattern, and the bytes that this takes.
abbrev pub flags : List Text → List Text
flags [] = []
flags (p ∷ ps) = codes "--include" ∷ p ∷ flags ps

abbrev pub argv_bytes : List Text → ℕ
argv_bytes [] = 0
argv_bytes (p ∷ ps) = (byte_len p + argv_include_flag_overhead) + argv_bytes ps

abbrev pub file_of : List Text → Text
file_of [] = []
file_of (p ∷ ps) = p ++ b'\n' ∷ file_of ps

abbrev pub file_flag : Text → List Text
file_flag [] = []
file_flag (c ∷ t) = codes "--include-file" ∷ codes "/dev/fd/4" ∷ []

by_file :
    (a : List Text) (f : Text) {r : List Text × Text}
    → with_file a f ≡ r
    → (r.0 ≡ a ++ file_flag r.1) × (r.1 ≡ f)
by_file a [] h = rw (sym h) (sym (append-nil a), refl)
by_file a (c ∷ t) h = rw (sym h) (refl, refl)

module _ (is_space : ℕ → Bool) where
  abbrev Added : List Text → ℕ → Text → List Text → List Text × Text → Type 0
  Added args bytes file incs r =
      (r.0 ≡ args ++ flags (on_argv is_space incs))
      × (r.1 ≡ file ++ file_of (in_file is_space incs))
      × (bytes ≤ max_argv_include_bytes
          → bytes + argv_bytes (on_argv is_space incs) ≤ max_argv_include_bytes)

  add_includes_lem :
      (args : List Text) (bytes : ℕ) (file : Text) (incs : List Text) (r : List Text × Text)
      → add_includes is_space args bytes file incs ≡ ok r
      → Added args bytes file incs r
  unfolding add_includes
  add_includes_lem args bytes file [] r h = (
    ap (λ x. first x r.0) (sym h) ∙ sym (append-nil args),
    ap (λ x. second x r.1) (sym h) ∙ sym (append-nil file),
    λ b. omega arith,
  )
    where
      first : Result ArgsError (List Text × Text) → List Text → List Text
      first (ok x) d = x.0
      first (err e) d = d

      second : Result ArgsError (List Text × Text) → Text → Text
      second (ok x) d = x.1
      second (err e) d = d
  add_includes_lem args bytes file (inc ∷ incs) r h =
      elim (Bool-cases (file_safe_pattern is_space inc)) [
        | inl e ↦
            let pat = literal_include_pattern inc in
            let (at_args, at_file, within) =
              add_includes_lem args bytes (file ++ (pat ++ b'\n' ∷ [])) incs r
                (rw (e, add_includes) at h) in
            rw e (
              at_args,
              at_file
                  ∙ append_assoc file (pat ++ b'\n' ∷ []) (file_of (in_file is_space incs))
                  ∙ ap (λ t. file ++ t)
                      (append_assoc pat (b'\n' ∷ []) (file_of (in_file is_space incs))),
              within,
            )
        | inr e ↦
            let pat = literal_include_pattern inc in
            let bytes' = bytes + (byte_len pat + argv_include_flag_overhead) in
            let (fits, k) =
              require-ok argv_include_overflow (leb bytes' max_argv_include_bytes)
                (add_includes is_space (args ++ codes "--include" ∷ pat ∷ []) bytes' file incs)
                (rw (e, add_includes) at h) in
            let (at_args, at_file, within) =
              add_includes_lem (args ++ codes "--include" ∷ pat ∷ []) bytes' file incs r k in
            rw e (
              at_args
                  ∙ append_assoc args (codes "--include" ∷ pat ∷ [])
                      (flags (on_argv is_space incs)),
              at_file,
              λ b. ground (arith, fits, within),
            )
      ]

  lines-file_of :
      (incs : List Text) → lines (file_of (in_file is_space incs)) ≡ in_file is_space incs
  lines-file_of [] = refl
  lines-file_of (inc ∷ incs) = elim (Bool-cases (file_safe_pattern is_space inc)) [
    | inl e ↦ rw e (
        lines-append (literal_include_pattern inc) (file_of (in_file is_space incs))
          (pattern-All inc (file_safe-All is_space inc e))
        ∙ ap (λ l. literal_include_pattern inc ∷ l) (lines-file_of incs))
    | inr e ↦ rw e (lines-file_of incs)
  ]

  -- With several include paths, those that a pattern file can carry are its lines in their order,
  -- the others are arguments in their order and take at most 512 KiB, and the file is named
  -- exactly where it has lines.
  pub with_includes-delivered :
      (args : List Text) (inc inc' : Text) (incs : List Text) (args' : List Text) (file : Text)
      → with_includes is_space args (inc ∷ inc' ∷ incs) ≡ ok (args', file)
      → (lines file ≡ in_file is_space (inc ∷ inc' ∷ incs))
        × (args' ≡ (args ++ flags (on_argv is_space (inc ∷ inc' ∷ incs))) ++ file_flag file)
        × (argv_bytes (on_argv is_space (inc ∷ inc' ∷ incs)) ≤ max_argv_include_bytes)
  unfolding with_includes
  with_includes-delivered args inc inc' incs args' file h =
      let all = inc ∷ inc' ∷ incs in
      let (r, added, e) = >>=-ok (add_includes is_space args 0 [] all) _ h in
      let (at_args, at_file, within) = add_includes_lem args 0 [] all r added in
      let (same_args, same_file) = split r.0 r.1 e in
      (
        ap lines (same_file ∙ at_file) ∙ lines-file_of all,
        same_args ∙ ap (λ a. a ++ file_flag file) at_args,
        omega (arith, within),
      )
    where
      split :
          (a : List Text) (f : Text)
          → ◌≡◌ {A = Result ArgsError (List Text × Text)} (ok (with_file a f)) (ok (args', file))
          → (args' ≡ a ++ file_flag file) × (file ≡ f)
      split a f e =
          let same : ◌≡◌ {A = List Text × Text} (with_file a f) (args', file) = cc in
          by_file a f same
