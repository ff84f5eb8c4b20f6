-- ===== src/Extract/Args.antt =====
-- The arguments of `restic restore`, internal/resticx/extract_tree.go: buildExtractTreeArgs, its
-- assertions and patterns, and what is scrubbed from restic's error text.
pub mod Literal
pub mod Patterns
pub mod Accepted
pub mod Composed
pub mod Restored
use resticscope.Prelude.{
  ℕ, zero, suc, ◌+◌, ◌-◌, Text, Bool, true, false, ◌&&◌, ◌||◌, not, Option, none, some, List, [],
  ◌∷◌, ◌++◌, codes, text_eq, has_prefix, length, leb, ◌==◌, if◌then◌else◌, Result, ok, err, ◌>>=◌,
  ◌>>◌, require,
}
use resticscope.Paths.{root, path_base, clean_browse_path}
use resticscope.Extract.{all_lower_hex, byte_len, contains_rune, behind}
use resticscope.Extract.Plan.{is_abs, ExtractTreeParams}

pub data ArgsError : Type 0 where
  invalid_snapshot_id invalid_source invalid_target invalid_include : ArgsError
  argv_include_overflow : ArgsError

abbrev pub snapshot_id_hex_len : ℕ
snapshot_id_hex_len = 64

-- `512 << 10`
abbrev pub max_argv_include_bytes : ℕ
max_argv_include_bytes = 524288

-- `len("--include") + 2`
abbrev pub argv_include_flag_overhead : ℕ
argv_include_flag_overhead = 11

unfoldable pub clean_snapshot_id : Text → Bool
unfolding byte_len all_lower_hex
clean_snapshot_id id = byte_len id == snapshot_id_hex_len && all_lower_hex id

unfoldable pub clean_source : Text → Bool
unfolding text_eq contains_rune clean_browse_path
clean_source src =
    text_eq src []
    || text_eq src root
    || (not (contains_rune 0 src) && text_eq src (clean_browse_path src))

unfoldable pub clean_include_path : Text → Bool
unfolding text_eq contains_rune has_prefix clean_browse_path
clean_include_path p =
    text_eq p []
    || (not (text_eq p root)
        && not (contains_rune 0 p)
        && has_prefix p root
        && text_eq p (clean_browse_path p))

-- The characters that restic's patterns treat in a special way.
unfoldable pub is_meta : ℕ → Bool
is_meta r = r == b'\\' || r == b'[' || r == b']' || r == b'*' || r == b'?'

unfoldable pub literal_include_pattern : Text → Text
unfolding is_meta
literal_include_pattern [] = []
literal_include_pattern (r ∷ p) =
    let rest = literal_include_pattern p in if is_meta r then b'\\' ∷ r ∷ rest else r ∷ rest

-- The validation loop over the include paths.
unfoldable pub check_include_paths : List Text → Result ArgsError (Unit {0})
unfolding text_eq clean_include_path
check_include_paths [] = ok tt
check_include_paths (inc ∷ incs) =
    require invalid_include (not (text_eq inc []) && clean_include_path inc)
    >> check_include_paths incs

unfoldable pub base_args : ExtractTreeParams → List Text
unfolding text_eq
base_args p =
    (if p.no_cache then codes "--no-lock" ∷ codes "--no-cache" ∷ [] else codes "--no-lock" ∷ [])
    ++ codes "restore"
      ∷ (if text_eq p.source [] || text_eq p.source root
          then p.snapshot_id
          else p.snapshot_id ++ b':' ∷ p.source)
      ∷ codes "--target"
      ∷ p.target
      ∷ codes "--overwrite"
      ∷ codes "never"
      ∷ codes "--json"
      ∷ []

-- The pattern file is named where there is one.
abbrev pub with_file : List Text → Text → List Text × Text
with_file args [] = (args, [])
with_file args (c ∷ t) = (args ++ codes "--include-file" ∷ codes "/dev/fd/4" ∷ [], c ∷ t)

-- `unicode.IsSpace` is a parameter.
module _ (is_space : ℕ → Bool) where
  unfoldable pub trim_left_space : Text → Text
  trim_left_space [] = []
  trim_left_space (c ∷ s) = elim (is_space c) [ true ↦ trim_left_space s | false ↦ c ∷ s ]

  unfoldable pub trim_right_space : Text → Text
  trim_right_space [] = []
  trim_right_space (c ∷ s) = elim (trim_right_space s) [
    | [] ↦ if is_space c then [] else c ∷ []
    | d ∷ r ↦ c ∷ d ∷ r
  ]

  -- `p == strings.TrimSpace(p)`, and none of `$`, line feed and carriage return.
  unfoldable pub file_safe_pattern : Text → Bool
  unfolding contains_rune text_eq trim_left_space trim_right_space
  file_safe_pattern p =
      not (contains_rune b'$' p)
      && not (contains_rune b'\n' p)
      && not (contains_rune b'\r' p)
      && text_eq p (trim_right_space (trim_left_space p))

  -- The loop over several include paths: the arguments, the bytes that they take, and the file.
  unfoldable pub add_includes :
      List Text → ℕ → Text → List Text → Result ArgsError (List Text × Text)
  unfolding literal_include_pattern file_safe_pattern byte_len
  add_includes args argv_bytes file [] = ok (args, file)
  add_includes args argv_bytes file (inc ∷ incs) =
      let pat = literal_include_pattern inc in
      elim (file_safe_pattern inc) [
        | true ↦ add_includes args argv_bytes (file ++ (pat ++ b'\n' ∷ [])) incs
        | false ↦
            require argv_include_overflow (
              leb (argv_bytes + (byte_len pat + argv_include_flag_overhead)) max_argv_include_bytes)
            >> add_includes (args ++ codes "--include" ∷ pat ∷ [])
                (argv_bytes + (byte_len pat + argv_include_flag_overhead)) file incs
      ]

  -- The arguments, and the patterns for descriptor 4.
  unfoldable pub with_includes : List Text → List Text → Result ArgsError (List Text × Text)
  unfolding literal_include_pattern add_includes
  with_includes args [] = ok (args, [])
  with_includes args (inc ∷ []) =
      ok (args ++ codes "--include" ∷ literal_include_pattern inc ∷ [], [])
  with_includes args (inc ∷ inc' ∷ incs) = do
    (args', file) ← add_includes args 0 [] (inc ∷ inc' ∷ incs)
    ok (with_file args' file)

  unfoldable pub build_extract_tree_args : ExtractTreeParams → Result ArgsError (List Text × Text)
  unfolding text_eq clean_snapshot_id clean_source check_include_paths is_abs base_args
      with_includes
  build_extract_tree_args p = do
    require invalid_snapshot_id (clean_snapshot_id p.snapshot_id)
    require invalid_source (clean_source p.source)
    check_include_paths p.include_paths
    require invalid_target (not (text_eq p.target []) && is_abs p.target)
    with_includes (base_args p) p.include_paths

-- `strings.ReplaceAll(s, frag, mask)` for a fragment that is not empty: `skip` characters of the
-- match that stands before are still to be passed.
unfoldable pub replace_from : Text → Text → ℕ → Text → Text
unfolding has_prefix
replace_from frag mask skip [] = []
replace_from frag mask zero (c ∷ s) = elim (has_prefix (c ∷ s) frag) [
  | true ↦ mask ++ replace_from frag mask (length frag - 1) s
  | false ↦ c ∷ replace_from frag mask zero s
]
replace_from frag mask (suc skip) (c ∷ s) = replace_from frag mask skip s

abbrev pub extract_path_mask : Text
extract_path_mask = codes "[path]"

unfoldable pub extract_path_fragments : Text → Text → List Text → List Text
unfolding text_eq path_base
extract_path_fragments src target includes =
    (if text_eq target [] then [] else target ∷ path_base target ∷ [])
    ++ ((if text_eq src [] || text_eq src root then [] else src ∷ path_base src ∷ [])
        ++ include_fragments includes)
  where
    include_fragments : List Text → List Text
    include_fragments [] = []
    include_fragments (inc ∷ incs) =
        (if text_eq inc [] || text_eq inc root then [] else inc ∷ path_base inc ∷ [])
        ++ include_fragments incs

-- The redaction of secrets is a parameter; `none` is a client without one.
unfoldable pub scrub_extract_stderr : Option (Text → Text) → Text → List Text → Text
unfolding contains_rune replace_from text_eq
scrub_extract_stderr redact stderr frags =
    let s = masked (elim redact [ none ↦ stderr | some f ↦ f stderr ]) frags in
    if contains_rune b'/' s then [] else s
  where
    masked : Text → List Text → Text
    masked s [] = s
    masked s (frag ∷ frags) =
        masked (if text_eq frag [] then s else replace_from frag extract_path_mask 0 s) frags
