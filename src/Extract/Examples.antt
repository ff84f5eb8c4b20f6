-- ===== src/Extract/Examples.antt =====
-- Extractions at concrete inputs, with a file system that is a list of paths.
use resticscope.Prelude.{
  ◌↔◌, ℕ, ◌==◌, ◌≤◌, Text, ◌≡◌, ◌≢◌, refl, ap, ◌∙◌, Bool, true, false, Option, none, some, List, [],
  ◌∷◌, ◌++◌, inl, inr, codes, text_eq, text_eq_iff, has_prefix, lookup, insert, lookup-insert,
  Assoc, All, Bool-cases, if◌then◌else◌, ok,
}
use resticscope.Extract.{
  ExtractRequest, extract_directory_tree, is_lower_hex, all_lower_hex, source_prefix,
}
use resticscope.Extract.Slug.{
  sanitize_extract_slug, slug_runes, trim_left_marks, is_slug_char, IsSlug,
  sanitize_extract_slug-IsSlug,
}
use resticscope.Extract.Plan.{plan_extract_paths, extract_tree_params}
use resticscope.Extract.Plain.{all_lower_hex-All}
use resticscope.Extract.Located.{IsLocated, plan_extract_paths-IsLocated}
use resticscope.Extract.Args.{
  build_extract_tree_args, with_includes, max_argv_include_bytes, literal_include_pattern,
}
use resticscope.Extract.Args.Literal.{Matches, literal_include_pattern-Matches}
use resticscope.Extract.Args.Patterns.{
  lines, in_file, on_argv, flags, file_flag, argv_bytes, with_includes-delivered,
}
use resticscope.Extract.Args.Restored.{
  BuildsOrOverflows, plan_extract_paths-build_extract_tree_args,
}
use resticscope.Extract.Publish.{
  ExtractResult, ExtractError, no_result, unsupported, NodeKind, directory, other, Stat, node,
  missing, OsError, exists, FileSystem, restored, summary, extract, run_extract_pipeline,
}
use resticscope.Extract.Publish.Laws.{IsOccupied, IsFileSystem, IsUnder, run_extract_pipeline-keeps}
use resticscope.Extract.Publish.Extracted.{Extracted, extract-Extracted}

slug_example_lem : sanitize_extract_slug (codes ".my repo!/x") ≡ some (codes "my-repo-x")
unfolding sanitize_extract_slug slug_runes trim_left_marks is_slug_char
slug_example_lem = refl

sanitize_extract_slug-IsSlug_example :
    IsSlug (codes "my-repo-x")
    × (sanitize_extract_slug (codes "my-repo-x") ≡ some (codes "my-repo-x"))
sanitize_extract_slug-IsSlug_example =
    sanitize_extract_slug-IsSlug (codes ".my repo!/x") (codes "my-repo-x") slug_example_lem

literal_include_pattern-Matches_example :
    Matches (λ body c. Unit) (literal_include_pattern (codes "/a[1]*")) (codes "/a1b")
    ↔ (codes "/a1b" ≡ codes "/a[1]*")
literal_include_pattern-Matches_example =
    literal_include_pattern-Matches (λ body c. Unit) (codes "/a[1]*") (codes "/a1b")

abbrev sha : Text → Text
sha s = codes "0123456789abcdef0123456789abcdef0123456789abcdef0123456789abcdef"

sha-hex : (s : Text) → All (λ c. is_lower_hex c ≡ true) (sha s)
unfolding all_lower_hex
sha-hex s = all_lower_hex-All (sha s) refl

abbrev request : ExtractRequest
request = record {
  repo = codes "home";
  snapshot_id = codes "89abcdef0123456789abcdef0123456789abcdef0123456789abcdef01234567";
  snapshot_short = codes "89abcdef";
  source = codes "/etc/ssh";
  source_name = codes "ssh";
  mode = extract_directory_tree;
  was_regular_file = false;
  target_root = [];
  diff_container = codes "diff-01234567-89abcdef";
  include_paths = codes "/etc/ssh/a" ∷ codes "/etc/ssh/b$" ∷ codes "/etc/ssh" ∷ [];
  privileged = false;
}

abbrev staging_of : Text
staging_of = codes "/out/home/.resticscope-staging-89abcdef-ssh-0123456789abcdef"

abbrev final_of : Text
final_of = codes "/out/home/diff-01234567-89abcdef/89abcdef/etc/ssh"

planned : plan_extract_paths sha (codes "/out") request ≡ ok (staging_of, final_of)
unfolding plan_extract_paths is_slug_char
planned = refl

plan_extract_paths-IsLocated_example : IsLocated sha (codes "/out") request staging_of final_of
plan_extract_paths-IsLocated_example =
    plan_extract_paths-IsLocated sha (codes "/out") request staging_of final_of sha-hex planned

abbrev is_space_char : ℕ → Bool
is_space_char c = c == b' '

plan_extract_paths-build_extract_tree_args_example :
    BuildsOrOverflows
      (build_extract_tree_args is_space_char (extract_tree_params request staging_of))
plan_extract_paths-build_extract_tree_args_example =
    plan_extract_paths-build_extract_tree_args is_space_char sha (codes "/out") request staging_of
      final_of sha-hex planned

abbrev two_ways : List Text
two_ways =
    codes "restore"
    ∷ codes "--include"
    ∷ codes "/b$"
    ∷ codes "--include-file"
    ∷ codes "/dev/fd/4"
    ∷ []

delivered :
    with_includes is_space_char (codes "restore" ∷ []) (codes "/a*" ∷ codes "/b$" ∷ [])
    ≡ ok (two_ways, codes "/a\\*\n")
unfolding with_includes
delivered = refl

with_includes-delivered_example :
    (lines (codes "/a\\*\n") ≡ in_file is_space_char (codes "/a*" ∷ codes "/b$" ∷ []))
    × (two_ways
        ≡ ((codes "restore" ∷ []) ++ flags (on_argv is_space_char (codes "/a*" ∷ codes "/b$" ∷ [])))
          ++ file_flag (codes "/a\\*\n"))
    × (argv_bytes (on_argv is_space_char (codes "/a*" ∷ codes "/b$" ∷ [])) ≤ max_argv_include_bytes)
with_includes-delivered_example =
    with_includes-delivered is_space_char (codes "restore" ∷ []) (codes "/a*") (codes "/b$") []
      two_ways (codes "/a\\*\n") delivered

-- A file system that is a list of the paths with a node; what is there stays.
abbrev Files : Type 0
Files = Assoc NodeKind

abbrev stat_of : Option NodeKind → Stat
stat_of none = missing
stat_of (some k) = node k

abbrev stat_in : Files → Text → Stat
stat_in s p = stat_of (lookup p s)

abbrev link_in : Files → Text → Option NodeKind → Files × Option OsError
link_in s to none = (insert to other s, none)
link_in s to (some k) = (s, some exists)

abbrev files : FileSystem Files
files = record {
  stat = stat_in;
  mkdir_all = λ s p. (insert p directory s, none);
  mkdir = λ s p. (insert p directory s, none);
  rename = λ s from to. (insert to directory s, none);
  link = λ s from to. link_in s to (lookup to s);
  remove = λ s p. s;
  restore = λ s params. (insert params.target directory s, (summary 3 500 ∷ [], restored));
  normalize = λ s p. (s, some (record { files = 2; dirs = 1; unsafe_symlinks = 0; other = 0 }));
}

insert-IsOccupied :
    (s : Files) (p q : Text) (k : NodeKind)
    → IsOccupied files s q
    → IsOccupied files (insert p k s) q
insert-IsOccupied s p q k o = elim (Bool-cases (text_eq p q)) [
  | inl e ↦ (k, ap stat_of (lookup-insert p q k s ∙ ap (λ b. if b then some k else lookup q s) e))
  | inr e ↦
      (o.0, ap stat_of (lookup-insert p q k s ∙ ap (λ b. if b then some k else lookup q s) e) ∙ o.1)
]

insert-puts : (s : Files) (p : Text) (k : NodeKind) → IsOccupied files (insert p k s) p
insert-puts s p k = (
  k,
  ap stat_of (
      lookup-insert p p k s
      ∙ ap (λ b. if b then some k else lookup p s) ((text_eq_iff p p).1 refl)),
)

link_in-refuses :
    (s : Files) (to : Text) (o : Option NodeKind) (k : NodeKind)
    → lookup to s ≡ o
    → stat_of o ≡ node k
    → IsOccupied files (link_in s to o).0 to × ((link_in s to o).1 ≢ none)
link_in-refuses s to none k h e = cc
link_in-refuses s to (some j) k h e = ((j, ap stat_of h), λ h. cc)

link_in-puts :
    (s : Files) (to : Text) (o : Option NodeKind)
    → (link_in s to o).1 ≡ none
    → IsOccupied files (link_in s to o).0 to
link_in-puts s to none h = insert-puts s to other
link_in-puts s to (some k) h = cc

files-IsFileSystem : IsFileSystem files
files-IsFileSystem = record {
  mkdir_all_keeps = λ s p q. insert-IsOccupied s p q directory;
  mkdir_keeps = λ s p q. insert-IsOccupied s p q directory;
  restore_keeps = λ s params q out. insert-IsOccupied s params.target q directory;
  normalize_keeps = λ s p q out o. o;
  remove_keeps = λ s p q apart o. o;
  link_refuses = λ s from to o. link_in-refuses s to (lookup to s) o.0 refl o.1;
  link_puts = λ s from to. link_in-puts s to (lookup to s);
  rename_puts = λ s from to h. insert-puts s to directory;
}

-- A helper that is never asked.
abbrev no_helper : ExtractRequest → Text → Files → Files × (ExtractResult × Option ExtractError)
no_helper req staging s = (s, (no_result, some unsupported))

abbrev taken : Files
taken = (final_of, directory) ∷ []

apart : ¬ IsUnder staging_of final_of
unfolding has_prefix source_prefix text_eq
apart (inl e) = let bad : false ≡ true = (text_eq_iff final_of staging_of).1 e in cc
apart (inr h) = cc

run_extract_pipeline-keeps_example :
    IsOccupied files (run_extract_pipeline files request staging_of final_of taken).0 final_of
    × ((run_extract_pipeline files request staging_of final_of taken).1.1 ≢ none)
run_extract_pipeline-keeps_example =
    run_extract_pipeline-keeps files files-IsFileSystem final_of request staging_of taken apart
      (directory, unfold lookup text_eq in refl)

succeeds : (extract files sha (codes "/out") true (λ r. true) no_helper request []).1.1 ≡ none
unfolding extract is_slug_char lookup insert
succeeds = refl

extract-Extracted_example :
    Extracted files files-IsFileSystem sha
      (codes "/out")
      request
      []
      (extract files sha (codes "/out") true (λ r. true) no_helper request [])
extract-Extracted_example =
    extract-Extracted files files-IsFileSystem sha (codes "/out") true (λ r. true) no_helper request
      [] refl sha-hex succeeds
