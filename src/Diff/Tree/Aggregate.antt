-- ===== src/Diff/Tree/Aggregate.antt =====
-- The counts of a directory are those of the changed paths under it.
use resticscope.Prelude.{
  ℕ, ◌≡◌, refl, ◌∙◌, ap, Text, inl, inr, List, [], ◌∷◌, arith, Bool-cases, text_eq, text_eq_iff,
  lookup, insert, lookup-insert, if◌then◌else◌, Assoc, length,
}
use resticscope.Paths.{ancestors}
use resticscope.Paths.Chain.{elem, IsDecreasing, ancestors-IsDecreasing, not-elem}
use resticscope.Diff.Kinds.{ModifierKind, DiffStats, no_stats, add_kinds}
use resticscope.Diff.Entry.{DiffEntry}
use resticscope.Diff.Tree.{
  PathKinds, no_paths, kinds_at, merge_paths, stats_at, count_ancestors, count_paths,
  build_diff_tree,
}
use resticscope.Diff.Tree.Specs.{all_kinds, new_paths, merged_paths}

-- The counts of the paths that have a directory among their ancestors, each path once with all of
-- its kinds.
abbrev pub counts_under : Text → List DiffEntry → List Text → DiffStats → DiffStats
counts_under d es [] s = s
counts_under d es (p ∷ ps) s =
    counts_under d es ps (if elem d (ancestors p) then add_kinds s (all_kinds p es) else s)

stats_at-insert :
    (a d : Text) (s : DiffStats) (agg : Assoc DiffStats)
    → stats_at (insert a s agg) d ≡ (if text_eq a d then s else stats_at agg d)
unfolding stats_at
stats_at-insert a d s agg = ground (arith, lookup-insert a d s agg)

count_ancestors-elem :
    (d : Text) (k : ModifierKind) (n : ℕ) (chain : List Text) (agg : Assoc DiffStats)
    → IsDecreasing n chain
    → stats_at (count_ancestors k chain agg) d
      ≡ (if elem d chain then add_kinds (stats_at agg d) k else stats_at agg d)
unfolding count_ancestors
count_ancestors-elem d k n [] agg h = refl
count_ancestors-elem d k n (a ∷ chain) agg h =
    count_ancestors-elem d k (length a) chain (insert a (add_kinds (stats_at agg a) k) agg) h.1
    ∙ rw (stats_at-insert a d (add_kinds (stats_at agg a) k) agg) (elim (Bool-cases (text_eq a d)) [
      | inl e ↦
          let q = (text_eq_iff a d).0 e in
          let same : length a ≡ length d = ap length q in
          rw (e, not-elem d (length a) chain h.1 (omega (arith, same)))
            (ap (λ t. add_kinds (stats_at agg t) k) q)
      | inr e ↦ rw e refl
    ])

count_paths-under :
    (d : Text) (es : List DiffEntry) (m : PathKinds) (ps : List Text) (agg : Assoc DiffStats)
    → ((p : Text) → kinds_at m p ≡ all_kinds p es)
    → stats_at (count_paths m ps agg) d ≡ counts_under d es ps (stats_at agg d)
unfolding count_paths
count_paths-under d es m [] agg h = refl
count_paths-under d es m (p ∷ ps) agg h =
    count_paths-under d es m ps (count_ancestors (kinds_at m p) (ancestors p) agg) h
    ∙ ap (counts_under d es ps) (
        count_ancestors-elem d (kinds_at m p) (length p) (ancestors p) agg
          (ancestors-IsDecreasing p)
        ∙ ap (λ k. if elem d (ancestors p) then add_kinds (stats_at agg d) k else stats_at agg d)
            (h p))

-- The counts that the tree has for a directory are those of the distinct changed paths below it, at
-- any depth: each path once, with all the kinds that its entries give it.
pub build_diff_tree-counts_under :
    (entries : List DiffEntry) (d : Text)
    → stats_at (build_diff_tree entries).aggregate d
      ≡ counts_under d entries (new_paths [] entries) no_stats
unfolding build_diff_tree
build_diff_tree-counts_under entries d =
    let m = merged_paths entries in
    count_paths-under d entries (merge_paths no_paths entries) (merge_paths no_paths entries).order
      [] m.1
    ∙ rw m.0 (ap (counts_under d entries (new_paths [] entries)) empty_stats)
  where
    empty_stats : stats_at [] d ≡ no_stats
    empty_stats = unfold stats_at lookup in refl
