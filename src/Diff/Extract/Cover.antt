-- ===== src/Diff/Extract/Cover.antt =====
-- Every path that counts for a side is restored: it is in that side's list, or a directory above it
-- is, whose restore takes all of its contents.
use resticscope.Prelude.{
  ℕ, zero, suc, ◌<◌, ◌≡◌, refl, Text, Bool, true, false, ◌&&◌, not, inl, inr, ◌⊎◌, List, [], ◌∷◌,
  Any, here, there, Any-impl, if◌then◌else◌, arith, Bool-cases, length, text_lt, lookup,
  sort_stable-Any,
}
use resticscope.Paths.{ancestors}
use resticscope.Paths.Chain.{ancestor_shorter, ancestors_trans}
use resticscope.Diff.Kinds.{
  ModifierKind, kind_added, kind_removed, kind_and, kind_or, kind_eq, nonzero,
}
use resticscope.Diff.Entry.{DiffEntry}
use resticscope.Diff.Extract.{
  diff_first_side_kinds, diff_second_side_kinds, root_or_default, Merged, nothing_merged,
  merged_kind, is_dir_at, is_merged, merge_entries, pure_dir, covered_in, covered, dir_non_pure,
  nothing_included, diff_extract_includes,
}
use resticscope.Diff.Extract.Merge.{
  kinds_of, dir_in, named_in, merge_entries-kind, merge_entries-dir, merge_entries-merged, Listed,
  merge_entries-Listed,
}
use resticscope.Diff.Extract.Sides.{
  Side, first_side, second_side, side_kinds, side_paths, counts, list_side, add_paths-sides,
}

-- The path itself, or a directory above it.
abbrev pub IsOrContains : Text → Text → Type 0
IsOrContains p q = (q ≡ p) ⊎ Any (λ a. a ≡ q) (ancestors p)

covered_in-found :
    (r : Text) (pure : Text → Bool) (chain : List Text)
    → covered_in r pure chain ≡ true
    → (a : Text) × (pure a ≡ true) × Any (λ q. q ≡ a) chain
unfolding covered_in
covered_in-found r pure [] h = cc
covered_in-found r pure (a ∷ chain) h = elim (Bool-cases (pure a)) [
  | inl e ↦ (a, e, here refl)
  | inr e ↦ let (b, k, m) = covered_in-found r pure chain (ground arith) in (b, k, there m)
]

module _ (r : Text) (side wanted filter : ModifierKind) (m : Merged) where
  mem-list_side :
      (p : Text) (ps : List Text)
      → counts side filter m p ≡ true
      → covered r (pure_dir wanted filter m) p ≡ false
      → Any (λ q. q ≡ p) ps
      → Any (λ q. q ≡ p) (list_side r side wanted filter m ps)
  mem-list_side p [] h k a = elim a [ ]
  mem-list_side p (q ∷ ps) h k (here e) = rw (e, h, k) (here refl)
  mem-list_side p (q ∷ ps) h k (there a) =
      kept (counts side filter m q && not (covered r (pure_dir wanted filter m) q))
        (mem-list_side p ps h k a)
    where
      kept :
          (b : Bool) {xs : List Text}
          → Any (λ q. q ≡ p) xs
          → Any (λ q. q ≡ p) (if b then q ∷ xs else xs)
      kept true x = there x
      kept false x = x

  contains_above :
      (p b : Text) {xs : List Text}
      → Any (λ q. q ≡ b) (ancestors p)
      → Any (IsOrContains b) xs
      → Any (IsOrContains p) xs
  contains_above p b x a = Any-impl above a
    where
      above : (q : Text) → IsOrContains b q → IsOrContains p q
      above q (inl e) = inr (rw e x)
      above q (inr k) = inr (ancestors_trans (λ a. a ≡ q) (length p) p b (omega arith) x k)

  -- A directory that may cover others counts itself, and was met.
  module _
      (pure_counts : (a : Text) → pure_dir wanted filter m a ≡ true → counts side filter m a ≡ true)
      (ps : List Text)
      (pure_listed : (a : Text) → pure_dir wanted filter m a ≡ true → Any (λ q. q ≡ a) ps) where
    list_side-covers :
        (n : ℕ) (p : Text)
        → length p < n
        → counts side filter m p ≡ true
        → Any (λ q. q ≡ p) ps
        → Any (IsOrContains p) (list_side r side wanted filter m ps)
    list_side-covers zero p h c a = absurd (omega arith)
    list_side-covers (suc n) p h c a = elim (Bool-cases (covered r (pure_dir wanted filter m) p)) [
      | inr e ↦ Any-impl (λ q k. inl k) (mem-list_side p ps c e a)
      | inl e ↦
          let (b, k, x) = found e in
          contains_above p b x
            (list_side-covers n b (below b x) (pure_counts b k) (pure_listed b k))
    ]
      where
        found :
            covered r (pure_dir wanted filter m) p ≡ true
            → (b : Text) × (pure_dir wanted filter m b ≡ true) × Any (λ q. q ≡ b) (ancestors p)
        found e = unfold covered in covered_in-found r (pure_dir wanted filter m) (ancestors p) e

        below : (b : Text) → Any (λ q. q ≡ b) (ancestors p) → length b < n
        below b x = omega (arith, ancestor_shorter (length p) p b (omega arith) x)

kind_eq_lem : (k j : ModifierKind) → kind_eq k j ≡ true → k ≡ j
unfolding kind_eq
kind_eq_lem k j h = ground arith

side_nonzero :
    (filter : ModifierKind)
    → (nonzero (kind_and kind_removed filter)
        ≡ nonzero (kind_and (kind_and kind_removed filter) diff_first_side_kinds))
      × (nonzero (kind_and kind_added filter)
          ≡ nonzero (kind_and (kind_and kind_added filter) diff_second_side_kinds))
      × (kind_eq kind_added kind_added ≡ true)
      × (kind_eq kind_removed kind_removed ≡ true)
unfolding nonzero kind_and kind_eq
side_nonzero filter = ground arith

module _ (filter : ModifierKind) (m : Merged) (a : Text) where
  first-counts :
      pure_dir kind_removed filter m a ≡ true → counts diff_first_side_kinds filter m a ≡ true
  unfolding pure_dir dir_non_pure
  first-counts h =
      ground (arith, kind_eq_lem (merged_kind m a) kind_removed, (side_nonzero filter).0)

  second-counts :
      pure_dir kind_added filter m a ≡ true → counts diff_second_side_kinds filter m a ≡ true
  unfolding pure_dir dir_non_pure
  second-counts h =
      ground (arith, kind_eq_lem (merged_kind m a) kind_added, (side_nonzero filter).1)

  pure-merged : (wanted : ModifierKind) → pure_dir wanted filter m a ≡ true → is_merged m a ≡ true
  unfolding pure_dir
  pure-merged wanted h = ground arith

-- Whether a path with these kinds, a directory or not, is to be restored from a side: it shows a
-- kind of that side, and is not a directory with contents that did not change.
abbrev pub wanted_on : ModifierKind → ModifierKind → ModifierKind → Bool → Bool
wanted_on side filter k d =
    nonzero (kind_and k filter)
    && (not (d && (not (kind_eq k kind_added) && not (kind_eq k kind_removed)))
        && nonzero (kind_and (kind_and k filter) side))

module _ (entries : List DiffEntry) (r : Text) (filter : ModifierKind) where
  abbrev pub merged_of : Merged
  merged_of = merge_entries r nothing_merged entries

  pub merged_of-kind : (p : Text) → merged_kind merged_of p ≡ kinds_of r p entries
  unfolding merged_kind lookup kind_or
  merged_of-kind p = merge_entries-kind r p entries nothing_merged

  pub merged_of-dir : (p : Text) → is_dir_at merged_of p ≡ dir_in r p entries
  unfolding is_dir_at lookup
  merged_of-dir p = merge_entries-dir r p entries nothing_merged

  pub merged_of-named : (p : Text) → is_merged merged_of p ≡ named_in r p entries
  unfolding is_merged lookup
  merged_of-named p = merge_entries-merged r p entries nothing_merged

  pub merged_of-Listed : (p : Text) → Listed merged_of p
  merged_of-Listed p = merge_entries-Listed r p entries nothing_merged (nothing-Listed p)
    where
      nothing-Listed : (p : Text) → Listed nothing_merged p
      nothing-Listed p = unfold is_merged lookup in ((λ h. cc), (λ a. elim a [ ]))

  pub counts-wanted_on :
      (side : ModifierKind) (p : Text)
      → counts side filter merged_of p
        ≡ wanted_on side filter (kinds_of r p entries) (dir_in r p entries)
  unfolding dir_non_pure
  counts-wanted_on side p = rw (merged_of-kind p, merged_of-dir p)

module _ (entries : List DiffEntry) (given : Text) (filter : ModifierKind) where
  -- Whether the entries of a path want it restored from a side.
  abbrev pub asked : ModifierKind → Text → Bool
  asked side p =
      let r = root_or_default given in
      named_in r p entries && wanted_on side filter (kinds_of r p entries) (dir_in r p entries)

  module _ (side wanted : ModifierKind)
      (pure_counts : (m : Merged) (a : Text)
        → pure_dir wanted filter m a ≡ true
        → counts side filter m a ≡ true) where
    -- The list of one side, before sorting.
    listed_covers :
        (p : Text)
        → asked side p ≡ true
        → Any (IsOrContains p) (
            list_side
              (root_or_default given)
              side
              wanted
              filter
              (merged_of entries (root_or_default given) filter)
              (merged_of entries (root_or_default given) filter).order)
    listed_covers p h =
        let r = root_or_default given in
        let m = merged_of entries r filter in
        list_side-covers r side wanted filter m (pure_counts m) m.order
          (λ a k. (merged_of-Listed entries r filter a).0 (pure-merged filter m a wanted k))
          (suc (length p)) p (omega arith)
          (rw (counts-wanted_on entries r filter side p) (ground arith))
          ((merged_of-Listed entries r filter p).0
            (rw (merged_of-named entries r filter p) (ground arith)))

  -- Every path that the entries ask for from a side, at or under the chosen root and under the
  -- filter, is restored from that side: the side's list has the path or a directory above it.
  pub diff_extract_includes-covers :
      (side : Side) (p : Text)
      → asked (side_kinds side) p ≡ true
      → Any (IsOrContains p) (side_paths side (diff_extract_includes entries given filter))
  unfolding diff_extract_includes
  diff_extract_includes-covers first_side p h =
      let r = root_or_default given in
      let m = merged_of entries r filter in
      rw (add_paths-sides r filter m m.order nothing_included).0 (
        sort_stable-Any text_lt (IsOrContains p) _
          (listed_covers diff_first_side_kinds kind_removed (first-counts filter) p h))
  diff_extract_includes-covers second_side p h =
      let r = root_or_default given in
      let m = merged_of entries r filter in
      rw (add_paths-sides r filter m m.order nothing_included).1 (
        sort_stable-Any text_lt (IsOrContains p) _
          (listed_covers diff_second_side_kinds kind_added (second-counts filter) p h))
