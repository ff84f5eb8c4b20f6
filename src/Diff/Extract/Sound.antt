-- ===== src/Diff/Extract/Sound.antt =====
-- Nothing else is restored: each listed path is asked for, no directory that is restored whole
-- stands above it, the lists are in order, and the counts are of the paths before collapsing.
use resticscope.Prelude.{
  ◌≤◌, ◌≡◌, refl, Text, Bool, true, false, ◌&&◌, not, List, [], ◌∷◌, Any, here, there,
  if◌then◌else◌, arith, length, text_lt, Any-sort_stable, IsSorted, sort_stable-IsSorted,
  text_lt-order, length-sort_stable,
}
use resticscope.Diff.Kinds.{ModifierKind, kind_added, kind_removed}
use resticscope.Diff.Entry.{DiffEntry}
use resticscope.Diff.Extract.{
  diff_first_side_kinds, diff_second_side_kinds, root_or_default, Merged, pure_dir, covered,
  nothing_included, diff_extract_includes,
}
use resticscope.Diff.Extract.Sides.{
  Side, first_side, second_side, side_kinds, pure_kind, side_paths, side_count, counts, count_side,
  list_side, add_paths-sides,
}
use resticscope.Diff.Extract.Cover.{
  merged_of, merged_of-named, merged_of-Listed, counts-wanted_on, asked,
}

module _ (r : Text) (side wanted filter : ModifierKind) (m : Merged) where
  -- A listed path counts, is not covered, and was met.
  list_side-mem :
      (p : Text) (ps : List Text)
      → Any (λ q. q ≡ p) (list_side r side wanted filter m ps)
      → (counts side filter m p ≡ true)
        × (covered r (pure_dir wanted filter m) p ≡ false)
        × Any (λ q. q ≡ p) ps
  list_side-mem p [] a = elim a [ ]
  list_side-mem p (q ∷ ps) a =
      by_test (counts side filter m q) (covered r (pure_dir wanted filter m) q) refl refl a
        (λ b. list_side-mem p ps b)
    where
      by_test :
          (c d : Bool)
          → counts side filter m q ≡ c
          → covered r (pure_dir wanted filter m) q ≡ d
          → Any
              (λ q. q ≡ p)
              (if c && not d
                then q ∷ list_side r side wanted filter m ps
                else list_side r side wanted filter m ps)
          → (Any (λ q. q ≡ p) (list_side r side wanted filter m ps)
              → (counts side filter m p ≡ true)
                × (covered r (pure_dir wanted filter m) p ≡ false)
                × Any (λ q. q ≡ p) ps)
          → (counts side filter m p ≡ true)
            × (covered r (pure_dir wanted filter m) p ≡ false)
            × Any (λ q. q ≡ p) (q ∷ ps)
      by_test true false h k (here e) f = (rw e at h, rw e at k, here e)
      by_test true false h k (there b) f = let (x, y, z) = f b in (x, y, there z)
      by_test true true h k b f = let (x, y, z) = f b in (x, y, there z)
      by_test false d h k b f = let (x, y, z) = f b in (x, y, there z)

  length-list_side :
      (ps : List Text) → length (list_side r side wanted filter m ps) ≤ count_side side filter m ps
  length-list_side [] = omega arith
  length-list_side (p ∷ ps) = ground (arith, length-list_side ps)

module _ (entries : List DiffEntry) (given : Text) (filter : ModifierKind) where
  abbrev pub met : Merged
  met = merged_of entries (root_or_default given) filter

  listed_sound :
      (side wanted : ModifierKind) (p : Text)
      → Any (λ q. q ≡ p) (list_side (root_or_default given) side wanted filter met met.order)
      → (asked entries given filter side p ≡ true)
        × (covered (root_or_default given) (pure_dir wanted filter met) p ≡ false)
  listed_sound side wanted p a =
      let r = root_or_default given in
      let (c, d, e) = list_side-mem r side wanted filter met p met.order a in
      (
        ground (
          arith,
          counts-wanted_on entries r filter side p,
          merged_of-named entries r filter p,
          (merged_of-Listed entries r filter p).1 e,
        ),
        d,
      )

  -- A listed path is one that the entries ask for from that side, and no directory above it, up to
  -- the chosen root, is restored whole from that side.
  pub diff_extract_includes_sound :
      (side : Side) (p : Text)
      → Any (λ q. q ≡ p) (side_paths side (diff_extract_includes entries given filter))
      → (asked entries given filter (side_kinds side) p ≡ true)
        × (covered (root_or_default given) (pure_dir (pure_kind side) filter met) p ≡ false)
  unfolding diff_extract_includes
  diff_extract_includes_sound first_side p a =
      let sides = add_paths-sides (root_or_default given) filter met met.order nothing_included in
      listed_sound diff_first_side_kinds kind_removed p
        (rw sides.0 at (Any-sort_stable text_lt (λ q. q ≡ p) _ a))
  diff_extract_includes_sound second_side p a =
      let sides = add_paths-sides (root_or_default given) filter met met.order nothing_included in
      listed_sound diff_second_side_kinds kind_added p
        (rw sides.1 at (Any-sort_stable text_lt (λ q. q ≡ p) _ a))

  -- The list of a side is in increasing order, and its count is at least the number of the paths
  -- listed.
  pub diff_extract_includes-IsSorted :
      (side : Side)
      → IsSorted text_lt (side_paths side (diff_extract_includes entries given filter))
        × (length (side_paths side (diff_extract_includes entries given filter))
            ≤ side_count side (diff_extract_includes entries given filter))
  unfolding diff_extract_includes
  diff_extract_includes-IsSorted first_side =
      let r = root_or_default given in
      let sides = add_paths-sides r filter met met.order nothing_included in
      (
        sort_stable-IsSorted text_lt text_lt-order _,
        rw (length-sort_stable, sides.0, sides.2)
            (omega
              (arith, length-list_side r diff_first_side_kinds kind_removed filter met met.order)),
      )
  diff_extract_includes-IsSorted second_side =
      let r = root_or_default given in
      let sides = add_paths-sides r filter met met.order nothing_included in
      (
        sort_stable-IsSorted text_lt text_lt-order _,
        rw (length-sort_stable, sides.1, sides.3)
            (omega
              (arith, length-list_side r diff_second_side_kinds kind_added filter met met.order)),
      )
