-- ===== src/Diff/Extract/Sides.antt =====
-- The last loop of `DiffExtractIncludes`, one side at a time.
use resticscope.Prelude.{
  ℕ, suc, ◌+◌, ◌≡◌, sym, ◌∙◌, Text, Bool, ◌&&◌, not, List, [], ◌∷◌, ◌++◌, append-nil, append_assoc,
  if◌then◌else◌, arith,
}
use resticscope.Diff.Kinds.{ModifierKind, kind_added, kind_removed, kind_and, nonzero}
use resticscope.Diff.Extract.{
  DiffExtractSet, diff_first_side_kinds, diff_second_side_kinds, Merged, merged_kind, pure_dir,
  covered, dir_non_pure, add_path, add_paths,
}

-- The snapshots of a diff, and what `DiffExtractIncludes` uses and returns for each.
pub data Side : Type 0 where
  first_side second_side : Side

abbrev pub side_kinds : Side → ModifierKind
side_kinds first_side = diff_first_side_kinds
side_kinds second_side = diff_second_side_kinds

-- The kind of a directory that a side has and the other lacks.
abbrev pub pure_kind : Side → ModifierKind
pure_kind first_side = kind_removed
pure_kind second_side = kind_added

abbrev pub side_paths : Side → DiffExtractSet → List Text
side_paths first_side out = out.first
side_paths second_side out = out.second

abbrev pub side_count : Side → DiffExtractSet → ℕ
side_count first_side out = out.first_count
side_count second_side out = out.second_count

-- Whether a path counts for a side: a kind of that side is shown, and it is no directory that would
-- restore unchanged contents.
abbrev pub counts : ModifierKind → ModifierKind → Merged → Text → Bool
counts side filter m p =
    nonzero (kind_and (merged_kind m p) filter)
    && (not (dir_non_pure m p) && nonzero (kind_and (kind_and (merged_kind m p) filter) side))

-- How many of the paths count.
abbrev pub count_side : ModifierKind → ModifierKind → Merged → List Text → ℕ
count_side side filter m [] = 0
count_side side filter m (p ∷ ps) =
    if counts side filter m p
    then suc (count_side side filter m ps)
    else count_side side filter m ps

-- Those that count and that no pure directory covers.
abbrev pub list_side : Text → (side wanted filter : ModifierKind) → Merged → List Text → List Text
list_side r side wanted filter m [] = []
list_side r side wanted filter m (p ∷ ps) =
    if counts side filter m p && not (covered r (pure_dir wanted filter m) p)
    then p ∷ list_side r side wanted filter m ps
    else list_side r side wanted filter m ps

module _ (r : Text) (filter : ModifierKind) (m : Merged) where
  abbrev firsts : List Text → List Text
  firsts = list_side r diff_first_side_kinds kind_removed filter m

  abbrev seconds : List Text → List Text
  seconds = list_side r diff_second_side_kinds kind_added filter m

  add_path-sides :
      (out : DiffExtractSet) (p : Text) (ps : List Text)
      → ((add_path r filter m out p).first ++ firsts ps ≡ out.first ++ firsts (p ∷ ps))
        × ((add_path r filter m out p).second ++ seconds ps ≡ out.second ++ seconds (p ∷ ps))
        × ((add_path r filter m out p).first_count + count_side diff_first_side_kinds filter m ps
            ≡ out.first_count + count_side diff_first_side_kinds filter m (p ∷ ps))
        × ((add_path r filter m out p).second_count + count_side diff_second_side_kinds filter m ps
            ≡ out.second_count + count_side diff_second_side_kinds filter m (p ∷ ps))
  unfolding add_path
  add_path-sides out p ps = ground (
    arith,
    append_assoc out.first (p ∷ []) (firsts ps),
    append_assoc out.second (p ∷ []) (seconds ps),
  )

  pub add_paths-sides :
      (ps : List Text) (out : DiffExtractSet)
      → ((add_paths r filter m out ps).first ≡ out.first ++ firsts ps)
        × ((add_paths r filter m out ps).second ≡ out.second ++ seconds ps)
        × ((add_paths r filter m out ps).first_count
            ≡ out.first_count + count_side diff_first_side_kinds filter m ps)
        × ((add_paths r filter m out ps).second_count
            ≡ out.second_count + count_side diff_second_side_kinds filter m ps)
  unfolding add_paths
  add_paths-sides [] out =
      (sym (append-nil out.first), sym (append-nil out.second), omega arith, omega arith)
  add_paths-sides (p ∷ ps) out =
      let ih = add_paths-sides ps (add_path r filter m out p) in
      let step = add_path-sides out p ps in
      (ih.0 ∙ step.0, ih.1 ∙ step.1, ih.2 ∙ step.2, ih.3 ∙ step.3)
