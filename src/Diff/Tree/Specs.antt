-- ===== src/Diff/Tree/Specs.antt =====
-- What the maps of `BuildDiffTree` hold, said of the list of entries alone.
use resticscope.Prelude.{
  ◌≡◌, refl, sym, ◌∙◌, Text, ◌||◌, inl, inr, List, [], ◌∷◌, ◌++◌, append-nil, append_assoc, arith,
  Bool-cases, text_eq, text_eq_iff, lookup, lookup-insert, if◌then◌else◌,
}
use resticscope.Paths.Chain.{elem}
use resticscope.Diff.Kinds.{ModifierKind, no_kinds, kind_or}
use resticscope.Diff.Kinds.Laws.{kind_or_assoc, kind_or-no_kinds}
use resticscope.Diff.Entry.{DiffEntry}
use resticscope.Diff.Tree.{PathKinds, no_paths, kinds_at, has_kinds, merge_path, merge_paths}

-- All the kinds that the entries give a path.
abbrev pub all_kinds : Text → List DiffEntry → ModifierKind
all_kinds p [] = no_kinds
all_kinds p (e ∷ es) = if text_eq e.path p then kind_or e.kinds (all_kinds p es) else all_kinds p es

-- The paths of the entries that are not in `seen`, each once, in the order of first occurrence.
abbrev pub new_paths : List Text → List DiffEntry → List Text
new_paths seen [] = []
new_paths seen (e ∷ es) =
    if elem e.path seen then new_paths seen es else e.path ∷ new_paths (seen ++ e.path ∷ []) es

module _ (p : Text) where
  merge_path-kinds :
      (m : PathKinds) (e : DiffEntry)
      → kinds_at (merge_path m e) p
        ≡ (if text_eq e.path p then kind_or (kinds_at m p) e.kinds else kinds_at m p)
  unfolding merge_path kinds_at
  merge_path-kinds m e = ground (
    arith,
    text_eq_iff e.path p,
    lookup-insert e.path p (kind_or (kinds_at m e.path) e.kinds) m.merged,
  )

  pub merge_paths-kinds :
      (es : List DiffEntry) (m : PathKinds)
      → kinds_at (merge_paths m es) p ≡ kind_or (kinds_at m p) (all_kinds p es)
  unfolding merge_paths
  merge_paths-kinds [] m = sym (kind_or-no_kinds (kinds_at m p))
  merge_paths-kinds (e ∷ es) m =
      merge_paths-kinds es (merge_path m e)
      ∙ rw (merge_path-kinds m e) (elim (Bool-cases (text_eq e.path p)) [
        | inl h ↦ rw h (kind_or_assoc (kinds_at m p) e.kinds (all_kinds p es))
        | inr h ↦ rw h refl
      ])

-- The keys of the map are the paths of the list.
abbrev Keyed : PathKinds → Type 0
Keyed m = (p : Text) → has_kinds m p ≡ elem p m.order

elem-append : (p q : Text) (xs : List Text) → elem p (xs ++ q ∷ []) ≡ elem p xs || text_eq q p
elem-append p q [] = ground arith
elem-append p q (x ∷ xs) = ground (arith, elem-append p q xs)

merge_path-Keyed : (m : PathKinds) (e : DiffEntry) → Keyed m → Keyed (merge_path m e)
unfolding merge_path has_kinds
merge_path-Keyed m e h p = ground (
  arith,
  text_eq_iff e.path p,
  lookup-insert e.path p (kind_or (kinds_at m e.path) e.kinds) m.merged,
  elem-append p e.path m.order,
  h p,
  h e.path,
)

merge_path-order :
    (m : PathKinds) (e : DiffEntry)
    → Keyed m
    → (merge_path m e).order ≡ (if elem e.path m.order then m.order else m.order ++ e.path ∷ [])
unfolding merge_path
merge_path-order m e h = rw (h e.path)

merge_paths-order :
    (es : List DiffEntry) (m : PathKinds)
    → Keyed m
    → (merge_paths m es).order ≡ m.order ++ new_paths m.order es
unfolding merge_paths
merge_paths-order [] m h = sym (append-nil m.order)
merge_paths-order (e ∷ es) m h =
    merge_paths-order es (merge_path m e) (merge_path-Keyed m e h)
    ∙ rw (merge_path-order m e h) (elim (Bool-cases (elem e.path m.order)) [
      | inl k ↦ rw k refl
      | inr k ↦ rw k (append_assoc m.order (e.path ∷ []) (new_paths (m.order ++ e.path ∷ []) es))
    ])

-- `mergedKinds` and `pathOrder` after the loop.
pub merged_paths :
    (es : List DiffEntry)
    → ((merge_paths no_paths es).order ≡ new_paths [] es)
      × ((p : Text) → kinds_at (merge_paths no_paths es) p ≡ all_kinds p es)
merged_paths es = (
  merge_paths-order es no_paths (λ p. unfold has_kinds lookup in refl),
  (λ p. merge_paths-kinds p es no_paths ∙ (unfold kinds_at lookup kind_or in refl)),
)
