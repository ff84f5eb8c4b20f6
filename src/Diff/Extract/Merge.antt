-- ===== src/Diff/Extract/Merge.antt =====
-- What the first loop of `DiffExtractIncludes` knows of a path, against the entries themselves.
use resticscope.Prelude.{
  ◌≡◌, refl, sym, ◌∙◌, Text, Bool, true, false, ◌&&◌, ◌||◌, inl, inr, ◌⊎◌, List, [], ◌∷◌, ◌++◌,
  text_eq, text_eq_iff, lookup-insert, Any, here, there, Any-append_left, Any-append_right,
  Any-append, if◌then◌else◌, arith, Bool-cases,
}
use resticscope.Diff.Kinds.{ModifierKind, no_kinds, kind_or}
use resticscope.Diff.Kinds.Laws.{kind_or_assoc, kind_or-no_kinds}
use resticscope.Diff.Entry.{DiffEntry}
use resticscope.Diff.Extract.{
  is_under, Merged, merged_kind, is_dir_at, is_merged, merge_entry, merge_entries,
}

module _ (r : Text) where
  -- Whether an entry is one of a path under the root.
  abbrev pub names : Text → DiffEntry → Bool
  names p e = is_under r e.path && text_eq e.path p

  -- All the kinds that the entries give a path.
  abbrev pub kinds_of : Text → List DiffEntry → ModifierKind
  kinds_of p [] = no_kinds
  kinds_of p (e ∷ es) = if names p e then kind_or e.kinds (kinds_of p es) else kinds_of p es

  -- Whether some entry makes the path a directory.
  abbrev pub dir_in : Text → List DiffEntry → Bool
  dir_in p [] = false
  dir_in p (e ∷ es) = names p e && e.is_dir || dir_in p es

  -- Whether some entry has the path.
  abbrev pub named_in : Text → List DiffEntry → Bool
  named_in p [] = false
  named_in p (e ∷ es) = names p e || named_in p es

  merge_entry-kind :
      (m : Merged) (e : DiffEntry) (p : Text)
      → merged_kind (merge_entry r m e) p
        ≡ (if names p e then kind_or (merged_kind m p) e.kinds else merged_kind m p)
  unfolding merge_entry merged_kind
  merge_entry-kind m e p = ground (
    arith,
    text_eq_iff e.path p,
    lookup-insert e.path p (kind_or (merged_kind m e.path) e.kinds) m.kinds,
  )

  merge_entry-dir :
      (m : Merged) (e : DiffEntry) (p : Text)
      → is_dir_at (merge_entry r m e) p ≡ is_dir_at m p || (names p e && e.is_dir)
  unfolding merge_entry is_dir_at
  merge_entry-dir m e p = ground (arith, text_eq_iff e.path p, lookup-insert e.path p true m.dirs)

  merge_entry-merged :
      (m : Merged) (e : DiffEntry) (p : Text)
      → is_merged (merge_entry r m e) p ≡ is_merged m p || names p e
  unfolding merge_entry is_merged
  merge_entry-merged m e p = ground (
    arith,
    text_eq_iff e.path p,
    lookup-insert e.path p (kind_or (merged_kind m e.path) e.kinds) m.kinds,
  )

or_assoc : (a b c : Bool) → ((a || b) || c) ≡ (a || (b || c))
or_assoc a b c = ground arith

or_false : (a : Bool) → (a || false) ≡ a
or_false a = ground arith

module _ (r p : Text) where
  pub merge_entries-kind :
      (es : List DiffEntry) (m : Merged)
      → merged_kind (merge_entries r m es) p ≡ kind_or (merged_kind m p) (kinds_of r p es)
  unfolding merge_entries
  merge_entries-kind [] m = sym (kind_or-no_kinds (merged_kind m p))
  merge_entries-kind (e ∷ es) m =
      merge_entries-kind es (merge_entry r m e)
      ∙ rw (merge_entry-kind r m e p) (elim (Bool-cases (names r p e)) [
        | inl h ↦ rw h (kind_or_assoc (merged_kind m p) e.kinds (kinds_of r p es))
        | inr h ↦ rw h refl
      ])

  pub merge_entries-dir :
      (es : List DiffEntry) (m : Merged)
      → is_dir_at (merge_entries r m es) p ≡ is_dir_at m p || dir_in r p es
  unfolding merge_entries
  merge_entries-dir [] m = sym (or_false (is_dir_at m p))
  merge_entries-dir (e ∷ es) m =
      merge_entries-dir es (merge_entry r m e)
      ∙ rw (merge_entry-dir r m e p)
          (or_assoc (is_dir_at m p) (names r p e && e.is_dir) (dir_in r p es))

  pub merge_entries-merged :
      (es : List DiffEntry) (m : Merged)
      → is_merged (merge_entries r m es) p ≡ is_merged m p || named_in r p es
  unfolding merge_entries
  merge_entries-merged [] m = sym (or_false (is_merged m p))
  merge_entries-merged (e ∷ es) m =
      merge_entries-merged es (merge_entry r m e)
      ∙ rw (merge_entry-merged r m e p) (or_assoc (is_merged m p) (names r p e) (named_in r p es))

-- The paths that were met are those in `order`.
abbrev pub Listed : Merged → Text → Type 0
Listed m p =
    (is_merged m p ≡ true → Any (λ q. q ≡ p) m.order)
    × (Any (λ q. q ≡ p) m.order → is_merged m p ≡ true)

order_cases :
    (r : Text) (m : Merged) (e : DiffEntry)
    → (((merge_entry r m e).order ≡ m.order)
        × ((is_under r e.path ≡ false) ⊎ (is_merged m e.path ≡ true)))
      ⊎ (((merge_entry r m e).order ≡ m.order ++ e.path ∷ []) × (is_under r e.path ≡ true))
unfolding merge_entry
order_cases r m e = ground arith

merge_entry-Listed :
    (r p : Text) (m : Merged) (e : DiffEntry) → Listed m p → Listed (merge_entry r m e) p
merge_entry-Listed r p m e h = elim (order_cases r m e) [
  | inl (same, k) ↦ (
    (λ t. rw same (h.0 (ground (arith, merge_entry-merged r m e p, text_eq_iff e.path p, k)))),
    (λ a. rw (merge_entry-merged r m e p) (rw (h.1 (rw same at a)) refl)),
  )
  | inr (longer, u) ↦ (
    (λ t. rw longer (elim (Bool-cases (is_merged m p)) [
      | inl old ↦ Any-append_left (e.path ∷ []) (h.0 old)
      | inr new ↦
          Any-append_right m.order
            (here (ground (arith, merge_entry-merged r m e p, text_eq_iff e.path p)))
    ])),
    (λ a.
        rw (merge_entry-merged r m e p) (elim (Any-append m.order (e.path ∷ []) (rw longer at a)) [
          | inl old ↦ rw (h.1 old) refl
          | inr last ↦ ground (arith, text_eq_iff e.path p, only last)
        ])),
  )
]
  where
    only : Any (λ q. q ≡ p) (e.path ∷ []) → e.path ≡ p
    only (here q) = q
    only (there a) = elim a [ ]

pub merge_entries-Listed :
    (r p : Text) (es : List DiffEntry) (m : Merged) → Listed m p → Listed (merge_entries r m es) p
unfolding merge_entries
merge_entries-Listed r p [] m h = h
merge_entries-Listed r p (e ∷ es) m h =
    merge_entries-Listed r p es (merge_entry r m e) (merge_entry-Listed r p m e h)
