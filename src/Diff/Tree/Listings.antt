-- ===== src/Diff/Tree/Listings.antt =====
-- The rows of the tree: each changed path has one with all of its kinds, and stands in the listing
-- of its directory, up to the root.
use resticscope.Prelude.{
  ◌≡◌, refl, sym, ◌∙◌, ap, Text, Bool, true, false, ◌||◌, none, some, inl, inr, ◌⊎◌, List, [], ◌∷◌,
  ◌++◌, arith, Bool-cases, Option-cases, text_eq, text_eq_iff, lookup, insert, lookup-insert,
  if◌then◌else◌, Assoc, Any, here, Any-append_left, Any-append_right, All,
}
use resticscope.Paths.{ancestors, diff_parent_of}
use resticscope.Paths.Chain.{elem, elem_trans}
use resticscope.Diff.Kinds.{ChangeType, ModifierKind, no_kinds, kind_or}
use resticscope.Diff.Kinds.Laws.{kind_or_assoc, kind_or-no_kinds, no_kinds-kind_or}
use resticscope.Diff.Entry.{DiffEntry}
use resticscope.Diff.Tree.{
  DiffRow, Rows, no_rows, upgrade_row, new_row, children_at, ensure, ensure_ancestors, ensure_entry,
  ensure_entries,
}
use resticscope.Diff.Tree.Specs.{all_kinds}

-- The kinds of a path's row, none where it has no row.
abbrev pub row_kinds : Rows → Text → ModifierKind
row_kinds s p = elim (lookup p s.rows) [ none ↦ no_kinds | some row ↦ row.kinds ]

abbrev pub has_row : Rows → Text → Bool
has_row s p = elim (lookup p s.rows) [ none ↦ false | some row ↦ true ]

-- Whether the listing of a directory has a path.
abbrev pub IsListed : Rows → Text → Type 0
IsListed s p = Any (λ q. q ≡ p) (children_at s.children (diff_parent_of p))

children_at-insert :
    (p q : Text) (ps : List Text) (m : Assoc (List Text))
    → children_at (insert p ps m) q ≡ (if text_eq p q then ps else children_at m q)
unfolding children_at
children_at-insert p q ps m = ground (arith, lookup-insert p q ps m)

module _ (p : Text) (d : Bool) (t : ChangeType) (k : ModifierKind) (text : Text) (s : Rows) where
  ensure_cases :
      ((r : DiffRow) × (lookup p s.rows ≡ some r)
        × ((ensure p d t k text s).rows ≡ insert p (upgrade_row r d t k text) s.rows)
        × ((ensure p d t k text s).children ≡ s.children))
      ⊎ ((lookup p s.rows ≡ none)
          × ((ensure p d t k text s).rows ≡ insert p (new_row p d t k text) s.rows)
          × ((ensure p d t k text s).children
              ≡ insert
                  (diff_parent_of p)
                  (children_at s.children (diff_parent_of p) ++ p ∷ [])
                  s.children))
  unfolding ensure
  ensure_cases = elim (Option-cases (lookup p s.rows)) [
    | inl e ↦ inr (e, rw (e, ensure) refl, rw (e, ensure) refl)
    | inr (r, e) ↦ inl (r, e, rw (e, ensure) refl, rw (e, ensure) refl)
  ]

  ensure-has_row : (q : Text) → has_row (ensure p d t k text s) q ≡ has_row s q || text_eq p q
  ensure-has_row q = elim ensure_cases [
    | inl (r, e, x, y) ↦
        ground (arith, text_eq_iff p q, lookup-insert p q (upgrade_row r d t k text) s.rows)
    | inr (e, x, y) ↦
        ground (arith, text_eq_iff p q, lookup-insert p q (new_row p d t k text) s.rows)
  ]

  ensure-row_kinds :
      (q : Text)
      → row_kinds (ensure p d t k text s) q
        ≡ (if text_eq p q then kind_or (row_kinds s q) k else row_kinds s q)
  unfolding upgrade_row new_row
  ensure-row_kinds q = elim ensure_cases [
    | inl (r, e, x, y) ↦
        ground (arith, text_eq_iff p q, lookup-insert p q (upgrade_row r d t k text) s.rows)
    | inr (e, x, y) ↦ ground (
      arith,
      text_eq_iff p q,
      lookup-insert p q (new_row p d t k text) s.rows,
      no_kinds-kind_or k,
    )
  ]

  ensure-IsListed :
      (q : Text)
      → (has_row s q ≡ true → IsListed s q)
      → has_row (ensure p d t k text s) q ≡ true
      → IsListed (ensure p d t k text s) q
  ensure-IsListed q old h = elim ensure_cases [
    | inl (r, e, x, y) ↦ rw y (old (ground (arith, text_eq_iff p q, ensure-has_row q)))
    | inr (e, x, y) ↦
        rw
          (
            y,
            children_at-insert (diff_parent_of p) (diff_parent_of q)
                (children_at s.children (diff_parent_of p) ++ p ∷ []) s.children,
          )
          (elim (Bool-cases (text_eq p q)) [
            | inl same ↦
                let pq = (text_eq_iff p q).0 same in
                rw ((text_eq_iff (diff_parent_of p) (diff_parent_of q)).1 (ap diff_parent_of pq))
                  (Any-append_right (children_at s.children (diff_parent_of p)) (here pq))
            | inr other ↦ beside (old (ground (arith, ensure-has_row q)))
          ])
  ]
    where
      beside :
          IsListed s q
          → Any
              (λ x. x ≡ q)
              (if text_eq (diff_parent_of p) (diff_parent_of q)
                then children_at s.children (diff_parent_of p) ++ p ∷ []
                else children_at s.children (diff_parent_of q))
      beside a = elim (Bool-cases (text_eq (diff_parent_of p) (diff_parent_of q))) [
        | inl e ↦ rw e (
            Any-append_left (p ∷ [])
              (rw ((text_eq_iff (diff_parent_of p) (diff_parent_of q)).0 e) a))
        | inr e ↦ rw e a
      ]

-- The rows that are kept by the loop over the ancestors.
ensure_ancestors-has_row :
    (chain : List Text) (s : Rows) (q : Text)
    → has_row (ensure_ancestors chain s) q ≡ has_row s q || elem q chain
unfolding ensure_ancestors
ensure_ancestors-has_row [] s q = ground arith
ensure_ancestors-has_row (a ∷ chain) s q =
    ensure_ancestors-has_row chain (ensure a true ChangeType.unknown no_kinds [] s) q
    ∙ rw (ensure-has_row a true ChangeType.unknown no_kinds [] s q) (ground arith)

ensure_ancestors-row_kinds :
    (chain : List Text) (s : Rows) (q : Text)
    → row_kinds (ensure_ancestors chain s) q ≡ row_kinds s q
unfolding ensure_ancestors
ensure_ancestors-row_kinds [] s q = refl
ensure_ancestors-row_kinds (a ∷ chain) s q =
    ensure_ancestors-row_kinds chain (ensure a true ChangeType.unknown no_kinds [] s) q
    ∙ rw (ensure-row_kinds a true ChangeType.unknown no_kinds [] s q)
        (ground (arith, kind_or-no_kinds (row_kinds s q)))

ensure_ancestors-IsListed :
    (chain : List Text) (s : Rows) (q : Text)
    → (has_row s q ≡ true → IsListed s q)
    → has_row (ensure_ancestors chain s) q ≡ true
    → IsListed (ensure_ancestors chain s) q
unfolding ensure_ancestors
ensure_ancestors-IsListed [] s q old h = old h
ensure_ancestors-IsListed (a ∷ chain) s q old h =
    ensure_ancestors-IsListed chain (ensure a true ChangeType.unknown no_kinds [] s) q
      (ensure-IsListed a true ChangeType.unknown no_kinds [] s q old) h

-- What the rows keep: each is listed, and has the rows of its ancestors.
abbrev pub IsConnected : Rows → Type 0
IsConnected s =
    (q : Text)
    → has_row s q ≡ true
    → IsListed s q × ((a : Text) → elem a (ancestors q) ≡ true → has_row s a ≡ true)

ensure_entry-has_row :
    (s : Rows) (e : DiffEntry) (q : Text)
    → has_row (ensure_entry s e) q ≡ (has_row s q || text_eq e.path q) || elem q (ancestors e.path)
unfolding ensure_entry
ensure_entry-has_row s e q =
    ensure_ancestors-has_row (ancestors e.path) (ensure e.path e.is_dir e.type e.kinds e.modifier s)
      q
    ∙ rw (ensure-has_row e.path e.is_dir e.type e.kinds e.modifier s q) refl

ensure_entry-IsConnected :
    (s : Rows) (e : DiffEntry) → IsConnected s → IsConnected (ensure_entry s e)
ensure_entry-IsConnected s e c q h = (listed h, above)
  where
    listed : has_row (ensure_entry s e) q ≡ true → IsListed (ensure_entry s e) q
    listed h =
        unfold ensure_entry in
        ensure_ancestors-IsListed (ancestors e.path)
          (ensure e.path e.is_dir e.type e.kinds e.modifier s) q
          (ensure-IsListed e.path e.is_dir e.type e.kinds e.modifier s q (λ k. (c q k).0)) h

    met :
        (a : Text)
        → elem a (ancestors q) ≡ true
        → (has_row s a || text_eq e.path a) || elem a (ancestors e.path) ≡ true
    met a m = elim (Bool-cases (has_row s q)) [
      | inl old ↦ rw ((c q old).1 a m)
      | inr new ↦ elim (Bool-cases (text_eq e.path q)) [
        | inl same ↦
            let this : elem a (ancestors e.path) ≡ true = rw ((text_eq_iff e.path q).0 same) m in
            rw this (ground arith)
        | inr other ↦
            let higher : elem a (ancestors e.path) ≡ true =
              elem_trans e.path q a (ground (arith, ensure_entry-has_row s e q)) m in
            rw higher (ground arith)
      ]
    ]

    above : (a : Text) → elem a (ancestors q) ≡ true → has_row (ensure_entry s e) a ≡ true
    above a m = ensure_entry-has_row s e a ∙ met a m

ensure_entry-row_kinds :
    (s : Rows) (e : DiffEntry) (q : Text)
    → row_kinds (ensure_entry s e) q
      ≡ (if text_eq e.path q then kind_or (row_kinds s q) e.kinds else row_kinds s q)
unfolding ensure_entry
ensure_entry-row_kinds s e q =
    ensure_ancestors-row_kinds (ancestors e.path)
      (ensure e.path e.is_dir e.type e.kinds e.modifier s) q
    ∙ ensure-row_kinds e.path e.is_dir e.type e.kinds e.modifier s q

ensure_entries-IsConnected :
    (es : List DiffEntry) (s : Rows) → IsConnected s → IsConnected (ensure_entries s es)
unfolding ensure_entries
ensure_entries-IsConnected [] s c = c
ensure_entries-IsConnected (e ∷ es) s c =
    ensure_entries-IsConnected es (ensure_entry s e) (ensure_entry-IsConnected s e c)

ensure_entries-has_row :
    (es : List DiffEntry) (s : Rows) (q : Text)
    → has_row s q ≡ true
    → has_row (ensure_entries s es) q ≡ true
unfolding ensure_entries
ensure_entries-has_row [] s q h = h
ensure_entries-has_row (e ∷ es) s q h =
    ensure_entries-has_row es (ensure_entry s e) q
      (ensure_entry-has_row s e q ∙ rw h (ground arith))

ensure_entries-each :
    (es : List DiffEntry) (s : Rows) → All (λ e. has_row (ensure_entries s es) e.path ≡ true) es
unfolding ensure_entries
ensure_entries-each [] s = tt
ensure_entries-each (e ∷ es) s = (
  ensure_entries-has_row es (ensure_entry s e) e.path
      (ensure_entry-has_row s e e.path ∙ rw ((text_eq_iff e.path e.path).1 refl) (ground arith)),
  ensure_entries-each es (ensure_entry s e),
)

ensure_entries-row_kinds :
    (es : List DiffEntry) (s : Rows) (q : Text)
    → row_kinds (ensure_entries s es) q ≡ kind_or (row_kinds s q) (all_kinds q es)
unfolding ensure_entries
ensure_entries-row_kinds [] s q = sym (kind_or-no_kinds (row_kinds s q))
ensure_entries-row_kinds (e ∷ es) s q =
    ensure_entries-row_kinds es (ensure_entry s e) q
    ∙ rw (ensure_entry-row_kinds s e q) (elim (Bool-cases (text_eq e.path q)) [
      | inl h ↦ rw h (kind_or_assoc (row_kinds s q) e.kinds (all_kinds q es))
      | inr h ↦ rw h refl
    ])

no_rows-IsConnected : IsConnected no_rows
unfolding lookup
no_rows-IsConnected q h = cc

-- Every entry's path has a row once the entries are in.
ensure_entries-found :
    (es : List DiffEntry) → All (λ e. has_row (ensure_entries no_rows es) e.path ≡ true) es
ensure_entries-found es = ensure_entries-each es no_rows

rows_above :
    (s : Rows) (chain : List Text)
    → ((a : Text) → elem a chain ≡ true → has_row s a ≡ true)
    → All (λ a. has_row s a ≡ true) chain
rows_above s [] h = tt
rows_above s (a ∷ chain) h = (
  h a (rw ((text_eq_iff a a).1 refl) (ground arith)),
  rows_above s chain (λ b k. h b (rw k (ground arith))),
)

-- Once every entry is in, every entry's path has a row, and a path with a row is in the listing of
-- its parent directory, has rows for all the directories above it, up to the root, and has as its
-- kinds all the kinds that the entries give it, none for a directory that is only passed through.
pub ensure_entries-connects :
    (es : List DiffEntry) (q : Text)
    → has_row (ensure_entries no_rows es) q ≡ true
    → All (λ e. has_row (ensure_entries no_rows es) e.path ≡ true) es
      × IsListed (ensure_entries no_rows es) q
      × All (λ a. has_row (ensure_entries no_rows es) a ≡ true) (ancestors q)
      × (row_kinds (ensure_entries no_rows es) q ≡ all_kinds q es)
unfolding lookup
ensure_entries-connects es q h =
    let c = ensure_entries-IsConnected es no_rows no_rows-IsConnected q h in
    (
      ensure_entries-found es,
      c.0,
      rows_above (ensure_entries no_rows es) (ancestors q) c.1,
      ensure_entries-row_kinds es no_rows q ∙ no_kinds-kind_or (all_kinds q es),
    )
