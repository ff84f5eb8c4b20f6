-- ===== src/BrowseSearch/Best.antt =====
-- The best ranks of a stream, kept in a list of the limit's length, are the first of all ranks in
-- their order.
use mathlib.Core.List.Perm
use mathlib.Core.List.{Perm, perm_middle}
use resticscope.Prelude.{
  ◌++◌, subst, append-nil, ℕ, zero, suc, ◌+◌, ◌≤◌, ◌≡◌, refl, sym, ap, ◌∙◌, Bool, true, false, Text,
  List, [], ◌∷◌, length, take, map, All, All-impl, Bool-cases, Option-cases, inl, inr, arith, ltb,
  leb, ◌==◌, if◌then◌else◌, IsSorted, length-take,
}
use resticscope.Fuzzy.{FuzzyRank, better_fuzzy, fuzzy_score, rank_entries, is_blank}
use resticscope.Fuzzy.Rank.{better_fuzzy-order}
use resticscope.BrowseSearch.{
  insert_ranked, beats_worst, insert_top_n, default_search_limit, Row, entry_of_row, scan_rows,
  search,
}

-- The loop of a search over its candidates, and all of them in order.
unfoldable top_of : List FuzzyRank → List FuzzyRank → ℕ → List FuzzyRank
unfolding insert_top_n
top_of top [] limit = top
top_of top (r ∷ rs) limit = top_of (insert_top_n top r limit) rs limit

abbrev pub ranked : List FuzzyRank → List FuzzyRank → List FuzzyRank
ranked ys [] = ys
ranked ys (r ∷ rs) = ranked (insert_ranked r ys) rs

take-take : {A : Type 0} (n : ℕ) (y : A) (ys : List A) → take n (y ∷ take n ys) ≡ take n (y ∷ ys)
take-take zero y ys = refl
take-take (suc n) y [] = refl
take-take (suc n) y (z ∷ ys) = ap (λ l. y ∷ l) (take-take n z ys)

take-insert_ranked :
    (n : ℕ) (r : FuzzyRank) (ys : List FuzzyRank)
    → take n (insert_ranked r (take n ys)) ≡ take n (insert_ranked r ys)
unfolding insert_ranked
take-insert_ranked zero r ys = refl
take-insert_ranked (suc n) r [] = refl
take-insert_ranked (suc n) r (y ∷ ys) = elim (Bool-cases (better_fuzzy r y)) [
  | inl e ↦ rw e (ap (λ l. r ∷ l) (take-take n y ys))
  | inr e ↦ rw e (ap (λ l. y ∷ l) (take-insert_ranked n r ys))
]

-- A rank that does not beat the last of the first ones beats none of them.
beats_none :
    (r y : FuzzyRank) (ys : List FuzzyRank)
    → IsSorted better_fuzzy (y ∷ ys)
    → beats_worst r (y ∷ ys) ≡ false
    → better_fuzzy r y ≡ false
unfolding beats_worst
beats_none r y [] s h = h
beats_none r y (z ∷ ys) s h =
    better_fuzzy-order.not_less_trans y z r s.0.0 (beats_none r z ys s.1 h)

take-All : (P : FuzzyRank → Type 0) (n : ℕ) (ys : List FuzzyRank) → All P ys → All P (take n ys)
take-All P zero ys h = tt
take-All P (suc n) [] h = tt
take-All P (suc n) (y ∷ ys) h = (h.0, take-All P n ys h.1)

take-IsSorted :
    (n : ℕ) (ys : List FuzzyRank) → IsSorted better_fuzzy ys → IsSorted better_fuzzy (take n ys)
take-IsSorted zero ys h = tt
take-IsSorted (suc n) [] h = tt
take-IsSorted (suc n) (y ∷ ys) h = (take-All _ n ys h.0, take-IsSorted n ys h.1)

worst_last :
    (n : ℕ) (r : FuzzyRank) (ys : List FuzzyRank)
    → IsSorted better_fuzzy ys
    → n ≤ length ys
    → beats_worst r (take n ys) ≡ false
    → take n (insert_ranked r ys) ≡ take n ys
unfolding insert_ranked beats_worst
worst_last zero r ys s l h = refl
worst_last (suc n) r [] s l h = refl_of (omega arith)
  where
    refl_of : ⊥ → take (suc n) (insert_ranked r []) ≡ []
    refl_of e = elim e [ ]
worst_last (suc zero) r (y ∷ ys) s l h = rw h refl
worst_last (suc (suc n)) r (y ∷ []) s l h = refl_of (omega arith)
  where
    refl_of : ⊥ → take (suc (suc n)) (insert_ranked r (y ∷ [])) ≡ y ∷ []
    refl_of e = elim e [ ]
worst_last (suc (suc n)) r (y ∷ z ∷ ys) s l h =
    rw (beats_none r y (take (suc n) (z ∷ ys)) (take-IsSorted (suc (suc n)) (y ∷ z ∷ ys) s) h)
      (ap (λ l. y ∷ l) (worst_last (suc n) r (z ∷ ys) s.1 (omega arith) h))

length-insert_ranked :
    (r : FuzzyRank) (ys : List FuzzyRank) → length (insert_ranked r ys) ≡ suc (length ys)
unfolding insert_ranked
length-insert_ranked r [] = refl
length-insert_ranked r (y ∷ ys) = ground (arith, length-insert_ranked r ys)

take_whole : (n : ℕ) (ys : List FuzzyRank) → length ys ≤ n → take n ys ≡ ys
take_whole zero [] h = refl
take_whole zero (y ∷ ys) h = ground arith
take_whole (suc n) [] h = refl
take_whole (suc n) (y ∷ ys) h = ap (λ l. y ∷ l) (take_whole n ys (omega arith))

insert_top_n-take :
    (n : ℕ) (r : FuzzyRank) (ys : List FuzzyRank)
    → IsSorted better_fuzzy ys
    → insert_top_n (take n ys) r n ≡ take n (insert_ranked r ys)
unfolding insert_top_n
insert_top_n-take n r ys s = elim (Bool-cases (leb n (length ys))) [
  | inr few ↦
      let whole : take n ys ≡ ys = take_whole n ys (ground (arith, few)) in
      let room : ltb (length ys) n ≡ true = ground (arith, few) in
      rw (whole, few, room)
        (sym (take_whole n (insert_ranked r ys) (ground (arith, few, length-insert_ranked r ys))))
  | inl many ↦
      let full : length (take n ys) ≡ n = ground (arith, many, length-take n ys) in
      let no_room : ltb n n ≡ false = ground arith in
      let least : leb n n ≡ true = ground arith in
      elim (Bool-cases (beats_worst r (take n ys))) [
        | inr e ↦ rw (full, least, e) (sym (worst_last n r ys s (ground (arith, many)) e))
        | inl e ↦ rw (full, least, e, no_room) (take-insert_ranked n r ys)
      ]
]

insert_ranked-All :
    (P : FuzzyRank → Type 0) (r : FuzzyRank) (ys : List FuzzyRank)
    → P r
    → All P ys
    → All P (insert_ranked r ys)
unfolding insert_ranked
insert_ranked-All P r [] p h = (p, tt)
insert_ranked-All P r (y ∷ ys) p h = elim (Bool-cases (better_fuzzy r y)) [
  | inl e ↦ rw e (p, h)
  | inr e ↦ rw e (h.0, insert_ranked-All P r ys p h.1)
]

insert_ranked-IsSorted :
    (r : FuzzyRank) (ys : List FuzzyRank)
    → IsSorted better_fuzzy ys
    → IsSorted better_fuzzy (insert_ranked r ys)
unfolding insert_ranked
insert_ranked-IsSorted r [] h = (tt, tt)
insert_ranked-IsSorted r (y ∷ ys) h = elim (Bool-cases (better_fuzzy r y)) [
  | inl e ↦
      let below = better_fuzzy-order.asym r y e in
      rw e (
        (
          below,
          All-impl (λ z. better_fuzzy z y ≡ false) (λ z. better_fuzzy z r ≡ false)
              (λ z k. better_fuzzy-order.not_less_trans r y z below k) ys h.0,
        ),
        h,
      )
  | inr e ↦ rw e (
    insert_ranked-All (λ z. better_fuzzy z y ≡ false) r ys e h.0,
    insert_ranked-IsSorted r ys h.1,
  )
]

top_of-take :
    (n : ℕ) (ys rs : List FuzzyRank)
    → IsSorted better_fuzzy ys
    → (top_of (take n ys) rs n ≡ take n (ranked ys rs)) × IsSorted better_fuzzy (ranked ys rs)
unfolding top_of
top_of-take n ys [] s = (refl, s)
top_of-take n ys (r ∷ rs) s =
    let (same, sorted) = top_of-take n (insert_ranked r ys) rs (insert_ranked-IsSorted r ys s) in
    (ap (λ top. top_of top rs n) (insert_top_n-take n r ys s) ∙ same, sorted)

insert_ranked-perm : (r : FuzzyRank) (ys : List FuzzyRank) → Perm (insert_ranked r ys) (r ∷ ys)
unfolding insert_ranked
insert_ranked-perm r [] = Perm.refl (r ∷ [])
insert_ranked-perm r (y ∷ ys) = elim (Bool-cases (better_fuzzy r y)) [
  | inl e ↦ rw e (Perm.refl (r ∷ y ∷ ys))
  | inr e ↦ rw e (Perm.trans (Perm.cons y (insert_ranked-perm r ys)) (Perm.swap r y ys))
]

perm_behind :
    (rs : List FuzzyRank) {xs ys : List FuzzyRank} → Perm xs ys → Perm (rs ++ xs) (rs ++ ys)
perm_behind [] p = p
perm_behind (r ∷ rs) p = Perm.cons r (perm_behind rs p)

ranked-perm : (ys rs : List FuzzyRank) → Perm (ranked ys rs) (rs ++ ys)
ranked-perm ys [] = Perm.refl ys
ranked-perm ys (r ∷ rs) =
    Perm.trans (ranked-perm (insert_ranked r ys) rs)
      (Perm.trans (perm_behind rs (insert_ranked-perm r ys)) (perm_middle rs ys))

from_none :
    (n : ℕ) (rs : List FuzzyRank)
    → (top_of [] rs n ≡ take n (ranked [] rs)) × IsSorted better_fuzzy (ranked [] rs)
from_none zero rs = top_of-take zero [] rs tt
from_none (suc n) rs = top_of-take (suc n) [] rs tt

module _ (fold : ℕ → ℕ) (query : Text) where
  scan_rows_lem :
      (top : List FuzzyRank) (total limit : ℕ) (rows : List Row)
      → scan_rows fold query top total limit rows ≡ (
        top_of top (rank_entries fold (map entry_of_row rows) query) limit,
        total + length (rank_entries fold (map entry_of_row rows) query),
      )
  unfolding scan_rows rank_entries top_of entry_of_row
  scan_rows_lem top total limit [] = ap (λ n. (top, n)) (omega arith)
  scan_rows_lem top total limit (row ∷ rows) = elim (Option-cases (fuzzy_score fold row.1 query)) [
    | inl e ↦ rw (e, scan_rows, rank_entries) (scan_rows_lem top total limit rows)
    | inr (m, e) ↦
        let r : FuzzyRank = record { entry = entry_of_row row; match = m } in
        rw (e, scan_rows, rank_entries)
          (scan_rows_lem (insert_top_n top r limit) (total + 1) limit rows
            ∙ ap
                (λ n. (
                  top_of (insert_top_n top r limit)
                      (rank_entries fold (map entry_of_row rows) query) limit,
                  n,
                ))
                (omega arith))
  ]

  -- A search that is not blank shows the first of the matching rows in their order, as many as the
  -- limit, which is 200 where none is given, and counts all of them: to insert only the ranks that
  -- beat the last of a full list gives the same as to insert every rank behind those that it does
  -- not outrank, which keeps them all and puts them in order, and to take the first.
  pub search-ranked :
      (is_space : ℕ → Bool) (limit : ℕ) (rows : List Row)
      → is_blank is_space query ≡ false
      → (search fold query is_space limit rows ≡ (
        map
            (λ r. r.entry)
            (take
              (if limit == 0 then default_search_limit else limit)
              (ranked [] (rank_entries fold (map entry_of_row rows) query))),
        length (rank_entries fold (map entry_of_row rows) query),
      ))
        × Perm
            (ranked [] (rank_entries fold (map entry_of_row rows) query))
            (rank_entries fold (map entry_of_row rows) query)
        × IsSorted better_fuzzy (ranked [] (rank_entries fold (map entry_of_row rows) query))
  unfolding search
  search-ranked is_space limit rows h =
      let n = if limit == 0 then default_search_limit else limit in
      let ranks = rank_entries fold (map entry_of_row rows) query in
      let (same, sorted) = from_none n ranks in
      (
        rw h (
            ap (λ r. (map (λ x. x.entry) r.0, r.1)) (scan_rows_lem [] 0 n rows)
            ∙ ap (λ t. (map (λ x. x.entry) t, 0 + length ranks)) same
            ∙ ap (λ c. (map (λ x. x.entry) (take n (ranked [] ranks)), c)) (omega arith)),
        subst (Perm (ranked [] ranks)) (append-nil ranks) (ranked-perm [] ranks),
        sorted,
      )
