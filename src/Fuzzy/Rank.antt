-- ===== src/Fuzzy/Rank.antt =====
-- The order and the cap of `RankFuzzy`.
use mathlib.Core.List.Perm
use mathlib.Core.List.{Perm}
use resticscope.Prelude.{
  ℕ, zero, suc, ◌≡◌, refl, sym, ap, min, Bool, true, false, ◌&&◌, none, some, List, [], ◌∷◌, map,
  length, take, All, Text, Option-cases, Bool-cases, inl, inr, arith, ltb, sort_stable, IsSorted,
  IsStrictOrder, sort_stable-perm, sort_stable-IsSorted, sort_stable-All, text_lt-order,
}
use resticscope.Fuzzy.{
  FuzzyRank, BrowseEntry, fuzzy_score, rank_entries, better_fuzzy, is_blank, capped, rank_fuzzy,
}

better_fuzzy-asym : (a b : FuzzyRank) → better_fuzzy a b ≡ true → better_fuzzy b a ≡ false
unfolding better_fuzzy
better_fuzzy-asym a b h = ground (arith, text_lt-order.asym a.entry.path b.entry.path)

better_fuzzy_trans :
    (a b c : FuzzyRank)
    → better_fuzzy b a ≡ false
    → better_fuzzy c b ≡ false
    → better_fuzzy c a ≡ false
unfolding better_fuzzy
better_fuzzy_trans a b c h k =
    ground (arith, text_lt-order.not_less_trans a.entry.path b.entry.path c.entry.path)

-- By score, then by length, then by path is a strict order.
pub better_fuzzy-order : IsStrictOrder better_fuzzy
better_fuzzy-order = record { asym = better_fuzzy-asym; not_less_trans = better_fuzzy_trans }

module _ (fold : ℕ → ℕ) (query : Text) where
  -- A rank is of an entry whose name matches.
  abbrev pub IsRank : FuzzyRank → Type 0
  IsRank r = fuzzy_score fold r.entry.name query ≡ some r.match

  -- The entries whose names match, in their order.
  abbrev pub matching : List BrowseEntry → List BrowseEntry
  matching [] = []
  matching (e ∷ entries) =
      let rest = matching entries in
      elim (fuzzy_score fold e.name query) [ none ↦ rest | some m ↦ e ∷ rest ]

  rank_entries-IsRank : (entries : List BrowseEntry) → All IsRank (rank_entries fold entries query)
  unfolding rank_entries
  rank_entries-IsRank [] = tt
  rank_entries-IsRank (e ∷ entries) = elim (Option-cases (fuzzy_score fold e.name query)) [
    | inl k ↦ rw (k, rank_entries) (rank_entries-IsRank entries)
    | inr (m, k) ↦ rw (k, rank_entries) (k, rank_entries-IsRank entries)
  ]

  rank_entries-matching :
      (entries : List BrowseEntry)
      → map (λ r. r.entry) (rank_entries fold entries query) ≡ matching entries
  unfolding rank_entries
  rank_entries-matching [] = refl
  rank_entries-matching (e ∷ entries) = elim (Option-cases (fuzzy_score fold e.name query)) [
    | inl k ↦ rw (k, rank_entries, matching) (rank_entries-matching entries)
    | inr (m, k) ↦
        rw (k, rank_entries, matching) (ap (λ es. e ∷ es) (rank_entries-matching entries))
  ]

-- How many rows a limit lets through; zero is no limit.
abbrev pub shown : ℕ → ℕ → ℕ
shown zero n = n
shown (suc limit) n = min (suc limit) n

take-all : {A : Type 0} (xs : List A) → take (length xs) xs ≡ xs
take-all [] = refl
take-all (x ∷ xs) = ap (λ ys. x ∷ ys) (take-all xs)

capped-take :
    (limit : ℕ) (ranks : List FuzzyRank)
    → capped limit ranks ≡ take (shown limit (length ranks)) ranks
unfolding capped
capped-take zero ranks = sym (take-all ranks)
capped-take (suc limit) ranks =
    elim (Bool-cases (ltb 0 (suc limit) && ltb (suc limit) (length ranks))) [
      | inl h ↦
          let least : min (suc limit) (length ranks) ≡ suc limit = ground arith in
          rw (h, least) refl
      | inr h ↦
          let least : min (suc limit) (length ranks) ≡ length ranks = ground arith in
          rw (h, least) (sym (take-all ranks))
    ]

module _ (fold : ℕ → ℕ) (is_space : ℕ → Bool) (entries : List BrowseEntry) (query : Text) where
  -- For a query that is not blank the rows are the first of a ranking, as many as the limit lets
  -- through: the ranking holds the matching entries, each as often as it was given, with their
  -- matches, and none of it is better than one before it.
  pub rank_fuzzy-ranked :
      (limit : ℕ)
      → is_blank is_space query ≡ false
      → (ranks : List FuzzyRank) × (rank_fuzzy fold is_space entries query limit
          ≡ map (λ r. r.entry) (take (shown limit (length ranks)) ranks))
        × Perm (map (λ r. r.entry) ranks) (matching fold query entries)
        × All (IsRank fold query) ranks
        × IsSorted better_fuzzy ranks
  unfolding rank_fuzzy
  rank_fuzzy-ranked limit h =
      let found = rank_entries fold entries query in
      (
        sort_stable better_fuzzy found,
        rw h (ap (map (λ r. r.entry)) (capped-take limit (sort_stable better_fuzzy found))),
        rw⁻¹ (rank_entries-matching fold query entries)
            (Perm.map (λ r. r.entry) (sort_stable-perm better_fuzzy found)),
        sort_stable-All better_fuzzy (IsRank fold query) found
            (rank_entries-IsRank fold query entries),
        sort_stable-IsSorted better_fuzzy better_fuzzy-order found,
      )
