-- ===== src/Fuzzy.antt =====
-- Filename search: internal/model/fuzzy.go. Strings are their code points, as `range` and `[]rune`
-- give them; `unicode.ToLower` and the white space of `strings.TrimSpace` are parameters.
pub mod Match
pub mod Rank
pub mod Examples
use resticscope.Prelude.{
  ℕ, suc, ◌+◌, Bool, true, false, ◌&&◌, ◌||◌, not, Option, none, some, List, [], ◌∷◌, map, length,
  take, Text, text_eq, text_lt, ◌==◌, ltb, ℤ, sub_ℕ, ltb_ℤ, leb_ℤ, sort_stable, if◌then◌else◌,
}

abbrev pub fuzzy_match_bonus : ℕ
fuzzy_match_bonus = 16

abbrev pub fuzzy_contiguity_bonus : ℕ
fuzzy_contiguity_bonus = 8

abbrev pub fuzzy_start_bonus : ℕ
fuzzy_start_bonus = 16

abbrev pub fuzzy_boundary_bonus : ℕ
fuzzy_boundary_bonus = 8

abbrev pub fuzzy_exact_case_bonus : ℕ
fuzzy_exact_case_bonus = 2

pub record FuzzyMatch : Type 0 where
  pub score : ℤ
  pub positions : List ℕ

-- The fields of `BrowseEntry` that the search reads.
pub record BrowseEntry : Type 0 where
  pub path : Text
  pub name : Text

pub record FuzzyRank : Type 0 where
  pub entry : BrowseEntry
  pub match : FuzzyMatch

unfoldable pub is_word_boundary : ℕ → Bool
is_word_boundary r = r == b'/' || (r == b'.' || (r == b'-' || (r == b'_' || r == b' ')))

-- A matched rune of the candidate: its index, the rune, the rune before it, and those behind it.
pub record Hit : Type 0 where
  pub index : ℕ
  pub rune : ℕ
  pub before : Option ℕ
  pub rest : List ℕ

-- What a match adds to the score. `prev` is the last matched index, `none` for -2.
unfoldable pub place_bonus : Option ℕ → Hit → ℕ
place_bonus prev h =
    if h.index == 0
    then fuzzy_start_bonus
    else if elim prev [ none ↦ false | some p ↦ h.index == p + 1 ]
    then fuzzy_contiguity_bonus
    else if elim h.before [ none ↦ false | some r ↦ is_word_boundary r ]
    then fuzzy_boundary_bonus
    else 0

unfoldable pub hit_bonus : ℕ → Option ℕ → Hit → ℕ
hit_bonus qr prev h =
    fuzzy_match_bonus + place_bonus prev h + (if h.rune == qr then fuzzy_exact_case_bonus else 0)

module _ (fold : ℕ → ℕ) where
  -- The inner loop: the first rune from `ci` on that folds to the query's.
  unfoldable pub next_match : ℕ → Option ℕ → ℕ → List ℕ → Option Hit
  next_match qr before ci [] = none
  next_match qr before ci (cr ∷ cand) =
      let later = next_match qr (some cr) (suc ci) cand in
      if fold cr == fold qr
      then some (record { index = ci; rune = cr; before = before; rest = cand })
      else later

  -- The outer loop over the query's runes; the score and the positions from here on.
  unfoldable pub score_runes : List ℕ → Option ℕ → Option ℕ → ℕ → List ℕ → Option (ℕ × List ℕ)
  score_runes [] prev before ci cand = some (0, [])
  score_runes (qr ∷ query) prev before ci cand = elim (next_match qr before ci cand) [
    | none ↦ none
    | some h ↦ elim (score_runes query (some h.index) (some h.rune) (suc h.index) h.rest) [
      | none ↦ none
      | some (score, positions) ↦ some (hit_bonus qr prev h + score, h.index ∷ positions)
    ]
  ]

  unfoldable pub fuzzy_score : Text → Text → Option FuzzyMatch
  fuzzy_score candidate [] = none
  fuzzy_score candidate (qr ∷ query) = elim (score_runes (qr ∷ query) none none 0 candidate) [
    | none ↦ none
    | some (score, positions) ↦
        some (record { score = sub_ℕ score (length candidate); positions = positions })
  ]

  -- The ranks of the entries that match.
  unfoldable pub rank_entries : List BrowseEntry → Text → List FuzzyRank
  rank_entries [] query = []
  rank_entries (e ∷ entries) query =
      let ranks = rank_entries entries query in
      elim (fuzzy_score e.name query) [
        | none ↦ ranks
        | some m ↦ record { entry = e; match = m } ∷ ranks
      ]

unfoldable pub better_fuzzy : FuzzyRank → FuzzyRank → Bool
better_fuzzy a b =
    if ltb_ℤ a.match.score b.match.score || ltb_ℤ b.match.score a.match.score
    then ltb_ℤ b.match.score a.match.score
    else if length a.entry.name == length b.entry.name
    then text_lt a.entry.path b.entry.path
    else ltb (length a.entry.name) (length b.entry.name)

-- Whether `strings.TrimSpace` leaves nothing.
unfoldable pub is_blank : (ℕ → Bool) → Text → Bool
is_blank is_space [] = true
is_blank is_space (c ∷ s) = is_space c && is_blank is_space s

-- The cap; no limit is zero or negative, here zero.
unfoldable pub capped : ℕ → List FuzzyRank → List FuzzyRank
capped limit ranks = if ltb 0 limit && ltb limit (length ranks) then take limit ranks else ranks

unfoldable pub rank_fuzzy :
    (fold : ℕ → ℕ) (is_space : ℕ → Bool) → List BrowseEntry → Text → ℕ → List BrowseEntry
rank_fuzzy fold is_space entries query limit =
    if is_blank is_space query
    then []
    else map (λ r. r.entry)
        (capped limit (sort_stable better_fuzzy (rank_entries fold entries query)))
