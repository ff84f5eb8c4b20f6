-- ===== src/Fuzzy/Examples.antt =====
-- The search for "rp" among two names, with the fold of the ASCII letters.
use mathlib.Core.List.{Perm}
use resticscope.Prelude.{
  ◌≡◌, ◌≢◌, ◌↔◌, refl, ℕ, ◌+◌, Bool, false, List, [], ◌∷◌, map, take, length, codes, All, IsSorted,
  some, if◌then◌else◌, leb, ◌&&◌, ◌==◌,
}
use resticscope.Fuzzy.{
  FuzzyMatch, FuzzyRank, BrowseEntry, fuzzy_score, better_fuzzy, rank_fuzzy, is_blank,
}
use resticscope.Fuzzy.Match.{Sub, fuzzy_score-Sub}
use resticscope.Fuzzy.Rank.{IsRank, matching, shown, rank_fuzzy-ranked}

abbrev lower : ℕ → ℕ
lower c = if leb b'A' c && leb c b'Z' then c + 32 else c

abbrev is_space : ℕ → Bool
is_space c = c == b' '

fuzzy_score-Sub_example :
    ((m : FuzzyMatch) × (fuzzy_score lower (codes "Report") (codes "rp") ≡ some m))
    ↔ ((codes "rp" ≢ []) × Sub lower (codes "rp") (codes "Report"))
fuzzy_score-Sub_example = fuzzy_score-Sub lower (codes "Report") (codes "rp")

abbrev entries : List BrowseEntry
entries =
    record { path = codes "/a/Report"; name = codes "Report" }
    ∷ record { path = codes "/a/rp"; name = codes "rp" }
    ∷ record { path = codes "/a/x"; name = codes "x" }
    ∷ []

not_blank : is_blank is_space (codes "rp") ≡ false
unfolding is_blank
not_blank = refl

rank_fuzzy-ranked_example :
    (ranks : List FuzzyRank) × (rank_fuzzy lower is_space entries (codes "rp") 1
      ≡ map (λ r. r.entry) (take (shown 1 (length ranks)) ranks))
    × Perm (map (λ r. r.entry) ranks) (matching lower (codes "rp") entries)
    × All (IsRank lower (codes "rp")) ranks
    × IsSorted better_fuzzy ranks
rank_fuzzy-ranked_example = rank_fuzzy-ranked lower is_space entries (codes "rp") 1 not_blank
