-- ===== src/Fuzzy/Match.antt =====
-- `FuzzyScore` finds a match exactly where the query is a folded subsequence of the candidate.
use resticscope.Prelude.{
  ℕ, suc, ◌+◌, ◌≡◌, ◌↔◌, ◌≢◌, subst, sub_ℕ, refl, false, Option, none, some, List, [], ◌∷◌, length,
  Text, ◌==◌, ==_iff, Option-cases, Bool-cases, inl, inr, arith,
}
use resticscope.Fuzzy.{FuzzyMatch, Hit, next_match, score_runes, hit_bonus, fuzzy_score}

module _ (fold : ℕ → ℕ) where
  -- The runes of a query are those of the candidate, folded, in order and with gaps.
  pub data Sub : List ℕ → List ℕ → Type 0 where
    done : {c : List ℕ} → Sub [] c
    keep : {x y : ℕ} {q c : List ℕ} → fold y ≡ fold x → Sub q c → Sub (x ∷ q) (y ∷ c)
    skip : {y : ℕ} {q c : List ℕ} → Sub q c → Sub q (y ∷ c)

module _ (fold : ℕ → ℕ) where
  Sub-tail : {x : ℕ} {q c : List ℕ} → Sub fold (x ∷ q) c → Sub fold q c
  Sub-tail (keep e s) = skip s
  Sub-tail (skip s) = skip (Sub-tail s)

  -- The first match serves any subsequence.
  next_match_complete :
      (x : ℕ) (q : List ℕ) (b : Option ℕ) (ci : ℕ) (c : List ℕ)
      → Sub fold (x ∷ q) c
      → (h : Hit) × (next_match fold x b ci c ≡ some h) × Sub fold q h.rest
  unfolding next_match
  next_match_complete x q b ci [] s = elim s [ ]
  next_match_complete x q b ci (y ∷ c) s = elim (Bool-cases (fold y == fold x)) [
    | inl e ↦ (record { index = ci; rune = y; before = b; rest = c }, rw e refl, passed s)
    | inr e ↦
        let (h, k, t) = next_match_complete x q (some y) (suc ci) c (beside e s) in (h, rw e k, t)
  ]
    where
      passed : Sub fold (x ∷ q) (y ∷ c) → Sub fold q c
      passed (keep e s) = s
      passed (skip s) = Sub-tail s

      beside : (fold y == fold x) ≡ false → Sub fold (x ∷ q) (y ∷ c) → Sub fold (x ∷ q) c
      beside e (keep k s) = ground arith
      beside e (skip s) = s

  -- A match stands in the candidate, and what follows it is a subsequence's continuation.
  next_match_sound :
      (x : ℕ) (q : List ℕ) (b : Option ℕ) (ci : ℕ) (c : List ℕ) (h : Hit)
      → next_match fold x b ci c ≡ some h
      → Sub fold q h.rest
      → Sub fold (x ∷ q) c
  unfolding next_match
  next_match_sound x q b ci [] h k s = ground arith
  next_match_sound x q b ci (y ∷ c) h k s = elim (Bool-cases (fold y == fold x)) [
    | inl e ↦
        let same : h.rest ≡ c = ground arith in keep ((==_iff _ _).0 e) (subst (Sub fold q) same s)
    | inr e ↦ skip (next_match_sound x q (some y) (suc ci) c h (rw e at k) s)
  ]

  score_runes_complete :
      (q : List ℕ) (prev b : Option ℕ) (ci : ℕ) (c : List ℕ)
      → Sub fold q c
      → (r : ℕ × List ℕ) × (score_runes fold q prev b ci c ≡ some r)
  unfolding score_runes
  score_runes_complete [] prev b ci c s = ((0, []), refl)
  score_runes_complete (x ∷ q) prev b ci c s =
      let (h, k, t) = next_match_complete x q b ci c s in
      let (r, e) = score_runes_complete q (some h.index) (some h.rune) (suc h.index) h.rest t in
      ((hit_bonus x prev h + r.0, h.index ∷ r.1), rw (k, e, score_runes) refl)

  score_runes_sound :
      (q : List ℕ) (prev b : Option ℕ) (ci : ℕ) (c : List ℕ) (r : ℕ × List ℕ)
      → score_runes fold q prev b ci c ≡ some r
      → Sub fold q c
  unfolding score_runes
  score_runes_sound [] prev b ci c r e = done
  score_runes_sound (x ∷ q) prev b ci c r e = elim (Option-cases (next_match fold x b ci c)) [
    | inl k ↦ cc
    | inr (h, k) ↦
        elim (Option-cases (score_runes fold q (some h.index) (some h.rune) (suc h.index) h.rest)) [
          | inl l ↦ ground arith
          | inr (t, l) ↦
              next_match_sound x q b ci c h k
                (score_runes_sound q (some h.index) (some h.rune) (suc h.index) h.rest t l)
        ]
  ]

  -- A query matches a name exactly when it is not empty and its runes are those of the name, compared
  -- by case folding, in order and possibly with gaps: taking the first match of each rune loses none.
  pub fuzzy_score-Sub :
      (cand query : Text)
      → ((m : FuzzyMatch) × (fuzzy_score fold cand query ≡ some m))
        ↔ ((query ≢ []) × Sub fold query cand)
  unfolding fuzzy_score
  fuzzy_score-Sub cand [] = ((λ m. let e = m.1 in cc), (λ s. elim (s.0 refl) [ ]))
  fuzzy_score-Sub cand (x ∷ q) = (sound, complete)
    where
      sound :
          (m : FuzzyMatch) × (fuzzy_score fold cand (x ∷ q) ≡ some m)
          → (x ∷ q ≢ []) × Sub fold (x ∷ q) cand
      sound (m, e) = elim (Option-cases (score_runes fold (x ∷ q) none none 0 cand)) [
        | inl k ↦ cc
        | inr (r, k) ↦ ((λ n. cc), score_runes_sound (x ∷ q) none none 0 cand r k)
      ]

      complete :
          (x ∷ q ≢ []) × Sub fold (x ∷ q) cand
          → (m : FuzzyMatch) × (fuzzy_score fold cand (x ∷ q) ≡ some m)
      complete (n, s) =
          let (r, k) = score_runes_complete (x ∷ q) none none 0 cand s in
          (record { score = sub_ℕ r.0 (length cand); positions = r.1 }, rw (k, fuzzy_score) refl)
