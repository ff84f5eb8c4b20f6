-- ===== src/Extract/Args/Literal.antt =====
-- literalIncludePattern of internal/resticx/extract_tree.go against the patterns of Go's
-- `filepath.Match`, which restic applies to the components of a path.
use resticscope.Prelude.{
  ℕ, Text, ◌≡◌, ◌≢◌, ◌↔◌, ◌⊎◌, refl, ap, ◌∙◌, false, inl, inr, [], ◌∷◌, ◌++◌, arith, Bool-cases,
}
use resticscope.Extract.Args.{is_meta, literal_include_pattern}

-- The characters of a pattern that stand for others: those of Go's `filepath.Match`.
abbrev pub IsWild : ℕ → Type 0
IsWild c = (c ≡ b'*') ⊎ (c ≡ b'?') ⊎ (c ≡ b'[')

-- The texts that a pattern matches, by the documented grammar of `filepath.Match`; `InClass` says
-- which characters the inside of a bracket stands for.
pub data Matches (InClass : Text → ℕ → Type 0) : Text → Text → Type 0 where
  nothing : Matches InClass [] []
  plain :
      {c : ℕ} {p s : Text}
      → ¬ IsWild c
      → c ≢ b'\\'
      → Matches InClass p s
      → Matches InClass (c ∷ p) (c ∷ s)
  escaped :
      {b c : ℕ} {p s : Text} → b ≡ b'\\' → Matches InClass p s → Matches InClass (b ∷ c ∷ p) (c ∷ s)
  one :
      {q c : ℕ} {p s : Text}
      → q ≡ b'?'
      → c ≢ b'/'
      → Matches InClass p s
      → Matches InClass (q ∷ p) (c ∷ s)
  stop : {q : ℕ} {p s : Text} → q ≡ b'*' → Matches InClass p s → Matches InClass (q ∷ p) s
  more :
      {q c : ℕ} {p s : Text}
      → q ≡ b'*'
      → c ≢ b'/'
      → Matches InClass (q ∷ p) s
      → Matches InClass (q ∷ p) (c ∷ s)
  bracket :
      {q c : ℕ} {p s : Text} (body rest : Text)
      → q ≡ b'['
      → p ≡ body ++ b']' ∷ rest
      → InClass body c
      → Matches InClass rest s
      → Matches InClass (q ∷ p) (c ∷ s)

not-IsWild : (r : ℕ) → is_meta r ≡ false → ¬ IsWild r
unfolding is_meta
not-IsWild r e = ground arith

not_backslash : (r : ℕ) → is_meta r ≡ false → r ≢ b'\\'
unfolding is_meta
not_backslash r e = ground arith

module _ (InClass : Text → ℕ → Type 0) where
  plain_inv :
      {r : ℕ} {p t : Text}
      → ¬ IsWild r
      → r ≢ b'\\'
      → Matches InClass (r ∷ p) t
      → (s : Text) × (t ≡ r ∷ s) × Matches InClass p s
  plain_inv n k (plain _ _ d) = (_, refl, d)
  plain_inv n k (escaped e d) = absurd (k e)
  plain_inv n k (one e _ d) = absurd (n (inr (inl e)))
  plain_inv n k (stop e d) = absurd (n (inl e))
  plain_inv n k (more e _ d) = absurd (n (inl e))
  plain_inv n k (bracket _ _ e _ _ d) = absurd (n (inr (inr e)))

  escaped_inv :
      {b r : ℕ} {p t : Text}
      → b ≡ b'\\'
      → Matches InClass (b ∷ r ∷ p) t
      → (s : Text) × (t ≡ r ∷ s) × Matches InClass p s
  escaped_inv e (plain _ k d) = absurd (k e)
  escaped_inv e (escaped _ d) = (_, refl, d)
  escaped_inv e (one f _ d) = absurd (omega arith)
  escaped_inv e (stop f d) = absurd (omega arith)
  escaped_inv e (more f _ d) = absurd (omega arith)
  escaped_inv e (bracket _ _ f _ _ d) = absurd (omega arith)

  matches_itself : (p : Text) → Matches InClass (literal_include_pattern p) p
  unfolding literal_include_pattern
  matches_itself [] = nothing
  matches_itself (r ∷ p) = elim (Bool-cases (is_meta r)) [
    | inl e ↦ rw e (escaped refl (matches_itself p))
    | inr e ↦ rw e (plain (not-IsWild r e) (not_backslash r e) (matches_itself p))
  ]

  matches_alone : (p t : Text) → Matches InClass (literal_include_pattern p) t → t ≡ p
  unfolding literal_include_pattern
  matches_alone [] t nothing = refl
  matches_alone (r ∷ p) t d = elim (Bool-cases (is_meta r)) [
    | inl e ↦
        let (s, h, d') = escaped_inv refl (rw e at d) in h ∙ ap (λ u. r ∷ u) (matches_alone p s d')
    | inr e ↦
        let (s, h, d') = plain_inv (not-IsWild r e) (not_backslash r e) (rw e at d) in
        h ∙ ap (λ u. r ∷ u) (matches_alone p s d')
  ]

  -- The pattern of an include path matches that path and no other text, by the grammar of
  -- `filepath.Match` and whatever the brackets stand for.
  pub literal_include_pattern-Matches :
      (p t : Text) → Matches InClass (literal_include_pattern p) t ↔ (t ≡ p)
  literal_include_pattern-Matches p t = (matches_alone p t, λ e. rw e (matches_itself p))
