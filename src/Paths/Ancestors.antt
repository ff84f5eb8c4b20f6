-- ===== src/Paths/Ancestors.antt =====
-- The walk over the ancestors of a path: parents are shorter, so the loop ends.
use resticscope.Prelude.{
  ap, if◌then◌else◌, ◌∙◌, ℕ, zero, suc, ◌≤◌, ◌<◌, Text, ◌≡◌, refl, sym, true, false, inl, inr, ◌⊎◌,
  [], ◌∷◌, arith, ◌==◌, ==_iff, Bool-cases, length, text_eq, text_eq_iff, has_prefix,
}
use mathlib.Core.Bool.{false≢true}
use resticscope.Paths.{root, diff_parent_of, ancestors_within, ancestors}
use resticscope.Paths.Clean.{diff_parent_of-path_dir}
use resticscope.Paths.Weight.{length-path_dir}

-- A path has no parent or a shorter one.
pub length-diff_parent_of :
    (p : Text) → (diff_parent_of p ≡ []) ⊎ (length (diff_parent_of p) < length p)
length-diff_parent_of [] = inl (unfold diff_parent_of in refl)
length-diff_parent_of (c ∷ []) = inl (single (Bool-cases (c == b'/')))
  where
    single : ((c == b'/') ≡ true) ⊎ ((c == b'/') ≡ false) → diff_parent_of (c ∷ []) ≡ []
    single (inl e) = unfold diff_parent_of text_eq in rw e
    single (inr e) = unfold diff_parent_of text_eq has_prefix in rw e
length-diff_parent_of (c ∷ x ∷ t) = elim (Bool-cases (c == b'/')) [
  | inl e ↦ inr (shorter ((==_iff c b'/').0 e))
  | inr e ↦ inl (unfold diff_parent_of text_eq has_prefix in rw e)
]
  where
    shorter : c ≡ b'/' → length (diff_parent_of (c ∷ x ∷ t)) < length (c ∷ x ∷ t)
    shorter e = rw (e, diff_parent_of-path_dir x t) (length-path_dir x t)

within-nil : (n : ℕ) → ancestors_within n [] ≡ []
within-nil zero = unfold ancestors_within in refl
within-nil (suc n) = unfold ancestors_within diff_parent_of text_eq in refl

-- One round of the loop with fuel left.
within-suc :
    (n : ℕ) (p : Text)
    → text_eq (diff_parent_of p) [] ≡ false
    → text_eq (diff_parent_of p) root ≡ false
    → ancestors_within (suc n) p ≡ diff_parent_of p ∷ ancestors_within n (diff_parent_of p)
unfolding ancestors_within
within-suc n p e d = ground arith

within-last :
    (n : ℕ) (p : Text)
    → text_eq (diff_parent_of p) [] ≡ false
    → text_eq (diff_parent_of p) root ≡ true
    → ancestors_within (suc n) p ≡ diff_parent_of p ∷ []
unfolding ancestors_within
within-last n p e d = ground arith

within-stop : (n : ℕ) (p : Text) → text_eq (diff_parent_of p) [] ≡ true → ancestors_within n p ≡ []
unfolding ancestors_within
within-stop zero p e = refl
within-stop (suc n) p e = ground arith

parent_shorter :
    (n : ℕ) (p : Text)
    → text_eq (diff_parent_of p) [] ≡ false
    → length p ≤ suc n
    → length (diff_parent_of p) ≤ n
parent_shorter n p e h = elim (length-diff_parent_of p) [
  | inl z ↦ cc (e, (text_eq_iff (diff_parent_of p) []).1 z)
  | inr z ↦ omega arith
]

-- Fuel for the length of a path serves like any more.
pub within-enough :
    (n m : ℕ) (p : Text) → length p ≤ n → length p ≤ m → ancestors_within n p ≡ ancestors_within m p
within-enough n m [] h k = within-nil n ∙ sym (within-nil m)
within-enough zero m (c ∷ p) h k = absurd (omega arith)
within-enough (suc n) zero (c ∷ p) h k = absurd (omega arith)
within-enough (suc n) (suc m) (c ∷ p) h k =
    elim (Bool-cases (text_eq (diff_parent_of (c ∷ p)) [])) [
      | inl e ↦ within-stop (suc n) (c ∷ p) e ∙ sym (within-stop (suc m) (c ∷ p) e)
      | inr e ↦ elim (Bool-cases (text_eq (diff_parent_of (c ∷ p)) root)) [
        | inl d ↦ within-last n (c ∷ p) e d ∙ sym (within-last m (c ∷ p) e d)
        | inr d ↦
            within-suc n (c ∷ p) e d
            ∙ ap (λ t. diff_parent_of (c ∷ p) ∷ t)
                (within-enough n m (diff_parent_of (c ∷ p)) (parent_shorter n (c ∷ p) e h)
                  (parent_shorter m (c ∷ p) e k))
            ∙ sym (within-suc m (c ∷ p) e d)
      ]
    ]

ancestors-root : (a : Text) → text_eq a root ≡ true → ancestors a ≡ []
unfolding ancestors
ancestors-root a e =
    rw ((text_eq_iff a root).0 e) (unfold ancestors_within diff_parent_of text_eq in refl)

ancestors-fold :
    (p : Text)
    → text_eq (diff_parent_of p) [] ≡ false
    → ancestors p ≡ diff_parent_of p ∷ ancestors (diff_parent_of p)
ancestors-fold [] e = elim (false≢true (sym e ∙ (unfold diff_parent_of text_eq in refl))) [ ]
ancestors-fold (c ∷ p) e = elim (Bool-cases (text_eq (diff_parent_of (c ∷ p)) root)) [
  | inl d ↦
      rw (ancestors-root (diff_parent_of (c ∷ p)) d)
        (unfold ancestors in within-last (length p) (c ∷ p) e d)
  | inr d ↦
      unfold ancestors in
      within-suc (length p) (c ∷ p) e d
      ∙ ap (λ t. diff_parent_of (c ∷ p) ∷ t)
          (within-enough (length p) (length (diff_parent_of (c ∷ p))) (diff_parent_of (c ∷ p))
            (parent_shorter (length p) (c ∷ p) e (omega arith)) (omega arith))
]

-- The walk over the ancestors of a path ends: with fuel for the length of the path, or any more,
-- it visits the same paths. They are the parent and the ancestors of the parent, or none where
-- there is no parent.
pub ancestors_terminates :
    (n : ℕ) (p : Text)
    → length p ≤ n
    → (ancestors_within n p ≡ ancestors p)
      × (ancestors p ≡ (
          if text_eq (diff_parent_of p) []
          then []
          else diff_parent_of p ∷ ancestors (diff_parent_of p)))
ancestors_terminates n p h = (
  (unfold ancestors in within-enough n (length p) p h (omega arith)),
  elim (Bool-cases (text_eq (diff_parent_of p) [])) [
    | inl e ↦ rw e (unfold ancestors in within-stop (length p) p e)
    | inr e ↦ rw e (ancestors-fold p e)
  ],
)
