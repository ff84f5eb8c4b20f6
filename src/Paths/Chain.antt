-- ===== src/Paths/Chain.antt =====
-- Membership among the ancestors of a path: they are shorter, and their ancestors are among them.
use resticscope.Prelude.{
  ap, ◌↔◌, ℕ, zero, suc, ◌≤◌, ◌<◌, Text, ◌≡◌, refl, true, false, inl, inr, ◌⊎◌, List, [], ◌∷◌,
  arith, Any, here, there, Bool, ◌||◌, Bool-cases, length, text_eq, text_eq_iff, subst,
}
use resticscope.Paths.{diff_parent_of, ancestors}
use resticscope.Paths.Ancestors.{length-diff_parent_of, ancestors_terminates}

pub unfolded :
    (p : Text)
    → (ancestors p ≡ [])
      ⊎ ((ancestors p ≡ diff_parent_of p ∷ ancestors (diff_parent_of p))
          × (length (diff_parent_of p) < length p))
unfolded p = elim (Bool-cases (text_eq (diff_parent_of p) [])) [
  | inl e ↦ inl (rw e at (ancestors_terminates (length p) p (omega arith)).1)
  | inr e ↦ inr (
    rw e at (ancestors_terminates (length p) p (omega arith)).1,
    elim (length-diff_parent_of p) [
      | inl z ↦ cc (e, (text_eq_iff (diff_parent_of p) []).1 z)
      | inr z ↦ z
    ],
  )
]

-- What holds of an ancestor holds of the parent or of an ancestor of the parent.
cases :
    (P : Text → Type 0) (p : Text)
    → Any P (ancestors p)
    → (length (diff_parent_of p) < length p)
      × (ancestors p ≡ diff_parent_of p ∷ ancestors (diff_parent_of p))
      × (P (diff_parent_of p) ⊎ Any P (ancestors (diff_parent_of p)))
cases P p a = elim (unfolded p) [
  | inl e ↦ none_of (subst (Any P) e a)
  | inr (e, l) ↦ (l, e, split_of (subst (Any P) e a))
]
  where
    none_of : {B : Type 0} → Any P [] → B
    none_of b = elim b [ ]

    split_of : {x : Text} {xs : List Text} → Any P (x ∷ xs) → P x ⊎ Any P xs
    split_of (here h) = inl h
    split_of (there h) = inr h

-- An ancestor is shorter than the path.
pub ancestor_shorter :
    (n : ℕ) (p a : Text) → length p ≤ n → Any (λ q. q ≡ a) (ancestors p) → length a < length p
ancestor_shorter zero p a h m = let (l, e, c) = cases (λ q. q ≡ a) p m in absurd (omega arith)
ancestor_shorter (suc n) p a h m =
    let (l, e, c) = cases (λ q. q ≡ a) p m in
    elim c [
      | inl q ↦ rw q at l
      | inr r ↦ omega (arith, l, ancestor_shorter n (diff_parent_of p) a (omega arith) r)
    ]

-- An ancestor of an ancestor is an ancestor.
pub ancestors_trans :
    (P : Text → Type 0) (n : ℕ) (p a : Text)
    → length p ≤ n
    → Any (λ q. q ≡ a) (ancestors p)
    → Any P (ancestors a)
    → Any P (ancestors p)
ancestors_trans P zero p a h m k = let (l, e, c) = cases (λ q. q ≡ a) p m in absurd (omega arith)
ancestors_trans P (suc n) p a h m k =
    let (l, e, c) = cases (λ q. q ≡ a) p m in
    elim c [
      | inl q ↦ rw e (there (rw q k))
      | inr r ↦ rw e (there (ancestors_trans P n (diff_parent_of p) a (omega arith) r k))
    ]

-- Whether a text is in a list.
abbrev pub elem : Text → List Text → Bool
elem d [] = false
elem d (a ∷ chain) = text_eq a d || elem d chain

-- Each path in a chain is longer than those behind it.
abbrev pub IsDecreasing : ℕ → List Text → Type 0
IsDecreasing n [] = Unit
IsDecreasing n (a ∷ chain) = (length a < n) × IsDecreasing (length a) chain

decreasing : (n : ℕ) (p : Text) → length p ≤ n → IsDecreasing (length p) (ancestors p)
decreasing zero p h = elim (unfolded p) [ inl e ↦ rw e tt | inr (e, l) ↦ absurd (omega arith) ]
decreasing (suc n) p h = elim (unfolded p) [
  | inl e ↦ rw e tt
  | inr (e, l) ↦ rw e (l, decreasing n (diff_parent_of p) (omega arith))
]

-- The ancestors of a path get shorter.
pub ancestors-IsDecreasing : (p : Text) → IsDecreasing (length p) (ancestors p)
ancestors-IsDecreasing p = decreasing (length p) p (omega arith)

-- What is as long as the bound of a decreasing chain is not in it.
pub not-elem :
    (d : Text) (n : ℕ) (chain : List Text)
    → IsDecreasing n chain
    → n ≤ length d
    → elem d chain ≡ false
not-elem d n [] h k = refl
not-elem d n (a ∷ chain) h k =
    rw (not_equal (text_eq_iff a d)) (not-elem d (length a) chain h.1 (omega (arith, h.0)))
  where
    not_equal : ((text_eq a d ≡ true) ↔ (a ≡ d)) → text_eq a d ≡ false
    not_equal iff = elim (Bool-cases (text_eq a d)) [
      | inl e ↦
          absurd (let same : length a ≡ length d = ap length (iff.0 e) in omega (arith, h.0, same))
      | inr e ↦ e
    ]

elem-Any : (a : Text) (chain : List Text) → elem a chain ≡ true → Any (λ q. q ≡ a) chain
elem-Any a [] h = cc
elem-Any a (x ∷ chain) h = elim (Bool-cases (text_eq x a)) [
  | inl e ↦ here ((text_eq_iff x a).0 e)
  | inr e ↦ there (elem-Any a chain (ground arith))
]

Any-elem : (a : Text) (chain : List Text) → Any (λ q. q ≡ a) chain → elem a chain ≡ true
Any-elem a [] m = elim m [ ]
Any-elem a (x ∷ chain) (here e) = rw ((text_eq_iff x a).1 e)
Any-elem a (x ∷ chain) (there m) = ground (arith, Any-elem a chain m)

pub elem_trans :
    (p q a : Text)
    → elem q (ancestors p) ≡ true
    → elem a (ancestors q) ≡ true
    → elem a (ancestors p) ≡ true
elem_trans p q a h k = Any-elem a (ancestors p) (
    ancestors_trans (λ x. x ≡ a) (length p) p q (omega arith) (elem-Any q (ancestors p) h)
      (elem-Any a (ancestors q) k))
