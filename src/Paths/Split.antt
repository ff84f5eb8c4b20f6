-- ===== src/Paths/Split.antt =====
-- Splitting at slashes, and cutting at the last slash, against texts that are joined by slashes.
use resticscope.Prelude.{
  if◌then◌else◌, ℕ, Text, ◌≡◌, refl, ap, false, inl, inr, List, [], ◌∷◌, ◌++◌, arith, ◌==◌, All,
  Bool-cases, append-nil,
}
use resticscope.Paths.{
  cons_head, split, render_all, through_last_slash, after_last_slash, trim_right_slash,
}

-- A text with no slash in it.
abbrev pub NoSlash : Text → Type 0
NoSlash c = All (λ x. (x == b'/') ≡ false) c

pub split-append_slash : (c s : Text) → NoSlash c → split (c ++ b'/' ∷ s) ≡ c ∷ split s
unfolding split
split-append_slash [] s h = refl
split-append_slash (x ∷ c) s h = rw (h.0, split-append_slash c s h.1)

pub split-NoSlash : (c : Text) → NoSlash c → split c ≡ c ∷ []
unfolding split
split-NoSlash [] h = refl
split-NoSlash (x ∷ c) h = rw (h.0, split-NoSlash c h.1)

cons_head-All :
    (c : ℕ) (xs : List Text) → (c == b'/') ≡ false → All NoSlash xs → All NoSlash (cons_head c xs)
unfolding cons_head
cons_head-All c [] e h = ((e, tt), tt)
cons_head-All c (x ∷ xs) e h = ((e, h.0), h.1)

-- No component has a slash.
pub All-split : (s : Text) → All NoSlash (split s)
unfolding split
All-split [] = (tt, tt)
All-split (c ∷ s) = elim (Bool-cases (c == b'/')) [
  | inl e ↦ rw e (tt, All-split s)
  | inr e ↦ rw e (cons_head-All c (split s) e (All-split s))
]

pub split-render_all :
    (c : Text) (cs : List Text) → NoSlash c → All NoSlash cs → split (c ++ render_all cs) ≡ c ∷ cs
unfolding render_all
split-render_all c [] h k = rw (append-nil c) (split-NoSlash c h)
split-render_all c (d ∷ cs) h k =
    rw (split-append_slash c (d ++ render_all cs) h)
      (ap (λ t. c ∷ t) (split-render_all d cs k.0 k.1))

pub through_last_slash-NoSlash : (c : Text) → NoSlash c → through_last_slash c ≡ []
unfolding through_last_slash
through_last_slash-NoSlash [] h = refl
through_last_slash-NoSlash (x ∷ c) h = ground (arith, through_last_slash-NoSlash c h.1)

pub through_last_slash-append :
    (s name : Text) → NoSlash name → through_last_slash (s ++ b'/' ∷ name) ≡ s ++ b'/' ∷ []
unfolding through_last_slash
through_last_slash-append [] name h = rw (through_last_slash-NoSlash name h)
through_last_slash-append (x ∷ s) name h = elim (Bool-cases (x == b'/')) [
  | inl e ↦ rw (e, through_last_slash-append s name h)
  | inr e ↦ rw (e, through_last_slash-append s name h) (snoc_head x s)
]
  where
    snoc_head :
        (x : ℕ) (s : Text)
        → (elim (s ++ b'/' ∷ []) [ [] ↦ [] | d ∷ r ↦ x ∷ d ∷ r ]) ≡ x ∷ (s ++ b'/' ∷ [])
    snoc_head x [] = refl
    snoc_head x (y ∷ s) = refl

after_last_slash-NoSlash : (c : Text) → NoSlash c → after_last_slash c ≡ c
unfolding after_last_slash
after_last_slash-NoSlash [] h = refl
after_last_slash-NoSlash (x ∷ c) h = rw (through_last_slash-NoSlash (x ∷ c) h, after_last_slash)

pub after_last_slash-append :
    (s name : Text) → NoSlash name → after_last_slash (s ++ b'/' ∷ name) ≡ name
unfolding after_last_slash
after_last_slash-append [] name h =
    rw (through_last_slash-append [] name h, after_last_slash) (after_last_slash-NoSlash name h)
after_last_slash-append (x ∷ s) name h =
    rw (through_last_slash-append (x ∷ s) name h, after_last_slash)
      (after_last_slash-append s name h)

trim_right_slash-NoSlash : (c : Text) → NoSlash c → trim_right_slash c ≡ c
unfolding trim_right_slash
trim_right_slash-NoSlash [] h = refl
trim_right_slash-NoSlash (x ∷ c) h = ground (arith, trim_right_slash-NoSlash c h.1)

-- A text that ends in something without a slash ends in no slash.
pub trim_right_slash-append :
    (s : Text) (n : ℕ) (name : Text)
    → NoSlash (n ∷ name)
    → trim_right_slash (s ++ n ∷ name) ≡ s ++ n ∷ name
unfolding trim_right_slash
trim_right_slash-append [] n name h = trim_right_slash-NoSlash (n ∷ name) h
trim_right_slash-append (x ∷ s) n name h = rw (trim_right_slash-append s n name h) (keep_head x s)
  where
    keep_head :
        (x : ℕ) (s : Text)
        → (elim (s ++ n ∷ name) [ [] ↦ if x == b'/' then [] else x ∷ [] | d ∷ r ↦ x ∷ d ∷ r ])
          ≡ x ∷ (s ++ n ∷ name)
    keep_head x [] = refl
    keep_head x (y ∷ s) = refl
