-- ===== src/Extract/Slug.antt =====
-- SanitizeExtractSlug of internal/app/extract.go: the names that extraction gives to directories.
use resticscope.Prelude.{
  ℕ, zero, suc, ◌≤◌, Text, ◌≡◌, refl, ap, sym, subst, Bool, true, false, inl, inr, ◌||◌, ◌&&◌, leb,
  Option, none, some, [], ◌∷◌, arith, ◌==◌, All, length, take, Bool-cases, length-take,
}

unfoldable pub is_slug_char : ℕ → Bool
is_slug_char r =
    (leb b'a' r && leb r b'z')
    || (leb b'A' r && leb r b'Z')
    || (leb b'0' r && leb r b'9')
    || r == b'.'
    || r == b'_'
    || r == b'-'

-- What the loop writes, `dash` saying that the last character stands for a run of others.
unfoldable pub slug_runes : Bool → Text → Text
slug_runes dash [] = []
slug_runes dash (r ∷ s) = elim (is_slug_char r) [
  | true ↦ r ∷ slug_runes false s
  | false ↦ elim dash [ true ↦ slug_runes true s | false ↦ b'-' ∷ slug_runes true s ]
]

-- `strings.TrimLeft(s, "-.")`
unfoldable pub trim_left_marks : Text → Text
trim_left_marks [] = []
trim_left_marks (c ∷ s) = elim (c == b'-' || c == b'.') [ true ↦ trim_left_marks s | false ↦ c ∷ s ]

abbrev pub max_slug : ℕ
max_slug = 64

-- At most the first 64 bytes, and an error for an empty name.
abbrev cut : Text → Option Text
cut s = elim (take max_slug s) [ [] ↦ none | c ∷ t ↦ some (c ∷ t) ]

unfoldable pub sanitize_extract_slug : Text → Option Text
unfolding slug_runes trim_left_marks
sanitize_extract_slug s = cut (trim_left_marks (slug_runes false s))

-- A name of at most 64 safe characters that begins with no dash and no dot.
pub record IsSlug (t : Text) : Type 0 where
  pub head : ℕ
  pub tail : Text
  pub shape : t ≡ head ∷ tail
  pub safe : All (λ r. is_slug_char r ≡ true) t
  pub starts : (head == b'-' || head == b'.') ≡ false
  pub short : length t ≤ max_slug

slug_runes-safe : (dash : Bool) (s : Text) → All (λ r. is_slug_char r ≡ true) (slug_runes dash s)
unfolding slug_runes
slug_runes-safe dash [] = tt
slug_runes-safe dash (r ∷ s) = elim (Bool-cases (is_slug_char r)) [
  | inl e ↦ rw (e, All, slug_runes) (e, slug_runes-safe false s)
  | inr e ↦ rw (e, All, slug_runes) (run dash (slug_runes-safe true s))
]
  where
    run :
        (dash : Bool)
        → All (λ r. is_slug_char r ≡ true) (slug_runes true s)
        → All
            (λ r. is_slug_char r ≡ true)
            (elim dash [ true ↦ slug_runes true s | false ↦ b'-' ∷ slug_runes true s ])
    run true h = h
    run false h = (unfold is_slug_char in refl, h)

trim_left_marks-All : (P : ℕ → Type 0) (s : Text) → All P s → All P (trim_left_marks s)
unfolding trim_left_marks
trim_left_marks-All P [] h = tt
trim_left_marks-All P (c ∷ s) h = elim (Bool-cases (c == b'-' || c == b'.')) [
  | inl e ↦ rw (e, All, trim_left_marks) (trim_left_marks-All P s h.1)
  | inr e ↦ rw (e, All, trim_left_marks) h
]

pub take-All : (P : ℕ → Type 0) (n : ℕ) (s : Text) → All P s → All P (take n s)
take-All P zero s h = tt
take-All P (suc n) [] h = tt
take-All P (suc n) (c ∷ s) h = (h.0, take-All P n s h.1)

abbrev IsTrimmed : Text → Type 0
IsTrimmed [] = Unit
IsTrimmed (c ∷ s) = (c == b'-' || c == b'.') ≡ false

trim_left_marks-IsTrimmed : (s : Text) → IsTrimmed (trim_left_marks s)
unfolding trim_left_marks
trim_left_marks-IsTrimmed [] = tt
trim_left_marks-IsTrimmed (c ∷ s) = elim (Bool-cases (c == b'-' || c == b'.')) [
  | inl e ↦ rw (e, IsTrimmed, trim_left_marks) (trim_left_marks-IsTrimmed s)
  | inr e ↦ rw (e, IsTrimmed, trim_left_marks) e
]

cut-IsSlug :
    (s : Text) {t : Text}
    → All (λ r. is_slug_char r ≡ true) s
    → IsTrimmed s
    → cut s ≡ some t
    → IsSlug t
cut-IsSlug [] h k e = cc
cut-IsSlug (c ∷ s) {t} h k e =
    let eq : c ∷ take 63 s ≡ t = cc in
    subst (λ u. IsSlug u) eq
      (record {
        head = c;
        tail = take 63 s;
        shape = refl;
        safe = (h.0, take-All _ 63 s h.1);
        starts = k;
        short = omega (arith, length-take 63 s);
      })

-- A slug is its own slug.
slug_runes-fixed : (s : Text) → All (λ r. is_slug_char r ≡ true) s → slug_runes false s ≡ s
unfolding slug_runes
slug_runes-fixed [] h = refl
slug_runes-fixed (r ∷ s) h = rw (h.0, slug_runes) (ap (λ t. r ∷ t) (slug_runes-fixed s h.1))

take-all : (n : ℕ) (s : Text) → length s ≤ n → take n s ≡ s
take-all zero [] h = refl
take-all zero (c ∷ s) h = ground arith
take-all (suc n) [] h = refl
take-all (suc n) (c ∷ s) h = ap (λ t. c ∷ t) (take-all n s (omega arith))

pub IsSlug-fixed : (t : Text) → IsSlug t → sanitize_extract_slug t ≡ some t
unfolding sanitize_extract_slug trim_left_marks
IsSlug-fixed t k = rw (slug_runes-fixed t k.safe) (
    subst (λ u. length u ≤ max_slug → cut (trim_left_marks u) ≡ some u) (sym k.shape)
      (λ h. rw (k.starts, trim_left_marks, take-all max_slug (k.head ∷ k.tail) h) refl) k.short)

-- A name that is made from any text has between 1 and 64 characters, all of them letters, digits,
-- dots, underscores and dashes, and begins with no dash and no dot; making a name of it again
-- changes nothing.
pub sanitize_extract_slug-IsSlug :
    (s t : Text) → sanitize_extract_slug s ≡ some t → IsSlug t × (sanitize_extract_slug t ≡ some t)
sanitize_extract_slug-IsSlug s t h =
    let k : IsSlug t =
      cut-IsSlug (trim_left_marks (slug_runes false s))
        (trim_left_marks-All _ (slug_runes false s) (slug_runes-safe false s))
        (trim_left_marks-IsTrimmed (slug_runes false s)) (unfold sanitize_extract_slug in h) in
    (k, IsSlug-fixed t k)
