-- ===== src/Extract/Plain.antt =====
-- The names that a plan puts into its paths are plain components.
use resticscope.Prelude.{
  ℕ, zero, suc, Text, ◌≡◌, refl, ap, sym, ◌∙◌, subst, true, false, inl, inr, ◌&&◌, [], ◌∷◌, ◌++◌,
  codes, text_eq, text_eq_iff, arith, ◌==◌, ==_iff, All, All-append, All-impl, take, Bool-cases,
  none, some, Option-cases,
}
use resticscope.Paths.{clean_browse_path}
use resticscope.Paths.Split.{NoSlash}
use resticscope.Paths.Clean.{IsPlain, IsClean, clean_browse_path-IsClean}
use resticscope.Extract.{
  is_lower_hex, all_lower_hex, is_snapshot_short, behind, drop, diff_container_sides,
  container_names, contains_rune,
}
use resticscope.Extract.Slug.{IsSlug, is_slug_char}

-- A component that begins with no dot.
headed-IsPlain : (c : ℕ) (t : Text) → NoSlash (c ∷ t) → (c == b'.') ≡ false → IsPlain (c ∷ t)
unfolding text_eq
headed-IsPlain c t h k = record {
  no_slash = h;
  not_empty = refl;
  not_dot = rw k refl;
  not_dots = rw k refl;
}

is_slug_char-no_slash : (r : ℕ) → is_slug_char r ≡ true → (r == b'/') ≡ false
unfolding is_slug_char
is_slug_char-no_slash r h = ground arith

pub IsSlug-IsPlain : (t : Text) → IsSlug t → IsPlain t
IsSlug-IsPlain t k =
    let safe : NoSlash t = All-impl _ _ is_slug_char-no_slash t k.safe in
    rw k.shape
      (headed-IsPlain k.head k.tail (subst NoSlash k.shape safe) (ground (arith, k.starts)))

is_lower_hex-plain : (c : ℕ) → is_lower_hex c ≡ true → ((c == b'/') ≡ false) × ((c == b'.') ≡ false)
unfolding is_lower_hex
is_lower_hex-plain c h = ground arith

pub all_lower_hex-All : (s : Text) → all_lower_hex s ≡ true → All (λ c. is_lower_hex c ≡ true) s
unfolding all_lower_hex
all_lower_hex-All [] h = tt
all_lower_hex-All (c ∷ s) h = (ground arith, all_lower_hex-All s (ground arith))

pub hex-NoSlash : (s : Text) → All (λ c. is_lower_hex c ≡ true) s → NoSlash s
hex-NoSlash s h = All-impl _ _ (λ c e. (is_lower_hex-plain c e).0) s h

-- A snapshot's short has a first character, a digit.
pub short_shape :
    (s : Text)
    → is_snapshot_short s ≡ true
    → (c : ℕ) × (t : Text) × (s ≡ c ∷ t) × ((c == b'.') ≡ false) × NoSlash (c ∷ t)
unfolding is_snapshot_short
short_shape [] h = cc
short_shape (c ∷ t) h =
    let all = all_lower_hex-All (c ∷ t) (ground arith) in
    (c, t, refl, (is_lower_hex-plain c all.0).1, hex-NoSlash (c ∷ t) all)

pub short-IsPlain : (s : Text) → is_snapshot_short s ≡ true → IsPlain s
short-IsPlain s h = let (c, t, e, d, n) = short_shape s h in rw e (headed-IsPlain c t n d)

pub behind_lem : (p s : Text) {r : Text} → behind p s ≡ some r → s ≡ p ++ r
unfolding behind
behind_lem [] s h = cc
behind_lem (d ∷ p) [] h = cc
behind_lem (d ∷ p) (c ∷ s) {r = r} h = elim (Bool-cases (c == d)) [
  | inl e ↦
      let eq : c ≡ d = (==_iff c d).0 e in
      rw eq (ap (λ t. d ∷ t) (behind_lem p s {r = r} (rw (e, behind) at h)))
  | inr e ↦ let bad : none ≡ some r = rw (e, behind) at h in cc
]

take-drop : (n : ℕ) (s : Text) → s ≡ take n s ++ drop n s
unfolding drop
take-drop zero s = refl
take-drop (suc n) [] = refl
take-drop (suc n) (c ∷ s) = ap (λ t. c ∷ t) (take-drop n s)

-- The name is made of the two shorts.
abbrev AreSides : Text → Text × Text → Type 0
AreSides s m =
    (s ≡ codes "diff-" ++ (m.0 ++ b'-' ∷ m.1))
    × (is_snapshot_short m.0 ≡ true)
    × (is_snapshot_short m.1 ≡ true)

sides_of :
    (s r q : Text)
    → behind (codes "diff-") s ≡ some r
    → behind (codes "-") (drop 8 r) ≡ some q
    → (is_snapshot_short (take 8 r) && is_snapshot_short q) ≡ true
    → AreSides s (take 8 r, q)
sides_of s r q e d b =
    let split : r ≡ take 8 r ++ b'-' ∷ q =
      take-drop 8 r ∙ ap (λ t. take 8 r ++ t) (behind_lem (codes "-") (drop 8 r) d) in
    (
      behind_lem (codes "diff-") s e ∙ ap (λ t. codes "diff-" ++ t) split,
      ground arith,
      ground arith,
    )

diff_container_sides_lem :
    (s : Text) (m : Text × Text) → diff_container_sides s ≡ some m → AreSides s m
unfolding diff_container_sides
diff_container_sides_lem s m h = elim (Option-cases (behind (codes "diff-") s)) [
  | inl e ↦ let bad : none ≡ some m = rw (e, diff_container_sides) at h in cc
  | inr (r, e) ↦ elim (Option-cases (behind (codes "-") (drop 8 r))) [
    | inl d ↦ let bad : none ≡ some m = rw (e, d, diff_container_sides) at h in cc
    | inr (q, d) ↦ elim (Bool-cases (is_snapshot_short (take 8 r) && is_snapshot_short q)) [
      | inl b ↦
          let found : some (take 8 r, q) ≡ some m = rw (e, d, b, diff_container_sides) at h in
          let eq : (take 8 r, q) ≡ m = cc in subst (AreSides s) eq (sides_of s r q e d b)
      | inr b ↦ let bad : none ≡ some m = rw (e, d, b, diff_container_sides) at h in cc
    ]
  ]
]

short-hex : (t : Text) → is_snapshot_short t ≡ true → all_lower_hex t ≡ true
unfolding is_snapshot_short
short-hex t h = ground arith

pub short-NoSlash : (t : Text) → is_snapshot_short t ≡ true → NoSlash t
short-NoSlash t h = hex-NoSlash t (all_lower_hex-All t (short-hex t h))

pub container-IsPlain :
    (s short : Text) → container_names s short ≡ true → IsPlain s × ((t : Text) × (s ≡ b'd' ∷ t))
unfolding container_names
container-IsPlain s short h = elim (Option-cases (diff_container_sides s)) [
  | inl e ↦ let bad : false ≡ true = rw (e, container_names) at h in cc
  | inr (m, e) ↦
      let (eq, a, b) = diff_container_sides_lem s m e in
      let rest : NoSlash (codes "iff-" ++ (m.0 ++ b'-' ∷ m.1)) = (
        refl,
        (
          refl,
          (
            refl,
            (refl, All-append _ m.0 (b'-' ∷ m.1) (short-NoSlash m.0 a) (refl, short-NoSlash m.1 b)),
          ),
        ),
      ) in
      (rw eq (headed-IsPlain b'd' _ (refl, rest) refl), (_, eq))
]

pub contains_rune-All :
    (r : ℕ) (s : Text) → contains_rune r s ≡ false → All (λ c. (c == r) ≡ false) s
unfolding contains_rune
contains_rune-All r [] h = tt
contains_rune-All r (c ∷ s) h = (ground arith, contains_rune-All r s (ground arith))

-- A text that equals its cleaning is clean.
pub fixed-IsClean : (p : Text) → text_eq p (clean_browse_path p) ≡ true → IsClean p
fixed-IsClean p h =
    subst IsClean (sym ((text_eq_iff p (clean_browse_path p)).0 h)) (clean_browse_path-IsClean p)
