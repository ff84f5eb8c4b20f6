-- ===== src/Paths/Join.antt =====
-- `filepath.Join` and `path.Join` behind a rooted path: the components of both, resolved together.
use resticscope.Prelude.{
  ℕ, Text, ◌≡◌, refl, ap, ◌∙◌, inl, inr, List, [], ◌∷◌, ◌++◌, All, Bool-cases, ◌==◌, text_eq,
}
use resticscope.Paths.{
  cons_head, split, push_component, resolve, render_all, render, clean_rooted, join_rooted,
}
use resticscope.Paths.Split.{split-render_all, split-NoSlash}
use resticscope.Paths.Clean.{IsPlain, plain-NoSlash, resolve-IsPlain}
use resticscope.Paths.Parent.{resolve-append}

cons_head-append :
    (c : ℕ) (s : Text) (ys : List Text) → cons_head c (split s ++ ys) ≡ cons_head c (split s) ++ ys
unfolding cons_head split
cons_head-append c [] ys = refl
cons_head-append c (d ∷ s) ys = elim (Bool-cases (d == b'/')) [
  | inl e ↦ rw e refl
  | inr e ↦ rw e (at_head (split s))
]
  where
    at_head :
        (xs : List Text) → cons_head c (cons_head d xs ++ ys) ≡ cons_head c (cons_head d xs) ++ ys
    at_head [] = refl
    at_head (x ∷ xs) = refl

-- A slash ends a component.
pub split-slash : (s t : Text) → split (s ++ b'/' ∷ t) ≡ split s ++ split t
unfolding split
split-slash [] t = refl
split-slash (c ∷ s) t = elim (Bool-cases (c == b'/')) [
  | inl e ↦ rw (e, split-slash s t) refl
  | inr e ↦ rw (e, split-slash s t) (cons_head-append c s (split t))
]

-- The components that cleaning leaves of a rooted path.
abbrev pub resolved : Text → List Text
resolved p = resolve [] (split p)

pub resolved-slash : (p t : Text) → resolved (p ++ b'/' ∷ t) ≡ resolve (resolved p) (split t)
resolved-slash p t = ap (resolve []) (split-slash p t) ∙ resolve-append [] (split p) (split t)

pub resolved-render : (cs : List Text) → All IsPlain cs → resolved (render cs) ≡ cs
unfolding render render_all split resolve push_component text_eq
resolved-render [] h = refl
resolved-render (c ∷ cs) h =
    rw (split-render_all c cs h.0.no_slash (plain-NoSlash cs h.1)) (resolve-IsPlain [] (c ∷ cs) h)

-- Joining a plain name adds it to the components.
pub join_rooted-name :
    (p name : Text) → IsPlain name → join_rooted p name ≡ render (resolved p ++ name ∷ [])
unfolding join_rooted clean_rooted
join_rooted-name p name h = ap render (
    resolved-slash p name
    ∙ ap (resolve (resolved p)) (split-NoSlash name h.no_slash)
    ∙ resolve-IsPlain (resolved p) (name ∷ []) (h, tt))

-- Joining nothing only cleans.
pub join_rooted-empty : (cs : List Text) → All IsPlain cs → join_rooted (render cs) [] ≡ render cs
unfolding join_rooted clean_rooted
join_rooted-empty cs h = ap render (
    resolved-slash (render cs) []
    ∙ (rw (resolved-render cs h) (unfold split resolve push_component text_eq in refl)))

-- Joining a relative path of plain components adds them all.
pub join_rooted-path :
    (cs : List Text) (d : Text) (ds : List Text)
    → All IsPlain cs
    → All IsPlain (d ∷ ds)
    → join_rooted (render cs) (d ++ render_all ds) ≡ render (cs ++ d ∷ ds)
unfolding join_rooted clean_rooted
join_rooted-path cs d ds h k = ap render (
    resolved-slash (render cs) (d ++ render_all ds)
    ∙ (rw (resolved-render cs h, split-render_all d ds k.0.no_slash (plain-NoSlash ds k.1))
        (resolve-IsPlain cs (d ∷ ds) k)))
