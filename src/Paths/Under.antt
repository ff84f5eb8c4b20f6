-- ===== src/Paths/Under.antt =====
-- A clean path at or below another one: its components are the other's and some more.
use resticscope.Prelude.{
  Text, ◌≡◌, refl, ap, sym, ◌∙◌, subst, true, inl, inr, List, [], ◌∷◌, ◌++◌, arith, ◌==◌, ==_iff,
  All, Bool-cases, has_prefix,
}
use resticscope.Paths.{cons_head, split, render_all, render}
use resticscope.Paths.Split.{split-render_all}
use resticscope.Paths.Clean.{IsPlain, plain-NoSlash}
use resticscope.Paths.Join.{split-slash}

pub has_prefix_lem : (s p : Text) → has_prefix s p ≡ true → (r : Text) × (s ≡ p ++ r)
unfolding has_prefix
has_prefix_lem s [] h = (s, refl)
has_prefix_lem [] (d ∷ p) h = cc
has_prefix_lem (c ∷ s) (d ∷ p) h =
    let (r, e) = has_prefix_lem s p (ground arith) in
    let same : c ≡ d = ground arith in (r, rw (same, e) refl)

-- Writing the components out again.
render_all-split : (s : Text) → render_all (split s) ≡ b'/' ∷ s
unfolding render_all split cons_head
render_all-split [] = refl
render_all-split (c ∷ s) = elim (Bool-cases (c == b'/')) [
  | inl e ↦ let same : c ≡ b'/' = (==_iff c b'/').0 e in rw (e, render_all-split s, same) refl
  | inr e ↦ rw e (head (split s) (render_all-split s))
]
  where
    head : (xs : List Text) → render_all xs ≡ b'/' ∷ s → render_all (cons_head c xs) ≡ b'/' ∷ c ∷ s
    head [] h = cc
    head (x ∷ xs) h = cc

pub split-render :
    (c : Text) (cs : List Text) → All IsPlain (c ∷ cs) → split (render (c ∷ cs)) ≡ [] ∷ c ∷ cs
unfolding render render_all split
split-render c cs h = rw (split-render_all c cs h.0.no_slash (plain-NoSlash cs h.1)) refl

split_below-IsPlain : (cs ds : List Text) → All IsPlain (cs ++ ds) → All IsPlain ds
split_below-IsPlain [] ds h = h
split_below-IsPlain (c ∷ cs) ds h = split_below-IsPlain cs ds h.1

-- What follows a clean path and a slash in a clean path is made of plain components.
pub below_lem :
    (c d : Text) (cs ds : List Text) (r : Text)
    → All IsPlain (c ∷ cs)
    → All IsPlain (d ∷ ds)
    → render (d ∷ ds) ≡ render (c ∷ cs) ++ b'/' ∷ r
    → (es : List Text) × (b'/' ∷ r ≡ render_all es) × All IsPlain es
below_lem c d cs ds r h k e =
    let eq : [] ∷ d ∷ ds ≡ ([] ∷ c ∷ cs) ++ split r =
      sym (split-render d ds k)
      ∙ ap split e
      ∙ split-slash (render (c ∷ cs)) r
      ∙ ap (λ l. l ++ split r) (split-render c cs h) in
    let tail : d ∷ ds ≡ (c ∷ cs) ++ split r = cc in
    (
      split r,
      sym (render_all-split r),
      split_below-IsPlain (c ∷ cs) (split r) (subst (All IsPlain) tail k),
    )
