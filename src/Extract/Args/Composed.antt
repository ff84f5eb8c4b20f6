-- ===== src/Extract/Args/Composed.antt =====
-- A planned extraction reaches restic: the parameters that internal/app makes of a request pass the
-- assertions of internal/resticx.
use resticscope.Prelude.{
  ℕ, Text, ◌≡◌, refl, ap, sym, ◌∙◌, subst, true, false, inl, inr, ◌⊎◌, ◌||◌, List, [], ◌∷◌, ◌++◌,
  map, arith, All, All-impl, append_assoc, append-nil, Bool-cases, ok, text_eq, text_eq_iff,
  has_prefix,
}
use mathlib.Core.Bool.{false≢true}
use resticscope.Paths.{root, render, render_all, path_base, path_dir, clean_browse_path}
use resticscope.Paths.Clean.{IsPlain, IsClean, render-starts}
use resticscope.Paths.Parent.{dir_render, base_render, render_all-append}
use resticscope.Paths.Under.{has_prefix_lem, below_lem}
use resticscope.Extract.{ExtractRequest, contains_rune, include_fits, trim_prefix, source_prefix}
use resticscope.Extract.Plan.{ExtractTreeParams, extract_tree_params, rebased}
use resticscope.Extract.Plain.{fixed-IsClean}
use resticscope.Extract.Args.{clean_source, check_include_paths}
use resticscope.Extract.Args.Accepted.{
  IsAccepted, contains_rune-append, render_all-IsAccepted, clean_source-render, trim_prefix-append,
  last_of, accept_lem,
}

check_include_paths-All : (ps : List Text) → All IsAccepted ps → check_include_paths ps ≡ ok tt
unfolding check_include_paths
check_include_paths-All [] h = refl
check_include_paths-All (p ∷ ps) h = rw h.0 (check_include_paths-All ps h.1)

-- An include path at or below the source.
include_parts :
    (src p : Text)
    → include_fits src p ≡ true
    → (text_eq p [] ≡ false)
      × (text_eq p root ≡ false)
      × (contains_rune 0 p ≡ false)
      × (text_eq p (clean_browse_path p) ≡ true)
      × ((p ≡ src) ⊎ (has_prefix p (source_prefix src) ≡ true))
unfolding include_fits
include_parts src p h =
    (ground arith, ground arith, ground arith, ground arith, ground (arith, text_eq_iff p src))

-- Below the root every include path is passed on as it is.
include-IsAccepted : (src p : Text) → include_fits src p ≡ true → IsAccepted p
include-IsAccepted src p h =
    let (a, b, z, e, _) = include_parts src p h in
    let c = fixed-IsClean p e in
    accept_lem p
      (subst (λ q. has_prefix q root ≡ true) (sym c.rendered) (render-starts c.components).0, a, b)
      z e

-- A source below the root: its directory and its last component.
pub record IsSource (src : Text) : Type 0 where
  pub above : List Text
  pub head : ℕ
  pub tail : Text
  pub above_plain : All IsPlain above
  pub name_plain : IsPlain (head ∷ tail)
  pub written : src ≡ render_all above ++ b'/' ∷ head ∷ tail
  pub first : Text
  pub rest : List Text
  pub all_plain : All IsPlain (first ∷ rest)
  pub is_render : src ≡ render (first ∷ rest)

All-parts : (xs ys : List Text) → All IsPlain (xs ++ ys) → All IsPlain xs × All IsPlain ys
All-parts [] ys h = (tt, h)
All-parts (x ∷ xs) ys h = let (a, b) = All-parts xs ys h.1 in ((h.0, a), b)

pub render-IsSource :
    (cs : List Text) → All IsPlain cs → text_eq (render cs) root ≡ false → IsSource (render cs)
render-IsSource [] h k = elim (false≢true (sym k ∙ unfold render text_eq in refl)) [ ]
render-IsSource (c ∷ cs) h k =
    let (above, d, eq) = last_of c cs in
    let (plain, last) = All-parts above (d ∷ []) (subst (All IsPlain) eq h) in
    at above d eq plain last.0
  where
    at :
        (above : List Text) (d : Text)
        → c ∷ cs ≡ above ++ d ∷ []
        → All IsPlain above
        → IsPlain d
        → IsSource (render (c ∷ cs))
    at above [] eq plain last = elim (false≢true (sym last.not_empty ∙ unfold text_eq in refl)) [ ]
    at above (x ∷ d) eq plain last = record {
      above = above;
      head = x;
      tail = d;
      above_plain = plain;
      name_plain = last;
      written = unfold render in (ap render_all eq ∙ render_all-append above (x ∷ d));
      first = c;
      rest = cs;
      all_plain = h;
      is_render = refl;
    }

module _ (src : Text) (s : IsSource src) where
  pub base_of : path_base src ≡ s.head ∷ s.tail
  base_of =
      ap path_base s.written ∙ base_render s.above s.head s.tail s.above_plain s.name_plain.no_slash

  zero_parts :
      contains_rune 0 src ≡ false
      → (contains_rune 0 (render_all s.above) ≡ false)
        × (contains_rune 0 (b'/' ∷ s.head ∷ s.tail) ≡ false)
  zero_parts z =
      let all : contains_rune 0 (render_all s.above ++ b'/' ∷ s.head ∷ s.tail) ≡ false =
        sym (ap (contains_rune 0) s.written) ∙ z in
      let parts = contains_rune-append 0 (render_all s.above) (b'/' ∷ s.head ∷ s.tail) in
      ground (arith, all, parts)

  source_lem : contains_rune 0 src ≡ false → clean_source (path_dir src) ≡ true
  source_lem z =
      ap clean_source (
        ap path_dir s.written
        ∙ dir_render s.above s.head s.tail s.above_plain s.name_plain.no_slash)
      ∙ clean_source-render s.above s.above_plain (zero_parts z).0

  -- The last component with plain components below it.
  under_name :
      (es : List Text)
      → All IsPlain es
      → contains_rune 0 src ≡ false
      → contains_rune 0 (render_all es) ≡ false
      → IsAccepted (b'/' ∷ ((s.head ∷ s.tail) ++ render_all es))
  unfolding render_all contains_rune
  under_name es h z w =
      render_all-IsAccepted (s.head ∷ s.tail) es (s.name_plain, h)
        (ground (arith, zero_parts z, contains_rune-append 0 s.tail (render_all es), w))

  base-IsAccepted : contains_rune 0 src ≡ false → IsAccepted (b'/' ∷ path_base src)
  unfolding render_all contains_rune
  base-IsAccepted z =
      subst (λ t. IsAccepted (b'/' ∷ t)) (append-nil (s.head ∷ s.tail) ∙ sym base_of)
        (under_name [] tt z refl)

  below-IsAccepted :
      (p r : Text)
      → contains_rune 0 src ≡ false
      → contains_rune 0 p ≡ false
      → IsClean p
      → text_eq p root ≡ false
      → p ≡ src ++ b'/' ∷ r
      → IsAccepted (rebased src p)
  unfolding rebased
  below-IsAccepted p r z w c k e =
      let (es, written, plain) =
        parts c.components c.plain (sym c.rendered ∙ e) (rw c.rendered at k) in
      let zero : contains_rune 0 src || contains_rune 0 (b'/' ∷ r) ≡ false =
        sym (ap (contains_rune 0) e ∙ contains_rune-append 0 src (b'/' ∷ r)) ∙ w in
      subst (λ t. IsAccepted (b'/' ∷ t))
        (ap (λ t. t ++ render_all es) (sym base_of)
          ∙ ap (λ t. path_base src ++ t)
              (sym written
                ∙ sym (trim_prefix-append src (b'/' ∷ r))
                ∙ ap (λ q. trim_prefix q src) (sym e)))
        (under_name es plain z (ap (contains_rune 0) (sym written) ∙ ground (arith, zero, z)))
    where
      parts :
          (ds : List Text)
          → All IsPlain ds
          → render ds ≡ src ++ b'/' ∷ r
          → text_eq (render ds) root ≡ false
          → (es : List Text) × (b'/' ∷ r ≡ render_all es) × All IsPlain es
      parts [] h eq n = elim (false≢true (sym n ∙ unfold render text_eq in refl)) [ ]
      parts (d ∷ ds) h eq n =
          below_lem s.first d s.rest ds r s.all_plain h (eq ∙ ap (λ t. t ++ b'/' ∷ r) s.is_render)

  rebased-IsAccepted :
      (p : Text)
      → text_eq src root ≡ false
      → contains_rune 0 src ≡ false
      → include_fits src p ≡ true
      → IsAccepted (rebased src p)
  unfolding rebased source_prefix
  rebased-IsAccepted p n z h =
      let (_, k, w, e, at_or_below) = include_parts src p h in
      elim at_or_below [
        | inl same ↦
            subst (λ t. IsAccepted (b'/' ∷ t))
              (sym (append-nil (path_base src))
                ∙ ap (λ t. path_base src ++ t)
                    (sym (trim_prefix-append src [])
                      ∙ ap (λ q. trim_prefix q src) (append-nil src ∙ sym same)))
              (base-IsAccepted z)
        | inr below ↦
            let (r, eq) = has_prefix_lem p (src ++ root) (rw n at below) in
            below-IsAccepted p r z w (fixed-IsClean p e) k (eq ∙ append_assoc src root r)
      ]

-- The parameters pass each assertion on the source and the include paths.
abbrev pub PassesOn : ExtractTreeParams → Type 0
PassesOn p = (clean_source p.source ≡ true) × (check_include_paths p.include_paths ≡ ok tt)

map-All :
    (f : Text → Text) (P Q : Text → Type 0)
    → ((p : Text) → P p → Q (f p))
    → (ps : List Text) → All P ps
    → All Q (map f ps)
map-All f P Q g [] h = tt
map-All f P Q g (p ∷ ps) h = (g p h.0, map-All f P Q g ps h.1)

pub extract_tree_params-PassesOn :
    (req : ExtractRequest) (staging : Text)
    → contains_rune 0 req.source ≡ false
    → text_eq req.source (clean_browse_path req.source) ≡ true
    → All (λ p. include_fits req.source p ≡ true) req.include_paths
    → PassesOn (extract_tree_params req staging)
extract_tree_params-PassesOn req staging z e fits = elim (Bool-cases (text_eq req.source root)) [
  | inl r ↦
      unfold extract_tree_params in
      rw r (
        unfold clean_source text_eq in refl,
        check_include_paths-All req.include_paths
            (All-impl _ _ (include-IsAccepted req.source) req.include_paths fits),
      )
  | inr n ↦
      let c = fixed-IsClean req.source e in
      let s : IsSource req.source =
        subst IsSource (sym c.rendered) (
          render-IsSource c.components c.plain
            (subst (λ q. text_eq q root ≡ false) c.rendered n)) in
      unfold extract_tree_params in
      rw n
        (source_lem req.source s z, check_include_paths-All _ (chosen s n req.include_paths fits))
]
  where
    chosen :
        IsSource req.source
        → text_eq req.source root ≡ false
        → (ps : List Text) → All (λ p. include_fits req.source p ≡ true) ps
        → All IsAccepted (elim ps [
          | [] ↦ (b'/' ∷ path_base req.source) ∷ []
          | inc ∷ incs ↦ map (rebased req.source) (inc ∷ incs)
        ])
    chosen s n [] h = (base-IsAccepted req.source s z, tt)
    chosen s n (inc ∷ incs) h =
        map-All _ _ _ (λ p. rebased-IsAccepted req.source s p n z) (inc ∷ incs) h
