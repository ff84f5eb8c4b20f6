-- ===== src/Paths/Clean.antt =====
-- Clean paths: what `path.Clean` returns, and the way between a directory and its children.
use resticscope.Prelude.{
  ℕ, Text, ◌≡◌, refl, ap, sym, ◌∙◌, true, false, inl, inr, List, [], ◌∷◌, ◌++◌, All, All-append,
  All-impl, Bool-cases, append-nil, append_assoc, text_eq, codes, has_prefix, if◌then◌else◌,
}
use resticscope.Paths.{
  root, split, drop_last, push_component, resolve, render_all, render, clean_rooted,
  through_last_slash, path_dir, path_clean, clean_browse_path, diff_parent_of,
}
use resticscope.Paths.Split.{NoSlash, All-split, split-render_all}

-- A component that `path.Clean` keeps.
pub record IsPlain (c : Text) : Type 0 where
  pub no_slash : NoSlash c
  pub not_empty : text_eq c [] ≡ false
  pub not_dot : text_eq c (codes ".") ≡ false
  pub not_dots : text_eq c (codes "..") ≡ false

pub plain-NoSlash : (cs : List Text) → All IsPlain cs → All NoSlash cs
plain-NoSlash cs h = All-impl IsPlain NoSlash (λ c p. p.no_slash) cs h

pub resolve-IsPlain : (out cs : List Text) → All IsPlain cs → resolve out cs ≡ out ++ cs
unfolding resolve push_component
resolve-IsPlain out [] h = sym (append-nil out)
resolve-IsPlain out (c ∷ cs) h =
    rw (h.0.not_empty, h.0.not_dot, h.0.not_dots)
      (resolve-IsPlain (out ++ c ∷ []) cs h.1 ∙ append_assoc out (c ∷ []) cs)

drop_last-All : (P : Text → Type 0) (xs : List Text) → All P xs → All P (drop_last xs)
unfolding drop_last
drop_last-All P [] h = tt
drop_last-All P (x ∷ []) h = tt
drop_last-All P (x ∷ y ∷ xs) h = (h.0, drop_last-All P (y ∷ xs) h.1)

push_component-All :
    (out : List Text) (c : Text) → All IsPlain out → NoSlash c → All IsPlain (push_component out c)
push_component-All out c h k = elim (Bool-cases (text_eq c [])) [
  | inl e ↦ unfold push_component in rw e h
  | inr e ↦ elim (Bool-cases (text_eq c (codes "."))) [
    | inl e' ↦ unfold push_component in rw (e, e') h
    | inr e' ↦ elim (Bool-cases (text_eq c (codes ".."))) [
      | inl e'' ↦ unfold push_component in rw (e, e', e'') (drop_last-All IsPlain out h)
      | inr e'' ↦
          unfold push_component in
          rw (e, e', e'')
            (All-append IsPlain out (c ∷ []) h
              (record { no_slash = k; not_empty = e; not_dot = e'; not_dots = e'' }, tt))
    ]
  ]
]

pub resolve-All :
    (out cs : List Text) → All IsPlain out → All NoSlash cs → All IsPlain (resolve out cs)
unfolding resolve
resolve-All out [] h k = h
resolve-All out (c ∷ cs) h k =
    resolve-All (push_component out c) cs (push_component-All out c h k.0) k.1

-- A rooted path with plain components alone: the values that `path.Clean` returns.
pub record IsClean (p : Text) : Type 0 where
  pub components : List Text
  pub plain : All IsPlain components
  pub rendered : p ≡ render components

pub clean_rooted-IsClean : (p : Text) → IsClean (clean_rooted p)
unfolding clean_rooted
clean_rooted-IsClean p = record {
  components = resolve [] (split p);
  plain = resolve-All [] (split p) tt (All-split p);
  rendered = refl;
}

clean_rooted-render : (cs : List Text) → All IsPlain cs → clean_rooted (render cs) ≡ render cs
unfolding clean_rooted render render_all split
clean_rooted-render [] h = unfold resolve push_component text_eq in refl
clean_rooted-render (c ∷ cs) h =
    rw (split-render_all c cs h.0.no_slash (plain-NoSlash cs h.1))
      (ap render (resolve-IsPlain [] (c ∷ cs) h))

pub render-starts :
    (cs : List Text)
    → (has_prefix (render cs) root ≡ true)
      × (text_eq (render cs) [] ≡ false)
      × (text_eq (render cs) (codes ".") ≡ false)
unfolding render render_all has_prefix text_eq
render-starts [] = (refl, refl, refl)
render-starts (c ∷ cs) = (refl, refl, refl)

path_clean-rooted : (p : Text) → has_prefix p root ≡ true → path_clean p ≡ clean_rooted p
unfolding path_clean
path_clean-rooted p e = rw e refl

has_prefix-slash : (p : Text) → has_prefix (b'/' ∷ p) root ≡ true
unfolding has_prefix
has_prefix-slash p = refl

-- What is cleaned has its slash in front.
clean_browse_path-rooted :
    (p : Text)
    → text_eq p [] ≡ false
    → clean_browse_path p ≡ clean_rooted (if has_prefix p root then p else b'/' ∷ p)
unfolding clean_browse_path
clean_browse_path-rooted p e = elim (Bool-cases (has_prefix p root)) [
  | inl h ↦ rw (e, h) (path_clean-rooted p h)
  | inr h ↦ rw (e, h) (path_clean-rooted (b'/' ∷ p) (has_prefix-slash p))
]

clean_browse_path-empty : (p : Text) → text_eq p [] ≡ true → clean_browse_path p ≡ root
unfolding clean_browse_path
clean_browse_path-empty p e = rw e refl

pub clean_browse_path-render :
    (cs : List Text) → All IsPlain cs → clean_browse_path (render cs) ≡ render cs
clean_browse_path-render cs h =
    rw (clean_browse_path-rooted (render cs) (render-starts cs).1, (render-starts cs).0)
      (clean_rooted-render cs h)

pub clean_browse_path-IsClean : (p : Text) → IsClean (clean_browse_path p)
clean_browse_path-IsClean p = elim (Bool-cases (text_eq p [])) [
  | inl e ↦
      rw (clean_browse_path-empty p e)
        (record { components = []; plain = tt; rendered = unfold render in refl })
  | inr e ↦
      rw (clean_browse_path-rooted p e)
        (clean_rooted-IsClean (if has_prefix p root then p else b'/' ∷ p))
]

-- Cleaning skips what stands between a first slash and the first component.
clean_rooted-slash : (s : Text) → clean_rooted (b'/' ∷ s) ≡ clean_rooted s
unfolding clean_rooted split resolve push_component text_eq
clean_rooted-slash s = refl

clean_browse_path-slash : (p : Text) → clean_browse_path (b'/' ∷ p) ≡ clean_browse_path p
unfolding has_prefix text_eq
clean_browse_path-slash [] =
    unfold clean_browse_path path_clean clean_rooted has_prefix split resolve push_component text_eq
      render in
    refl
clean_browse_path-slash (c ∷ p) =
    clean_browse_path-rooted (b'/' ∷ c ∷ p) refl ∙ at ∙ sym (clean_browse_path-rooted (c ∷ p) refl)
  where
    at :
        clean_rooted (if has_prefix (b'/' ∷ c ∷ p) root then b'/' ∷ c ∷ p else b'/' ∷ b'/' ∷ c ∷ p)
        ≡ clean_rooted (if has_prefix (c ∷ p) root then c ∷ p else b'/' ∷ c ∷ p)
    at = elim (Bool-cases (has_prefix (c ∷ p) root)) [
      | inl e ↦ rw e (clean_rooted-slash (c ∷ p))
      | inr e ↦ rw e refl
    ]

-- Cleaning gives a rooted path of plain components: no empty one, no dot and no dots; cleaning
-- twice is cleaning once. The empty path is cleaned to the root, and a slash that is missing in
-- front, or one too many, does not matter.
pub clean_browse_path-clean_browse_path :
    (p : Text)
    → IsClean (clean_browse_path p)
      × (clean_browse_path (clean_browse_path p) ≡ clean_browse_path p)
      × (clean_browse_path [] ≡ root)
      × (clean_browse_path (b'/' ∷ p) ≡ clean_browse_path p)
unfolding text_eq
clean_browse_path-clean_browse_path p =
    let c = clean_browse_path-IsClean p in
    (
      c,
      rw c.rendered (clean_browse_path-render c.components c.plain),
      clean_browse_path-empty [] refl,
      clean_browse_path-slash p,
    )

-- At a rooted path that is not the root the parent is `path.Dir`.
pub diff_parent_of-path_dir :
    (x : ℕ) (t : Text) → diff_parent_of (b'/' ∷ x ∷ t) ≡ path_dir (b'/' ∷ x ∷ t)
unfolding diff_parent_of text_eq has_prefix
diff_parent_of-path_dir x t = rw (dir_lem (b'/' ∷ x ∷ t))
  where
    dir_lem : (p : Text) → text_eq (path_dir p) (codes ".") ≡ false
    dir_lem p =
        unfold path_dir clean_rooted in
        (render-starts (resolve [] (split (through_last_slash p)))).2
