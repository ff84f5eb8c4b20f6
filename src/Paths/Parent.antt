-- ===== src/Paths/Parent.antt =====
-- A child's path leads back to its directory and to its name.
use resticscope.Prelude.{
  ℕ, Text, ◌≡◌, refl, ap, sym, ◌∙◌, List, [], ◌∷◌, ◌++◌, if◌then◌else◌, All, append-nil,
  append_assoc, text_eq,
}
use mathlib.Core.Bool.{false≢true}
use resticscope.Paths.{
  root, split, push_component, resolve, render_all, render, clean_rooted, path_dir,
  after_last_slash, trim_right_slash, path_base, join_browse_path, browse_name, diff_parent_of,
  diff_name_of,
}
use resticscope.Paths.Split.{
  NoSlash, split-append_slash, through_last_slash-append, after_last_slash-append,
  trim_right_slash-append,
}
use resticscope.Paths.Clean.{
  IsPlain, IsClean, plain-NoSlash, resolve-IsPlain, diff_parent_of-path_dir,
}

pub resolve-append : (out xs ys : List Text) → resolve out (xs ++ ys) ≡ resolve (resolve out xs) ys
unfolding resolve
resolve-append out [] ys = refl
resolve-append out (c ∷ xs) ys = resolve-append (push_component out c) xs ys

split-render_all_slash :
    (c : Text) (cs : List Text)
    → NoSlash c
    → All NoSlash cs
    → split (c ++ (render_all cs ++ b'/' ∷ [])) ≡ c ∷ (cs ++ [] ∷ [])
unfolding render_all
split-render_all_slash c [] h k = rw (split-append_slash c [] h) (unfold split in refl)
split-render_all_slash c (d ∷ cs) h k =
    rw
      (
        append_assoc d (render_all cs) (b'/' ∷ []),
        split-append_slash c (d ++ (render_all cs ++ b'/' ∷ [])) h,
      )
      (ap (λ t. c ∷ t) (split-render_all_slash d cs k.0 k.1))

clean_slash :
    (cs : List Text) → All IsPlain cs → clean_rooted (render_all cs ++ b'/' ∷ []) ≡ render cs
unfolding clean_rooted
clean_slash cs h =
    ap (λ t. render (resolve [] t)) (split_lem cs h)
    ∙ ap render (
        resolve-append [] cs ([] ∷ [])
        ∙ (rw (resolve-IsPlain [] cs h) (unfold resolve push_component text_eq in refl)))
  where
    split_lem :
        (cs : List Text)
        → All IsPlain cs
        → split (render_all cs ++ b'/' ∷ []) ≡ [] ∷ (cs ++ [] ∷ [])
    split_lem [] h = unfold render_all split in refl
    split_lem (c ∷ cs) h =
        unfold render_all split in
        rw (append_assoc c (render_all cs) (b'/' ∷ []))
          (ap (λ t. [] ∷ t) (split-render_all_slash c cs h.0.no_slash (plain-NoSlash cs h.1)))

pub render_all-append :
    (cs : List Text) (name : Text) → render_all (cs ++ name ∷ []) ≡ render_all cs ++ b'/' ∷ name
unfolding render_all
render_all-append [] name = ap (λ t. b'/' ∷ t) (append-nil name)
render_all-append (c ∷ cs) name =
    ap (λ t. b'/' ∷ t)
      (rw (append_assoc c (render_all cs) (b'/' ∷ name))
        (ap (λ t. c ++ t) (render_all-append cs name)))

-- Joining a clean directory and a name puts a slash between the components.
join-render :
    (cs : List Text) (name : Text)
    → All IsPlain cs
    → join_browse_path (render cs) name ≡ render_all cs ++ b'/' ∷ name
unfolding join_browse_path render render_all text_eq
join-render [] name h = refl
join-render ([] ∷ cs) name h = elim (false≢true (sym h.0.not_empty)) [ ]
join-render ((x ∷ c) ∷ cs) name h = refl

-- The joined path has a character behind its first slash.
join_shape :
    (cs : List Text) (n : ℕ) (ns : Text)
    → All IsPlain cs
    → (x : ℕ) × (t : Text) × (render_all cs ++ b'/' ∷ n ∷ ns ≡ b'/' ∷ x ∷ t)
unfolding render_all text_eq
join_shape [] n ns h = (n, ns, refl)
join_shape ([] ∷ cs) n ns h = elim (false≢true (sym h.0.not_empty)) [ ]
join_shape ((x ∷ c) ∷ cs) n ns h = (x, (c ++ render_all cs) ++ b'/' ∷ n ∷ ns, refl)

pub dir_render :
    (cs : List Text) (n : ℕ) (ns : Text)
    → All IsPlain cs
    → NoSlash (n ∷ ns)
    → path_dir (render_all cs ++ b'/' ∷ n ∷ ns) ≡ render cs
unfolding path_dir
dir_render cs n ns h k =
    ap clean_rooted (through_last_slash-append (render_all cs) (n ∷ ns) k) ∙ clean_slash cs h

parent_render :
    (cs : List Text) (n : ℕ) (ns : Text)
    → All IsPlain cs
    → NoSlash (n ∷ ns)
    → diff_parent_of (render_all cs ++ b'/' ∷ n ∷ ns) ≡ render cs
parent_render cs n ns h k =
    let (x, t, e) = join_shape cs n ns h in
    ap diff_parent_of e ∙ diff_parent_of-path_dir x t ∙ ap path_dir (sym e) ∙ dir_render cs n ns h k

after_trim :
    (cs : List Text) (n : ℕ) (ns : Text)
    → NoSlash (n ∷ ns)
    → after_last_slash (trim_right_slash (render_all cs ++ b'/' ∷ n ∷ ns)) ≡ n ∷ ns
after_trim cs n ns k =
    rw
      (
        sym (append_assoc (render_all cs) (b'/' ∷ []) (n ∷ ns)),
        trim_right_slash-append (render_all cs ++ b'/' ∷ []) n ns k,
        append_assoc (render_all cs) (b'/' ∷ []) (n ∷ ns),
      )
      (after_last_slash-append (render_all cs) (n ∷ ns) k)

abbrev base_or_root : Text → Text
base_or_root name = if text_eq name [] then root else name

-- Behind a first slash and one more character the names are `path.Base`.
names_at_shape :
    (x : ℕ) (t : Text)
    → (diff_name_of (b'/' ∷ x ∷ t)
        ≡ base_or_root (after_last_slash (trim_right_slash (b'/' ∷ x ∷ t))))
      × (browse_name [] (b'/' ∷ x ∷ t)
          ≡ base_or_root (after_last_slash (trim_right_slash (b'/' ∷ x ∷ t))))
unfolding diff_name_of browse_name path_base text_eq
names_at_shape x t = (refl, refl)

names_render :
    (cs : List Text) (n : ℕ) (ns : Text)
    → All IsPlain cs
    → NoSlash (n ∷ ns)
    → (diff_name_of (render_all cs ++ b'/' ∷ n ∷ ns) ≡ n ∷ ns)
      × (browse_name [] (render_all cs ++ b'/' ∷ n ∷ ns) ≡ n ∷ ns)
unfolding text_eq
names_render cs n ns h k =
    let (x, t, e) = join_shape cs n ns h in
    let base : base_or_root (after_last_slash (trim_right_slash (b'/' ∷ x ∷ t))) ≡ n ∷ ns =
      ap (λ p. base_or_root (after_last_slash (trim_right_slash p))) (sym e)
      ∙ ap base_or_root (after_trim cs n ns k) in
    (
      ap diff_name_of e ∙ (names_at_shape x t).0 ∙ base,
      ap (browse_name []) e ∙ (names_at_shape x t).1 ∙ base,
    )

-- `path.Base` of a path is its last component.
pub base_render :
    (cs : List Text) (n : ℕ) (ns : Text)
    → All IsPlain cs
    → NoSlash (n ∷ ns)
    → path_base (render_all cs ++ b'/' ∷ n ∷ ns) ≡ n ∷ ns
unfolding text_eq
base_render cs n ns h k =
    let (x, t, e) = join_shape cs n ns h in
    ap path_base e
    ∙ base_at_shape x t
    ∙ ap (λ p. base_or_root (after_last_slash (trim_right_slash p))) (sym e)
    ∙ ap base_or_root (after_trim cs n ns k)
  where
    base_at_shape :
        (x : ℕ) (t : Text)
        → path_base (b'/' ∷ x ∷ t)
          ≡ base_or_root (after_last_slash (trim_right_slash (b'/' ∷ x ∷ t)))
    base_at_shape x t = unfold path_base text_eq in refl

abbrev pub LeadsBack : Text → Text → Type 0
LeadsBack parent name =
    (diff_parent_of (join_browse_path parent name) ≡ parent)
    × (diff_name_of (join_browse_path parent name) ≡ name)
    × (browse_name [] (join_browse_path parent name) ≡ name)

leads_back :
    (cs : List Text) (name : Text) → All IsPlain cs → IsPlain name → LeadsBack (render cs) name
unfolding text_eq
leads_back cs [] h k = elim (false≢true (sym k.not_empty)) [ ]
leads_back cs (n ∷ ns) h k =
    let (base, browse) = names_render cs n ns h k.no_slash in
    rw (join-render cs (n ∷ ns) h) (parent_render cs n ns h k.no_slash, base, browse)

-- Joining a clean directory and a plain name gives a path whose parent is that directory, and
-- whose name, in the diff and in the browser where restic emits none, is that name.
pub diff_parent_of-join_browse_path :
    (parent name : Text) → IsClean parent → IsPlain name → LeadsBack parent name
diff_parent_of-join_browse_path parent name c k =
    rw c.rendered (leads_back c.components name c.plain k)
