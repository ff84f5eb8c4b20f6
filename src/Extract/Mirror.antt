-- ===== src/Extract/Mirror.antt =====
-- The directories of a plan and the mirrored source, component by component.
use resticscope.Prelude.{
  Text, ◌≡◌, refl, ap, sym, ◌∙◌, subst, true, inl, inr, List, [], ◌∷◌, ◌++◌, codes, text_eq, All,
  All-append, append_assoc, append-nil, Bool-cases, if◌then◌else◌,
}
use resticscope.Paths.{render, render_all, root, join_rooted}
use resticscope.Paths.Split.{All-split}
use resticscope.Paths.Clean.{IsPlain, IsClean, resolve-All}
use resticscope.Paths.Join.{
  resolved, resolved-render, join_rooted-name, join_rooted-empty, join_rooted-path,
}
use resticscope.Extract.{ExtractRequest, trim_prefix, behind, is_lower_hex}
use resticscope.Extract.Slug.{take-All}
use resticscope.Extract.Plan.{snap_dir, staging_name, hash_input}
use resticscope.Extract.Plain.{
  short-IsPlain, short-NoSlash, container-IsPlain, contains_rune-All, hex-NoSlash,
}
use resticscope.Extract.Planned.{IsGuarded}

-- The repository's directory under a target root.
abbrev pub repo_components : Text → Text → List Text
repo_components chosen slug = resolved chosen ++ slug ∷ []

-- The snapshot's directory, below the diff's where the request names one.
abbrev pub snap_components : ExtractRequest → List Text
snap_components req =
    if text_eq req.diff_container []
    then req.snapshot_short ∷ []
    else req.diff_container ∷ req.snapshot_short ∷ []

pub resolved-IsPlain : (p : Text) → All IsPlain (resolved p)
resolved-IsPlain p = resolve-All [] _ tt (All-split p)

pub repo_dir_lem :
    (chosen slug : Text)
    → IsPlain slug
    → (join_rooted chosen slug ≡ render (repo_components chosen slug))
      × All IsPlain (repo_components chosen slug)
repo_dir_lem chosen slug k = (
  join_rooted-name chosen slug k,
  All-append IsPlain (resolved chosen) (slug ∷ []) (resolved-IsPlain chosen) (k, tt),
)

pub join_render-name :
    (cs : List Text) (name : Text)
    → All IsPlain cs
    → IsPlain name
    → join_rooted (render cs) name ≡ render (cs ++ name ∷ [])
join_render-name cs name h k =
    join_rooted-name (render cs) name k ∙ ap (λ ds. render (ds ++ name ∷ [])) (resolved-render cs h)

pub snap_dir_lem :
    (cs : List Text) (req : ExtractRequest)
    → All IsPlain cs
    → All IsPlain (snap_components req)
    → snap_dir (render cs) req ≡ render (cs ++ snap_components req)
unfolding snap_dir
snap_dir_lem cs req h k = elim (Bool-cases (text_eq req.diff_container [])) [
  | inl e ↦
      let k' : All IsPlain (req.snapshot_short ∷ []) =
        subst
          (λ b.
            All IsPlain
              (if b then req.snapshot_short ∷ [] else req.diff_container ∷ req.snapshot_short ∷ []))
          e k in
      rw e (join_render-name cs req.snapshot_short h k'.0)
  | inr e ↦
      let k' : All IsPlain (req.diff_container ∷ req.snapshot_short ∷ []) =
        subst
          (λ b.
            All IsPlain
              (if b then req.snapshot_short ∷ [] else req.diff_container ∷ req.snapshot_short ∷ []))
          e k in
      rw
        (
          e,
          join_render-name cs req.diff_container h k'.0,
          join_render-name (cs ++ req.diff_container ∷ []) req.snapshot_short
              (All-append IsPlain cs _ h (k'.0, tt)) k'.1.0,
          append_assoc cs (req.diff_container ∷ []) (req.snapshot_short ∷ []),
        )
        refl
]

pub snap_components-IsPlain :
    (configured : Text) (req : ExtractRequest)
    → IsGuarded configured req
    → All IsPlain (snap_components req)
snap_components-IsPlain configured req g = elim (Bool-cases (text_eq req.diff_container [])) [
  | inl e ↦ rw (e, All) (short-IsPlain req.snapshot_short g.short, tt)
  | inr e ↦
      rw (e, All)
        (
          (container-IsPlain req.diff_container req.snapshot_short (rw e at g.container)).0,
          (short-IsPlain req.snapshot_short g.short, tt),
        )
]

trim_root :
    (d : Text) (ds : List Text)
    → (trim_prefix (render []) root ≡ [])
      × (trim_prefix (render (d ∷ ds)) root ≡ d ++ render_all ds)
unfolding render render_all trim_prefix behind
trim_root d ds = (refl, refl)

-- Joining the source without its slash mirrors its components.
pub mirror_lem :
    (cs : List Text) (src : Text)
    → All IsPlain cs
    → IsClean src
    → join_rooted (render cs) (trim_prefix src root) ≡ render (cs ++ resolved src)
mirror_lem cs src h c =
    rw (c.rendered, resolved-render c.components c.plain) (at_components c.components c.plain)
  where
    at_components :
        (ds : List Text)
        → All IsPlain ds
        → join_rooted (render cs) (trim_prefix (render ds) root) ≡ render (cs ++ ds)
    at_components [] k =
        ap (join_rooted (render cs)) (trim_root [] []).0
        ∙ join_rooted-empty cs h
        ∙ ap render (sym (append-nil cs))
    at_components (d ∷ ds) k =
        ap (join_rooted (render cs)) (trim_root d ds).1 ∙ join_rooted-path cs d ds h k

module _ (sha256_hex : Text → Text) where
  pub staging_name-IsPlain :
      (configured : Text) (req : ExtractRequest)
      → ((s : Text) → All (λ c. is_lower_hex c ≡ true) (sha256_hex s))
      → IsGuarded configured req
      → IsPlain (staging_name sha256_hex req)
  unfolding staging_name text_eq
  staging_name-IsPlain configured req hex g = record {
    no_slash =
        All-append _ (codes ".resticscope-staging-") _
          (
            refl,
            (
              refl,
              (
                refl,
                (
                  refl,
                  (
                    refl,
                    (
                      refl,
                      (
                        refl,
                        (
                          refl,
                          (
                            refl,
                            (
                              refl,
                              (
                                refl,
                                (
                                  refl,
                                  (
                                    refl,
                                    (
                                      refl,
                                      (refl, (refl, (refl, (refl, (refl, (refl, (refl, tt))))))),
                                    ),
                                  ),
                                ),
                              ),
                            ),
                          ),
                        ),
                      ),
                    ),
                  ),
                ),
              ),
            ),
          )
          (All-append _ req.snapshot_short _ (short-NoSlash req.snapshot_short g.short) (
            refl,
            All-append _ req.source_name _ (contains_rune-All b'/' req.source_name g.name_no_slash)
                (refl, take-All _ 16 _ (hex-NoSlash _ (hex (hash_input req)))),
          ));
    not_empty = refl;
    not_dot = refl;
    not_dots = refl;
  }
