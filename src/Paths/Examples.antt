-- ===== src/Paths/Examples.antt =====
-- Paths at concrete inputs.
use resticscope.Prelude.{◌≡◌, refl, codes, ◌∷◌, [], Text, text_eq, if◌then◌else◌, arith}
use resticscope.Paths.{
  root, render, push_component, clean_browse_path, diff_parent_of, diff_name_of, ancestors,
  ancestors_within,
}
use resticscope.Paths.Clean.{IsPlain, IsClean, clean_browse_path-clean_browse_path}
use resticscope.Paths.Parent.{LeadsBack, diff_parent_of-join_browse_path}
use resticscope.Paths.Ancestors.{ancestors_terminates}

cleaned : clean_browse_path (codes "a//./b/../c/") ≡ codes "/a/c"
unfolding clean_browse_path push_component
cleaned = refl

parents : ancestors (codes "/etc/ssl/x") ≡ codes "/etc/ssl" ∷ codes "/etc" ∷ codes "/" ∷ []
unfolding ancestors ancestors_within diff_parent_of
parents = refl

names : diff_name_of (codes "/etc/ssl/") ≡ codes "ssl"
unfolding diff_name_of
names = refl

clean_browse_path-clean_browse_path_example :
    IsClean (clean_browse_path (codes "a//b"))
    × (clean_browse_path (clean_browse_path (codes "a//b")) ≡ clean_browse_path (codes "a//b"))
    × (clean_browse_path [] ≡ root)
    × (clean_browse_path (b'/' ∷ codes "a//b") ≡ clean_browse_path (codes "a//b"))
clean_browse_path-clean_browse_path_example = clean_browse_path-clean_browse_path (codes "a//b")

abbrev etc : Text
etc = codes "etc"

etc-IsPlain : IsPlain etc
unfolding text_eq
etc-IsPlain = record {
  no_slash = (refl, (refl, (refl, tt)));
  not_empty = refl;
  not_dot = refl;
  not_dots = refl;
}

abbrev dir : Text
dir = codes "/etc"

dir-IsClean : IsClean dir
unfolding render
dir-IsClean = record { components = etc ∷ []; plain = (etc-IsPlain, tt); rendered = refl }

diff_parent_of-join_browse_path_example : LeadsBack dir etc
diff_parent_of-join_browse_path_example =
    diff_parent_of-join_browse_path dir etc dir-IsClean etc-IsPlain

ancestors_terminates_example :
    (ancestors_within 9 dir ≡ ancestors dir)
    × (ancestors dir ≡ (
        if text_eq (diff_parent_of dir) []
        then []
        else diff_parent_of dir ∷ ancestors (diff_parent_of dir)))
ancestors_terminates_example = ancestors_terminates 9 dir (omega arith)
