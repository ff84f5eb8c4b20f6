-- ===== src/Paths.antt =====
-- Slash-separated paths: the functions of Go's package `path` that the program calls, the browse
-- paths of internal/model/browse.go, and the parents and names of internal/model/diff.go.
--
-- `path.Clean` writes components to a buffer and backs up over the last one at `..`; the buffer is
-- the list `out` of `resolve`, or of `resolve_relative` where the path has no slash in front.
-- `path.Dir` and `path.Join` are written for rooted paths, which every call passes.
pub mod Split
pub mod Clean
pub mod Parent
pub mod Join
pub mod Under
mod Weight
pub mod Ancestors
pub mod Chain
pub mod Examples
use resticscope.Prelude.{
  ℕ, zero, suc, Text, Bool, true, false, ◌||◌, List, [], ◌∷◌, ◌++◌, text_eq, has_prefix, codes,
  length, ◌==◌, if◌then◌else◌,
}

abbrev pub root : Text
root = b'/' ∷ []

unfoldable pub cons_head : ℕ → List Text → List Text
cons_head c [] = (c ∷ []) ∷ []
cons_head c (x ∷ xs) = (c ∷ x) ∷ xs

-- The components between the slashes, the empty ones included.
unfoldable pub split : Text → List Text
unfolding cons_head
split [] = [] ∷ []
split (c ∷ s) = if c == b'/' then [] ∷ split s else cons_head c (split s)

unfoldable pub drop_last : List Text → List Text
drop_last [] = []
drop_last (x ∷ []) = []
drop_last (x ∷ y ∷ xs) = x ∷ drop_last (y ∷ xs)

-- One component of `path.Clean`: empty ones and `.` are skipped, `..` removes the last one.
unfoldable pub push_component : List Text → Text → List Text
unfolding text_eq drop_last
push_component out c =
    if text_eq c [] || text_eq c (codes ".")
    then out
    else if text_eq c (codes "..")
    then drop_last out
    else out ++ c ∷ []

unfoldable pub resolve : List Text → List Text → List Text
unfolding push_component
resolve out [] = out
resolve out (c ∷ cs) = resolve (push_component out c) cs

unfoldable pub render_all : List Text → Text
render_all [] = []
render_all (c ∷ cs) = b'/' ∷ (c ++ render_all cs)

unfoldable pub render : List Text → Text
unfolding render_all
render [] = root
render (c ∷ cs) = render_all (c ∷ cs)

-- `path.Clean` at a rooted path.
unfoldable pub clean_rooted : Text → Text
unfolding split resolve render
clean_rooted p = render (resolve [] (split p))

-- `path.Clean` at a path without a slash in front: `..` stays where there is no component to remove.
unfoldable pub back_up : List Text → List Text
unfolding text_eq
back_up [] = codes ".." ∷ []
back_up (x ∷ []) = if text_eq x (codes "..") then x ∷ codes ".." ∷ [] else []
back_up (x ∷ y ∷ xs) = x ∷ back_up (y ∷ xs)

unfoldable pub resolve_relative : List Text → List Text → List Text
unfolding text_eq back_up
resolve_relative out [] = out
resolve_relative out (c ∷ cs) =
    if text_eq c [] || text_eq c (codes ".")
    then resolve_relative out cs
    else resolve_relative (if text_eq c (codes "..") then back_up out else out ++ c ∷ []) cs

unfoldable pub render_relative : List Text → Text
unfolding render_all
render_relative [] = codes "."
render_relative (c ∷ cs) = c ++ render_all cs

-- `path.Clean`
unfoldable pub path_clean : Text → Text
unfolding has_prefix clean_rooted split resolve_relative render_relative
path_clean p =
    if has_prefix p root then clean_rooted p else render_relative (resolve_relative [] (split p))

-- `filepath.Join` and `path.Join` behind a rooted path.
unfoldable pub join_rooted : Text → Text → Text
unfolding clean_rooted
join_rooted p name = clean_rooted (p ++ b'/' ∷ name)

-- The text up to its last slash, that one included.
unfoldable pub through_last_slash : Text → Text
through_last_slash [] = []
through_last_slash (c ∷ s) =
    let rest = through_last_slash s in
    if c == b'/' then c ∷ rest else elim rest [ [] ↦ [] | d ∷ r ↦ c ∷ d ∷ r ]

-- `path.Dir` at a rooted path.
unfoldable pub path_dir : Text → Text
unfolding clean_rooted through_last_slash
path_dir p = clean_rooted (through_last_slash p)

-- The text behind its last slash, or all of it.
unfoldable pub after_last_slash : Text → Text
after_last_slash [] = []
after_last_slash (c ∷ s) = elim (through_last_slash (c ∷ s)) [
  | [] ↦ c ∷ s
  | _ ∷ _ ↦ after_last_slash s
]

-- `strings.TrimRight(s, "/")`
unfoldable pub trim_right_slash : Text → Text
trim_right_slash [] = []
trim_right_slash (c ∷ s) = elim (trim_right_slash s) [
  | [] ↦ if c == b'/' then [] else c ∷ []
  | d ∷ r ↦ c ∷ d ∷ r
]

-- `path.Base`
unfoldable pub path_base : Text → Text
unfolding text_eq trim_right_slash after_last_slash through_last_slash
path_base p =
    if text_eq p []
    then codes "."
    else (let name = after_last_slash (trim_right_slash p) in
        if text_eq name [] then root else name)

unfoldable pub clean_browse_path : Text → Text
unfolding text_eq has_prefix path_clean
clean_browse_path p =
    if text_eq p [] then root else path_clean (if has_prefix p root then p else b'/' ∷ p)

unfoldable pub join_browse_path : Text → Text → Text
unfolding text_eq
join_browse_path parent name = if text_eq parent root then b'/' ∷ name else parent ++ b'/' ∷ name

unfoldable pub browse_name : Text → Text → Text
unfolding text_eq path_base
browse_name name p =
    if text_eq name [] then (if text_eq p root then root else path_base p) else name

unfoldable pub diff_parent_of : Text → Text
unfolding text_eq has_prefix path_dir
diff_parent_of p =
    if text_eq p [] || text_eq p root
    then []
    else if has_prefix p root
    then (let parent = path_dir p in if text_eq parent (codes ".") then root else parent)
    else []

unfoldable pub diff_name_of : Text → Text
unfolding text_eq path_base
diff_name_of p = if text_eq p root || text_eq p [] then root else path_base p

-- The paths that `for anc := DiffParentOf(p); anc != ""; anc = DiffParentOf(anc)` visits, the loop
-- ending behind the root. `Ancestors` shows that fuel for the length of the path is enough.
unfoldable pub ancestors_within : ℕ → Text → List Text
ancestors_within zero p = []
ancestors_within (suc n) p =
    let anc = diff_parent_of p in
    elim (text_eq anc []) [
      | true ↦ []
      | false ↦ anc ∷ elim (text_eq anc root) [ true ↦ [] | false ↦ ancestors_within n anc ]
    ]

unfoldable pub ancestors : Text → List Text
ancestors p = ancestors_within (length p) p
