-- ===== src/Paths/Weight.antt =====
-- The directory of a path is shorter than the path: what `path.Clean` returns, by the length of the
-- components that it keeps.
use resticscope.Prelude.{
  ℕ, suc, ◌+◌, ◌≤◌, ◌<◌, max, Text, ◌≡◌, refl, true, false, inl, inr, ◌⊎◌, List, [], ◌∷◌, ◌++◌,
  arith, ◌==◌, Bool-cases, length, length-append, text_eq, if◌then◌else◌,
}
use resticscope.Paths.{
  cons_head, split, drop_last, push_component, resolve, render_all, render, clean_rooted,
  through_last_slash, path_dir,
}

-- The length of the components that `path.Clean` may keep, a slash before each.
weight : List Text → ℕ
weight [] = 0
weight ([] ∷ cs) = weight cs
weight ((x ∷ c) ∷ cs) = length (x ∷ c) + 1 + weight cs

-- The same with the first component counted also if it is empty.
full_weight : List Text → ℕ
full_weight [] = 0
full_weight (c ∷ cs) = length c + 1 + weight cs

weight-le-full : (cs : List Text) → weight cs ≤ full_weight cs
unfolding weight full_weight
weight-le-full [] = omega arith
weight-le-full ([] ∷ cs) = omega arith
weight-le-full ((x ∷ c) ∷ cs) = omega arith

split_head : (s : Text) → (c : Text) × (cs : List Text) × (split s ≡ c ∷ cs)
unfolding split
split_head [] = ([], [], refl)
split_head (c ∷ s) = elim (Bool-cases (c == b'/')) [
  | inl e ↦ ([], split s, rw e)
  | inr e ↦ let (d, ds, q) = split_head s in (c ∷ d, ds, rw (e, q) (unfold cons_head in refl))
]

full_weight-cons_head :
    (x : ℕ) (s : Text) → full_weight (cons_head x (split s)) ≡ full_weight (split s) + 1
full_weight-cons_head x s =
    let (c, cs, e) = split_head s in rw e (unfold full_weight cons_head in omega arith)

abbrev Bounded : Text → Type 0
Bounded r = (r ≡ []) ⊎ (full_weight (split r) ≤ length r)

slash-Bounded :
    (c : ℕ) (r : Text)
    → (c == b'/') ≡ true
    → Bounded r
    → full_weight (split (c ∷ r)) ≤ length (c ∷ r)
unfolding split full_weight weight
slash-Bounded c r e (inl z) = rw (e, z) (omega arith)
slash-Bounded c r e (inr z) = rw e (omega (arith, weight-le-full (split r)))

cons-Bounded :
    (c d : ℕ) (r : Text)
    → (c == b'/') ≡ false
    → Bounded (d ∷ r)
    → full_weight (split (c ∷ d ∷ r)) ≤ length (c ∷ d ∷ r)
cons-Bounded c d r e (inl z) = cc
cons-Bounded c d r e (inr z) = rw (split_cons e) (omega (arith, full_weight-cons_head c (d ∷ r)))
  where
    split_cons : (c == b'/') ≡ false → split (c ∷ d ∷ r) ≡ cons_head c (split (d ∷ r))
    split_cons e = unfold split in rw e

other-Bounded :
    (c : ℕ) (s r : Text)
    → through_last_slash s ≡ r
    → (c == b'/') ≡ false
    → Bounded r
    → Bounded (through_last_slash (c ∷ s))
unfolding through_last_slash
other-Bounded c s [] q e z = rw (e, q) (inl refl)
other-Bounded c s (d ∷ r) q e z = rw (e, q) (inr (cons-Bounded c d r e z))

-- What stands up to the last slash splits into components no longer than it is.
through_last_slash-Bounded : (p : Text) → Bounded (through_last_slash p)
unfolding through_last_slash
through_last_slash-Bounded [] = inl refl
through_last_slash-Bounded (c ∷ s) = elim (Bool-cases (c == b'/')) [
  | inl e ↦ rw e (inr (slash-Bounded c (through_last_slash s) e (through_last_slash-Bounded s)))
  | inr e ↦ other-Bounded c s (through_last_slash s) refl e (through_last_slash-Bounded s)
]

length-through_last_slash : (p : Text) → length (through_last_slash p) ≤ length p
unfolding through_last_slash
length-through_last_slash [] = omega arith
length-through_last_slash (c ∷ s) = rest_le (through_last_slash s) (length-through_last_slash s)
  where
    rest_le :
        (r : Text)
        → length r ≤ length s
        → length (if c == b'/' then c ∷ r else elim r [ [] ↦ [] | d ∷ t ↦ c ∷ d ∷ t ])
          ≤ suc (length s)
    rest_le [] h = ground arith
    rest_le (d ∷ t) h = ground arith

length-render_all-append :
    (cs : List Text) (c : Text)
    → length (render_all (cs ++ c ∷ [])) ≡ length (render_all cs) + length c + 1
unfolding render_all
length-render_all-append [] c = omega (arith, length-append c [])
length-render_all-append (d ∷ cs) c = omega (
  arith,
  length-append d (render_all (cs ++ c ∷ [])),
  length-append d (render_all cs),
  length-render_all-append cs c,
)

length-drop_last : (cs : List Text) → length (render_all (drop_last cs)) ≤ length (render_all cs)
unfolding render_all drop_last
length-drop_last [] = omega arith
length-drop_last (c ∷ []) = omega arith
length-drop_last (c ∷ d ∷ cs) = omega (
  arith,
  length-append c (render_all (drop_last (d ∷ cs))),
  length-append c (render_all (d ∷ cs)),
  length-drop_last (d ∷ cs),
)

push_component-le :
    (out : List Text) (c : Text)
    → length (render_all (push_component out c)) ≤ length (render_all out) + weight (c ∷ [])
unfolding push_component weight text_eq
push_component-le out [] = omega arith
push_component-le out (x ∷ c) =
    ground (arith, length-render_all-append out (x ∷ c), length-drop_last out)

weight-cons : (c : Text) (cs : List Text) → weight (c ∷ cs) ≡ weight (c ∷ []) + weight cs
unfolding weight
weight-cons [] cs = omega arith
weight-cons (x ∷ c) cs = omega arith

resolve-le :
    (out cs : List Text)
    → length (render_all (resolve out cs)) ≤ length (render_all out) + weight cs
unfolding resolve weight
resolve-le out [] = omega arith
resolve-le out (c ∷ cs) =
    omega (arith, resolve-le (push_component out c) cs, push_component-le out c, weight-cons c cs)

length-render : (cs : List Text) → length (render cs) ≤ max 1 (length (render_all cs))
unfolding render render_all
length-render [] = omega arith
length-render (c ∷ cs) = omega arith

weight-split :
    (c : ℕ) (r : Text) → (c == b'/') ≡ true → Bounded r → weight (split (c ∷ r)) ≤ length r
unfolding split weight
weight-split c r e (inl z) = rw (e, z) (omega arith)
weight-split c r e (inr z) = rw e (omega (arith, weight-le-full (split r)))

-- Cleaning what stands behind a first slash drops that slash, or leaves the root.
length-clean_slash :
    (c : ℕ) (r : Text)
    → (c == b'/') ≡ true
    → Bounded r
    → length (clean_rooted (c ∷ r)) ≤ max 1 (length r)
unfolding clean_rooted
length-clean_slash c r e z = omega (
  arith,
  length-render (resolve [] (split (c ∷ r))),
  resolve-le [] (split (c ∷ r)),
  weight-split c r e z,
  empty_length,
)
  where
    empty_length : length (render_all []) ≡ 0
    empty_length = unfold render_all in refl

-- The directory of a rooted path other than the root is shorter.
pub length-path_dir : (x : ℕ) (t : Text) → length (path_dir (b'/' ∷ x ∷ t)) < length (b'/' ∷ x ∷ t)
unfolding path_dir
length-path_dir x t = omega (
  arith,
  length-clean_slash b'/' (through_last_slash (x ∷ t)) refl (through_last_slash-Bounded (x ∷ t)),
  length-through_last_slash (x ∷ t),
)
