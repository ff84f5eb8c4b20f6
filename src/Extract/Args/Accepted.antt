-- ===== src/Extract/Args/Accepted.antt =====
-- What a plan lets through passes the assertions of internal/resticx/extract_tree.go.
use resticscope.Prelude.{
  ℕ, ◌+◌, Text, ◌≡◌, refl, ap, sym, true, false, ◌&&◌, ◌||◌, not, some, List, [], ◌∷◌, ◌++◌, arith,
  All, ok, require-ok, text_eq, text_eq_iff, has_prefix, length,
}
use mathlib.Core.Bool.{false≢true}
use resticscope.Paths.{root, render, render_all, clean_browse_path}
use resticscope.Paths.Clean.{IsPlain, clean_browse_path-render}
use resticscope.Extract.{
  include_paths, is_lower_hex, all_lower_hex, is_snapshot_id, byte_len, rune_len, contains_rune,
  include_fits, includes_total, trim_prefix, behind,
}
use resticscope.Extract.Args.{clean_snapshot_id, clean_source, clean_include_path}

rune_len-hex : (c : ℕ) → is_lower_hex c ≡ true → rune_len c ≡ 1
unfolding is_lower_hex rune_len
rune_len-hex c h = ground arith

byte_len-hex : (s : Text) → all_lower_hex s ≡ true → byte_len s ≡ length s
unfolding all_lower_hex byte_len
byte_len-hex [] h = refl
byte_len-hex (c ∷ s) h = ground (arith, rune_len-hex c, byte_len-hex s)

pub snapshot_id-accepted : (s : Text) → is_snapshot_id s ≡ true → clean_snapshot_id s ≡ true
unfolding is_snapshot_id clean_snapshot_id
snapshot_id-accepted s h = ground (arith, byte_len-hex s)

pub contains_rune-append :
    (r : ℕ) (a b : Text) → contains_rune r (a ++ b) ≡ contains_rune r a || contains_rune r b
unfolding contains_rune
contains_rune-append r [] b = refl
contains_rune-append r (c ∷ a) b = ground (arith, contains_rune-append r a b)

-- What the assertion asks of each include path.
abbrev pub IsAccepted : Text → Type 0
IsAccepted p = (not (text_eq p []) && clean_include_path p) ≡ true

pub accept_lem :
    (p : Text)
    → (has_prefix p root ≡ true) × (text_eq p [] ≡ false) × (text_eq p root ≡ false)
    → contains_rune 0 p ≡ false
    → text_eq p (clean_browse_path p) ≡ true
    → IsAccepted p
unfolding clean_include_path
accept_lem p h z e = ground arith

starts_below :
    (c : Text) (cs : List Text)
    → All IsPlain (c ∷ cs)
    → (has_prefix (render_all (c ∷ cs)) root ≡ true)
      × (text_eq (render_all (c ∷ cs)) [] ≡ false)
      × (text_eq (render_all (c ∷ cs)) root ≡ false)
unfolding render_all has_prefix text_eq
starts_below [] cs h = elim (false≢true (sym h.0.not_empty)) [ ]
starts_below (x ∷ c) cs h = (refl, refl, refl)

fixed :
    (c : Text) (cs : List Text)
    → All IsPlain (c ∷ cs)
    → text_eq (render_all (c ∷ cs)) (clean_browse_path (render_all (c ∷ cs))) ≡ true
unfolding render
fixed c cs h =
    (text_eq_iff (render_all (c ∷ cs)) (clean_browse_path (render_all (c ∷ cs)))).1
      (sym (clean_browse_path-render (c ∷ cs) h))

-- A clean path below the root without a zero is accepted as an include path.
pub render_all-IsAccepted :
    (c : Text) (cs : List Text)
    → All IsPlain (c ∷ cs)
    → contains_rune 0 (render_all (c ∷ cs)) ≡ false
    → IsAccepted (render_all (c ∷ cs))
render_all-IsAccepted c cs h k = accept_lem _ (starts_below c cs h) k (fixed c cs h)

-- A clean path without a zero is accepted as a source.
pub clean_source-render :
    (cs : List Text)
    → All IsPlain cs
    → contains_rune 0 (render_all cs) ≡ false
    → clean_source (render cs) ≡ true
unfolding clean_source render
clean_source-render [] h k = unfold text_eq in refl
clean_source-render (c ∷ cs) h k = ground (arith, fixed c cs h, starts_below c cs h)

behind-append : (p r : Text) → behind p (p ++ r) ≡ some r
unfolding behind
behind-append [] r = refl
behind-append (c ∷ p) r = ground (arith, behind-append p r)

pub trim_prefix-append : (p r : Text) → trim_prefix (p ++ r) p ≡ r
unfolding trim_prefix
trim_prefix-append p r = rw (behind-append p r, trim_prefix) refl

-- The last component of a path below the root.
pub last_of : (c : Text) (cs : List Text) → (ds : List Text) × (d : Text) × (c ∷ cs ≡ ds ++ d ∷ [])
last_of c [] = ([], c, refl)
last_of c (e ∷ cs) = let (ds, d, eq) = last_of e cs in (c ∷ ds, d, ap (λ l. c ∷ l) eq)

pub includes_total-All :
    (src : Text) (total : ℕ) (ps : List Text) {n : ℕ}
    → includes_total src total ps ≡ ok n
    → All (λ p. include_fits src p ≡ true) ps
unfolding includes_total
includes_total-All src total [] h = tt
includes_total-All src total (p ∷ ps) h =
    let (fits, k) = require-ok include_paths (include_fits src p) _ h in
    (fits, includes_total-All src (total + byte_len p) ps k)
