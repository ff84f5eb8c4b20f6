-- ===== src/Diff/Kinds/Laws.antt =====
-- What the change kinds satisfy: the bits behind the mask, markers read and written, counters.
use Prim.Native.Nat.{bit_and, bit_or}
use resticscope.Prelude.{
  ltb, if◌then◌else◌, ℕ, ◌+◌, ◌≡◌, refl, Bool, true, false, ◌&&◌, ◌||◌, not, [], ◌∷◌, Text, arith,
  ◌==◌, ==_iff, ◌↔◌,
}
use resticscope.Diff.Kinds.{
  ModifierKind, no_kinds, kind_or, kind_and, nonzero, kind_eq, bits, modifier_string,
  primary_change_type, read_marker, read_markers, parse_modifier, DiffStats, no_stats, total,
  is_empty, add_kinds, enabled_kinds,
}

both : (Bool → Bool) → Bool
both p = p true && p false

both_sound : (p : Bool → Bool) → both p ≡ true → (b : Bool) → p b ≡ true
unfolding both
both_sound p h true = ground arith
both_sound p h false = ground arith

abbrev mask : Bool → Bool → Bool → Bool → Bool → Bool → ModifierKind
mask a b c d e f = record {
  added = a;
  removed = b;
  modified = c;
  metadata = d;
  type_changed = e;
  bitrot = f;
}

-- A test on every mask.
abbrev all_masks : (ModifierKind → Bool) → Bool
all_masks p =
    both (λ a. both (λ b. both (λ c. both (λ d. both (λ e. both (λ f. p (mask a b c d e f)))))))

all_masks_sound : (p : ModifierKind → Bool) → all_masks p ≡ true → (k : ModifierKind) → p k ≡ true
all_masks_sound p h k =
    both_sound _
      (both_sound _
        (both_sound _ (both_sound _ (both_sound _ (both_sound _ h k.added) k.removed) k.modified)
          k.metadata)
        k.type_changed)
      k.bitrot

abbrev or_agrees : ModifierKind → ModifierKind → Bool
or_agrees j k = bits (kind_or j k) == bit_or (bits j) (bits k)

abbrev and_agrees : ModifierKind → ModifierKind → Bool
and_agrees j k = bits (kind_and j k) == bit_and (bits j) (bits k)

or_table : all_masks (λ j. all_masks (or_agrees j)) ≡ true
unfolding both bits kind_or
or_table = refl

and_table : all_masks (λ j. all_masks (and_agrees j)) ≡ true
unfolding both bits kind_and
and_table = refl

-- The operations on masks are the bitwise operations of the numbers that stand for them, `!= 0`
-- is the test of that number, and `==` is equality of masks.
pub bits-kind_or_and :
    (j k : ModifierKind)
    → (bits (kind_or j k) ≡ bit_or (bits j) (bits k))
      × (bits (kind_and j k) ≡ bit_and (bits j) (bits k))
      × (nonzero k ≡ not (bits k == 0))
      × ((kind_eq j k ≡ true) ↔ (j ≡ k))
bits-kind_or_and j k = (
  (==_iff _ _).0
      (all_masks_sound (or_agrees j) (all_masks_sound (λ m. all_masks (or_agrees m)) or_table j) k),
  (==_iff _ _).0 (
      all_masks_sound (and_agrees j) (all_masks_sound (λ m. all_masks (and_agrees m)) and_table j)
        k),
  unfold nonzero bits in ground arith,
  unfold kind_eq in ground arith,
)

-- Writing a mask as markers and reading it back gives the mask, its primary type, and no
-- unrecognised marker.
pub parse_modifier-modifier_string :
    (k : ModifierKind) → parse_modifier (modifier_string k) ≡ (primary_change_type k, k, false)
unfolding parse_modifier modifier_string
parse_modifier-modifier_string k = ground arith

-- Whether a marker occurs in a string.
abbrev contains : ℕ → Text → Bool
contains c [] = false
contains c (r ∷ s) = r == c || contains c s

-- Whether every character is one of the six markers.
abbrev pub all_markers : Text → Bool
all_markers [] = true
all_markers (r ∷ s) =
    (r == b'+' || (r == b'-' || (r == b'M' || (r == b'U' || (r == b'T' || r == b'?')))))
    && all_markers s

abbrev pub occurring : Text → ModifierKind
occurring s = record {
  added = contains b'+' s;
  removed = contains b'-' s;
  modified = contains b'M' s;
  metadata = contains b'U' s;
  type_changed = contains b'T' s;
  bitrot = contains b'?' s;
}

pub kind_or-no_kinds : (a : ModifierKind) → kind_or a no_kinds ≡ a
unfolding kind_or
kind_or-no_kinds a = ground arith

pub no_kinds-kind_or : (a : ModifierKind) → kind_or no_kinds a ≡ a
unfolding kind_or
no_kinds-kind_or a = refl

pub kind_or_assoc : (a b c : ModifierKind) → kind_or (kind_or a b) c ≡ kind_or a (kind_or b c)
unfolding kind_or
kind_or_assoc a b c = ground arith

occurring-cons :
    (r : ℕ) (s : Text) (k : ModifierKind) (bad : Bool)
    → ((kind_or (read_marker r (k, bad)).0 (occurring s) ≡ kind_or k (occurring (r ∷ s))))
      × ((read_marker r (k, bad)).1 || not (all_markers s) ≡ bad || not (all_markers (r ∷ s)))
unfolding read_marker
occurring-cons r s k bad = ground arith

read_markers-occurring :
    (s : Text) (k : ModifierKind) (bad : Bool)
    → read_markers s (k, bad) ≡ (kind_or k (occurring s), bad || not (all_markers s))
unfolding read_markers
read_markers-occurring [] k bad = unfold kind_or in ground arith
read_markers-occurring (r ∷ s) k bad = ground (
  arith,
  read_markers-occurring s (read_marker r (k, bad)).0 (read_marker r (k, bad)).1,
  occurring-cons r s k bad,
)

-- The parsed mask has the bit of a marker exactly when that marker occurs in the string, wherever
-- and however often; the string is flagged exactly when it has a character that is no marker.
pub parse_modifier-occurring :
    (s : Text)
    → parse_modifier s ≡ (primary_change_type (occurring s), occurring s, not (all_markers s))
unfolding parse_modifier
parse_modifier-occurring s = simp (read_markers-occurring s no_kinds false)

total-add_kinds :
    (s : DiffStats) (k : ModifierKind)
    → total (add_kinds s k) ≡ total s + total (add_kinds no_stats k)
unfolding total add_kinds
total-add_kinds s k = ground arith

no_stats-add_kinds : (k : ModifierKind) → (total (add_kinds no_stats k) == 0) ≡ not (nonzero k)
unfolding total add_kinds nonzero
no_stats-add_kinds k = ground arith

counted :
    (n : ℕ) (b f : Bool) → (f && ltb 0 (if b then n + 1 else n)) ≡ ((f && ltb 0 n) || (b && f))
counted n b f = ground arith

enabled-counted :
    (s : DiffStats) (k filter : ModifierKind)
    → enabled_kinds (add_kinds s k) filter ≡ kind_or (enabled_kinds s filter) (kind_and k filter)
unfolding enabled_kinds add_kinds kind_or kind_and
enabled-counted s k filter = λ i. record {
  added = counted s.added k.added filter.added i;
  removed = counted s.removed k.removed filter.removed i;
  modified = counted s.modified k.modified filter.modified i;
  metadata = counted s.metadata_only k.metadata filter.metadata i;
  type_changed = counted s.type_changed k.type_changed filter.type_changed i;
  bitrot = counted s.bitrot k.bitrot filter.bitrot i;
}

-- Counting a change adds one to the counter of each of its kinds, so that the kinds that a filter
-- shows of the counters of one change are those that it has in common with the change, and
-- counters show nothing under a filter exactly when none of its kinds was counted.
pub enabled_kinds-add_kinds :
    (s : DiffStats) (k filter : ModifierKind)
    → (enabled_kinds (add_kinds s k) filter ≡ kind_or (enabled_kinds s filter) (kind_and k filter))
      × (total (add_kinds s k) ≡ total s + total (add_kinds no_stats k))
      × (is_empty (add_kinds s k) ≡ is_empty s && not (nonzero k))
enabled_kinds-add_kinds s k filter = (
  enabled-counted s k filter,
  total-add_kinds s k,
  unfold is_empty in ground (arith, total-add_kinds s k, no_stats-add_kinds k),
)
