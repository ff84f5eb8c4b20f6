-- ===== src/Snapshots/Observed.antt =====
-- The hosts, tags and versions that the snapshots show: each once, in order, and no others.
use resticscope.Prelude.{
  ◌≡◌, refl, ◌∙◌, ap, Bool, true, false, ◌&&◌, ◌||◌, not, List, [], ◌∷◌, Text, text_lt, text_eq,
  text_eq_iff, All, Bool-cases, inl, inr, arith, sort_stable, insert_stable, text_lt_total,
  text_lt_trans,
}
use resticscope.Snapshots.{
  Snapshot, in_set, add_named, add_all_named, host_set, tag_set, sorted_keys, observed,
}

-- Each text is less than those behind it.
abbrev pub IsIncreasing : List Text → Type 0
IsIncreasing [] = Unit
IsIncreasing (x ∷ xs) = All (λ y. text_lt x y ≡ true) xs × IsIncreasing xs

-- No text occurs twice.
abbrev IsOnce : List Text → Type 0
IsOnce [] = Unit
IsOnce (x ∷ xs) = (in_set x xs ≡ false) × IsOnce xs

in_set-add_named :
    (v w : Text) (set : List Text)
    → in_set w (add_named v set) ≡ in_set w set || (text_eq w v && not (text_eq v []))
unfolding add_named in_set
in_set-add_named v w set = ground (arith, text_eq_iff w v, text_eq_iff v [])

add_named-IsOnce : (v : Text) (set : List Text) → IsOnce set → IsOnce (add_named v set)
unfolding add_named
add_named-IsOnce v set h = elim (Bool-cases (text_eq v [] || in_set v set)) [
  | inl e ↦ rw e h
  | inr e ↦ rw e (ground arith, h)
]

in_set-insert :
    (w x : Text) (ys : List Text)
    → in_set w (insert_stable text_lt x ys) ≡ text_eq w x || in_set w ys
unfolding insert_stable in_set
in_set-insert w x [] = refl
in_set-insert w x (y ∷ ys) = ground (arith, in_set-insert w x ys)

in_set-sorted_keys : (w : Text) (set : List Text) → in_set w (sorted_keys set) ≡ in_set w set
unfolding sorted_keys sort_stable in_set
in_set-sorted_keys w [] = refl
in_set-sorted_keys w (x ∷ xs) =
    in_set-insert w x (sort_stable text_lt xs)
    ∙ ap (λ b. text_eq w x || b) (in_set-sorted_keys w xs)

insert-above :
    (z x : Text) (ys : List Text)
    → text_lt z x ≡ true
    → All (λ y. text_lt z y ≡ true) ys
    → All (λ y. text_lt z y ≡ true) (insert_stable text_lt x ys)
unfolding insert_stable
insert-above z x [] h k = (h, tt)
insert-above z x (y ∷ ys) h k = elim (Bool-cases (text_lt y x)) [
  | inl e ↦ rw e (k.0, insert-above z x ys h k.1)
  | inr e ↦ rw e (h, k)
]

All-above :
    (x y : Text) (ys : List Text)
    → text_lt x y ≡ true
    → All (λ z. text_lt y z ≡ true) ys
    → All (λ z. text_lt x z ≡ true) ys
All-above x y [] h k = tt
All-above x y (z ∷ ys) h k = (text_lt_trans x y z h k.0, All-above x y ys h k.1)

insert-IsIncreasing :
    (x : Text) (ys : List Text)
    → in_set x ys ≡ false
    → IsIncreasing ys
    → IsIncreasing (insert_stable text_lt x ys)
unfolding insert_stable in_set
insert-IsIncreasing x [] n h = (tt, tt)
insert-IsIncreasing x (y ∷ ys) n h = elim (Bool-cases (text_lt y x)) [
  | inl e ↦ rw e (insert-above y x ys e h.0, insert-IsIncreasing x ys (ground arith) h.1)
  | inr e ↦
      let below : text_lt x y ≡ true = ground (arith, text_lt_total x y, text_eq_iff x y) in
      rw e ((below, All-above x y ys below h.0), h)
]

sorted_keys-IsIncreasing : (set : List Text) → IsOnce set → IsIncreasing (sorted_keys set)
unfolding sorted_keys sort_stable
sorted_keys-IsIncreasing [] h = tt
sorted_keys-IsIncreasing (x ∷ xs) h =
    insert-IsIncreasing x (sort_stable text_lt xs) (in_set-sorted_keys x xs ∙ h.0)
      (sorted_keys-IsIncreasing xs h.1)

-- Whether a snapshot has a host, a tag or a version that is no empty text.
abbrev pub any_host : Text → List Snapshot → Bool
any_host w [] = false
any_host w (s ∷ snaps) = (text_eq w s.hostname && not (text_eq s.hostname [])) || any_host w snaps

abbrev any_of : Text → List Text → Bool
any_of w [] = false
any_of w (v ∷ vs) = (text_eq w v && not (text_eq v [])) || any_of w vs

abbrev pub any_tag : Text → List Snapshot → Bool
any_tag w [] = false
any_tag w (s ∷ snaps) = any_of w s.tags || any_tag w snaps

in_set-host_set :
    (w : Text) (snaps : List Snapshot) (set : List Text)
    → in_set w (host_set snaps set) ≡ in_set w set || any_host w snaps
unfolding host_set
in_set-host_set w [] set = ground arith
in_set-host_set w (s ∷ snaps) set =
    ground
      (arith, in_set-host_set w snaps (add_named s.hostname set), in_set-add_named s.hostname w set)

host_set-IsOnce :
    (snaps : List Snapshot) (set : List Text) → IsOnce set → IsOnce (host_set snaps set)
unfolding host_set
host_set-IsOnce [] set h = h
host_set-IsOnce (s ∷ snaps) set h =
    host_set-IsOnce snaps (add_named s.hostname set) (add_named-IsOnce s.hostname set h)

in_set-add_all_named :
    (w : Text) (vs : List Text) (set : List Text)
    → in_set w (add_all_named vs set) ≡ in_set w set || any_of w vs
unfolding add_all_named
in_set-add_all_named w [] set = ground arith
in_set-add_all_named w (v ∷ vs) set =
    ground (arith, in_set-add_all_named w vs (add_named v set), in_set-add_named v w set)

add_all_named-IsOnce : (vs set : List Text) → IsOnce set → IsOnce (add_all_named vs set)
unfolding add_all_named
add_all_named-IsOnce [] set h = h
add_all_named-IsOnce (v ∷ vs) set h =
    add_all_named-IsOnce vs (add_named v set) (add_named-IsOnce v set h)

in_set-tag_set :
    (w : Text) (snaps : List Snapshot) (set : List Text)
    → in_set w (tag_set snaps set) ≡ in_set w set || any_tag w snaps
unfolding tag_set
in_set-tag_set w [] set = ground arith
in_set-tag_set w (s ∷ snaps) set =
    ground
      (arith, in_set-tag_set w snaps (add_all_named s.tags set), in_set-add_all_named w s.tags set)

tag_set-IsOnce : (snaps : List Snapshot) (set : List Text) → IsOnce set → IsOnce (tag_set snaps set)
unfolding tag_set
tag_set-IsOnce [] set h = h
tag_set-IsOnce (s ∷ snaps) set h =
    tag_set-IsOnce snaps (add_all_named s.tags set) (add_all_named-IsOnce s.tags set h)

-- The observed hosts are in increasing order, each once, and a text is among them exactly when it is
-- the non-empty host of a snapshot; the observed tags likewise.
pub observed-any :
    (snaps : List Snapshot) (w : Text)
    → IsIncreasing (observed snaps).0
      × IsIncreasing (observed snaps).1
      × (in_set w (observed snaps).0 ≡ any_host w snaps)
      × (in_set w (observed snaps).1 ≡ any_tag w snaps)
unfolding observed in_set
observed-any snaps w = (
  sorted_keys-IsIncreasing (host_set snaps []) (host_set-IsOnce snaps [] tt),
  sorted_keys-IsIncreasing (tag_set snaps []) (tag_set-IsOnce snaps [] tt),
  in_set-sorted_keys w (host_set snaps []) ∙ in_set-host_set w snaps [],
  in_set-sorted_keys w (tag_set snaps []) ∙ in_set-tag_set w snaps [],
)
