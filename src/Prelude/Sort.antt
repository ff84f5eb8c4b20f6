-- ===== src/Prelude/Sort.antt =====
-- `sort.SliceStable` with a `less` function, as stable insertion: an element goes in front of those
-- that are not less than it and stand behind it in the input.
use mathlib.Core.List.Perm
use mathlib.Core.List.{Perm}
use mathlib.Core.Path.{◌≡◌, refl}
use Prim.Native.Nat.{suc}
use native.Mathlib.Omega.{arith}
use mathlib.Core.Logic.{inl, inr}
use mathlib.Core.Bool.{Bool, true, false}
use mathlib.Core.List.{List, [], ◌∷◌}
use resticscope.Prelude.Tests.{if◌then◌else◌, Bool-cases}
use resticscope.Prelude.Texts.{Text, text_lt, text_lt_irrefl, text_lt_trans, text_lt_total}
use resticscope.Prelude.Lists.{All, All-impl, Any, here, there, length}

module _ {ℓ} {A : Type ℓ} (less : A → A → Bool) where
  unfoldable pub insert_stable : A → List A → List A
  insert_stable x [] = x ∷ []
  insert_stable x (y ∷ ys) = if less y x then y ∷ insert_stable x ys else x ∷ y ∷ ys

  unfoldable pub sort_stable : List A → List A
  unfolding insert_stable
  sort_stable [] = []
  sort_stable (x ∷ xs) = insert_stable x (sort_stable xs)

  pub insert_stable-perm : (x : A) (xs : List A) → Perm (insert_stable x xs) (x ∷ xs)
  unfolding insert_stable
  insert_stable-perm x [] = Perm.refl (x ∷ [])
  insert_stable-perm x (y ∷ ys) = elim (Bool-cases (less y x)) [
    | inl e ↦ rw e (Perm.trans (Perm.cons y (insert_stable-perm x ys)) (Perm.swap x y ys))
    | inr e ↦ rw e (Perm.refl (x ∷ y ∷ ys))
  ]

  -- Sorting keeps every element, as often.
  pub sort_stable-perm : (xs : List A) → Perm (sort_stable xs) xs
  unfolding sort_stable
  sort_stable-perm [] = Perm.refl []
  sort_stable-perm (x ∷ xs) =
      Perm.trans (insert_stable-perm x (sort_stable xs)) (Perm.cons x (sort_stable-perm xs))

  -- No element is less than one that stands before it.
  abbrev pub IsSorted : List A → Type ℓ
  IsSorted [] = Unit
  IsSorted (x ∷ xs) = All (λ y. less y x ≡ false) xs × IsSorted xs

module _ {ℓ} {A : Type ℓ} (less : A → A → Bool) where
  length-insert_stable : (x : A) (xs : List A) → length (insert_stable less x xs) ≡ suc (length xs)
  unfolding insert_stable
  length-insert_stable x [] = refl
  length-insert_stable x (y ∷ ys) = ground (arith, length-insert_stable x ys)

  pub length-sort_stable : (xs : List A) → length (sort_stable less xs) ≡ length xs
  unfolding sort_stable
  length-sort_stable [] = refl
  length-sort_stable (x ∷ xs) =
      omega (arith, length-insert_stable x (sort_stable less xs), length-sort_stable xs)

-- What some element satisfies is satisfied after sorting, and the other way round.
module _ {ℓ κ} {A : Type ℓ} (less : A → A → Bool) (P : A → Type κ) where
  insert_stable-Any : (x : A) (xs : List A) → Any P (x ∷ xs) → Any P (insert_stable less x xs)
  unfolding insert_stable
  insert_stable-Any x [] a = a
  insert_stable-Any x (y ∷ ys) a = elim (Bool-cases (less y x)) [
    | inl e ↦ rw e (past a (λ b. insert_stable-Any x ys b))
    | inr e ↦ rw e a
  ]
    where
      past :
          Any P (x ∷ y ∷ ys)
          → (Any P (x ∷ ys) → Any P (insert_stable less x ys))
          → Any P (y ∷ insert_stable less x ys)
      past (here p) f = there (f (here p))
      past (there (here p)) f = here p
      past (there (there b)) f = there (f (there b))

  Any-insert_stable : (x : A) (xs : List A) → Any P (insert_stable less x xs) → Any P (x ∷ xs)
  unfolding insert_stable
  Any-insert_stable x [] a = a
  Any-insert_stable x (y ∷ ys) a = elim (Bool-cases (less y x)) [
    | inl e ↦ back (rw (e, insert_stable) at a) (λ b. Any-insert_stable x ys b)
    | inr e ↦ rw (e, insert_stable) at a
  ]
    where
      back :
          Any P (y ∷ insert_stable less x ys)
          → (Any P (insert_stable less x ys) → Any P (x ∷ ys))
          → Any P (x ∷ y ∷ ys)
      back (here p) f = there (here p)
      back (there b) f = swap (f b)
        where
          swap : Any P (x ∷ ys) → Any P (x ∷ y ∷ ys)
          swap (here p) = here p
          swap (there c) = there (there c)

  pub sort_stable-Any : (xs : List A) → Any P xs → Any P (sort_stable less xs)
  unfolding sort_stable
  sort_stable-Any [] a = a
  sort_stable-Any (x ∷ xs) (here p) = insert_stable-Any x (sort_stable less xs) (here p)
  sort_stable-Any (x ∷ xs) (there a) =
      insert_stable-Any x (sort_stable less xs) (there (sort_stable-Any xs a))

  pub Any-sort_stable : (xs : List A) → Any P (sort_stable less xs) → Any P xs
  unfolding sort_stable
  Any-sort_stable [] a = a
  Any-sort_stable (x ∷ xs) a =
      kept (Any-insert_stable x (sort_stable less xs) a) (λ b. Any-sort_stable xs b)
    where
      kept :
          Any P (x ∷ sort_stable less xs)
          → (Any P (sort_stable less xs) → Any P xs)
          → Any P (x ∷ xs)
      kept (here p) f = here p
      kept (there b) f = there (f b)

-- A strict order whose incomparability the sort may rely on.
pub record IsStrictOrder {ℓ} {A : Type ℓ} (less : A → A → Bool) : Type ℓ where
  pub asym : (a b : A) → less a b ≡ true → less b a ≡ false
  pub not_less_trans : (a b c : A) → less b a ≡ false → less c b ≡ false → less c a ≡ false

module _ {ℓ} {A : Type ℓ} (less : A → A → Bool) where
  pub insert_stable-All :
      (P : A → Type 0) (x : A) (xs : List A) → P x → All P xs → All P (insert_stable less x xs)
  unfolding insert_stable
  insert_stable-All P x [] px h = (px, tt)
  insert_stable-All P x (y ∷ ys) px h = elim (Bool-cases (less y x)) [
    | inl e ↦ rw e (h.0, insert_stable-All P x ys px h.1)
    | inr e ↦ rw e (px, h)
  ]

  pub sort_stable-All : (P : A → Type 0) (xs : List A) → All P xs → All P (sort_stable less xs)
  unfolding sort_stable
  sort_stable-All P [] h = tt
  sort_stable-All P (x ∷ xs) h =
      insert_stable-All P x (sort_stable less xs) h.0 (sort_stable-All P xs h.1)

module _ {ℓ} {A : Type ℓ} (less : A → A → Bool) (order : IsStrictOrder less) where
  open order use {asym, not_less_trans}

  insert_stable-IsSorted :
      (x : A) (xs : List A) → IsSorted less xs → IsSorted less (insert_stable less x xs)
  unfolding insert_stable
  insert_stable-IsSorted x [] h = (tt, tt)
  insert_stable-IsSorted x (y ∷ ys) h = elim (Bool-cases (less y x)) [
    | inl e ↦ rw e (
      insert_stable-All less (λ z. less z y ≡ false) x ys (asym y x e) h.0,
      insert_stable-IsSorted x ys h.1,
    )
    | inr e ↦
        rw e ((e, All-impl _ (λ z. less z x ≡ false) (λ z k. not_less_trans x y z e k) ys h.0), h)
  ]

  -- Sorting by a strict order leaves no element less than one before it.
  pub sort_stable-IsSorted : (xs : List A) → IsSorted less (sort_stable less xs)
  unfolding sort_stable
  sort_stable-IsSorted [] = tt
  sort_stable-IsSorted (x ∷ xs) = insert_stable-IsSorted x _ (sort_stable-IsSorted xs)

-- The order of texts is one.
pub text_lt-order : IsStrictOrder text_lt
text_lt-order = record { asym = asym; not_less_trans = not_less_trans }
  where
    asym : (a b : Text) → text_lt a b ≡ true → text_lt b a ≡ false
    asym a b h = ground (arith, text_lt_trans a b a, text_lt_irrefl a)

    not_less_trans :
        (a b c : Text) → text_lt b a ≡ false → text_lt c b ≡ false → text_lt c a ≡ false
    not_less_trans a b c h k = ground (arith, text_lt_trans b c a, text_lt_total b c)
