-- ===== src/Prelude/Results.antt =====
-- Fallible code: a value or an error, and the chains that stop at the first error.
use mathlib.Core.Path.{◌≡◌, refl}
use mathlib.Core.Logic.{◌⊎◌, inl, inr}
use mathlib.Core.Bool.{Bool, true, false}
use mathlib.Core.Option.{Option, none, some}

pub data Result {ℓ κ} (E : Type κ) (A : Type ℓ) : Type (ℓ ⊔ κ) where
  ok : A → Result E A
  err : E → Result E A

infixl 5 ◌>>=◌ ◌>>◌
abbrev pub ◌>>=◌ {ℓ κ μ} :
    {E : Type κ} {A : Type ℓ} {B : Type μ} → Result E A → (A → Result E B) → Result E B
ok a >>= f = f a
err e >>= f = err e

abbrev pub ◌>>◌ {ℓ κ} : {E : Type κ} {B : Type ℓ} → Result E (Unit {0}) → Result E B → Result E B
m >> k = m >>= λ _. k

-- `if !b { return e }`
abbrev pub require {κ} : {E : Type κ} → E → Bool → Result E (Unit {0})
require e true = ok tt
require e false = err e

abbrev pub or_fail {ℓ κ} : {E : Type κ} {A : Type ℓ} → E → Option A → Result E A
or_fail e none = err e
or_fail e (some a) = ok a

-- A chain that succeeds has succeeded at its first link.
pub >>=-ok {ℓ κ μ} :
    {E : Type κ} {A : Type ℓ} {B : Type μ} (m : Result E A) (f : A → Result E B) {b : B}
    → (m >>= f) ≡ ok b
    → (a : A) × (m ≡ ok a) × (f a ≡ ok b)
>>=-ok (ok a) f h = (a, refl, h)
>>=-ok (err e) f h = cc

pub require-ok {ℓ κ} :
    {E : Type κ} {B : Type ℓ} (e : E) (b : Bool) (k : Result E B) {x : B}
    → (require e b >> k) ≡ ok x
    → (b ≡ true) × (k ≡ ok x)
require-ok e true k h = (refl, h)
require-ok e false k h = cc

pub or_fail-ok {ℓ κ} :
    {E : Type κ} {A : Type ℓ} (e : E) (o : Option A) {a : A} → or_fail e o ≡ ok a → o ≡ some a
or_fail-ok e none h = cc
or_fail-ok e (some a) h = cc

pub Result-cases {ℓ κ} :
    {E : Type κ} {A : Type ℓ} (m : Result E A) → ((e : E) × (m ≡ err e)) ⊎ ((a : A) × (m ≡ ok a))
Result-cases (err e) = inl (e, refl)
Result-cases (ok a) = inr (a, refl)
