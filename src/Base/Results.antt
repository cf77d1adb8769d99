-- ===== src/Base/Results.antt =====
-- `(T, error)`: results whose error is of a type of the component's own.
use mathlib.Core.Path.{◌≡◌, refl, subst}
use mathlib.Core.Bool.{Bool, true, false}
use mathlib.Core.Logic.{◌⊎◌, inl, inr}
use costguard.Base.Tests.{if◌then◌else◌}

pub data Result (E A : Type 0) : Type 0 where
  ok : A → Result E A
  err : E → Result E A

-- The next step of a function that returns at the first error.
abbrev pub and_then : {E A B : Type 0} → Result E A → (A → Result E B) → Result E B
and_then (ok a) k = k a
and_then (err e) k = err e

-- A chain that succeeds has succeeded at its first step.
pub and_then-eq-ok :
    {E A B : Type 0} (m : Result E A) (k : A → Result E B) {b : B}
    → and_then m k ≡ ok b
    → (a : A) × (m ≡ ok a) × (k a ≡ ok b)
and_then-eq-ok (ok a) k h = (a, refl, h)
and_then-eq-ok (err e) k h = cc

pub ok-injective : {E A : Type 0} {a b : A} → ◌≡◌ {A = Result E A} (ok a) (ok b) → a ≡ b
ok-injective h = cc

-- What holds of the value, if there is one.
abbrev pub Ensures : {E A : Type 0} → (A → Type 0) → Result E A → Type 0
Ensures P (ok a) = P a
Ensures P (err e) = Unit

module _ {E A : Type 0} where
  pub ensured : (P : A → Type 0) (r : Result E A) {a : A} → Ensures P r → r ≡ ok a → P a
  ensured P (ok b) {a} h e = subst P (ok-injective e) h
  ensured P (err x) h e = cc

  pub Ensures-if :
      (P : A → Type 0) (b : Bool) (r s : Result E A)
      → Ensures P r
      → Ensures P s
      → Ensures P (if b then r else s)
  Ensures-if P true r s h k = h
  Ensures-if P false r s h k = k

  pub Ensures-and_then :
      {B : Type 0} (P : A → Type 0) (Q : B → Type 0) (m : Result E A) (k : A → Result E B)
      → Ensures P m
      → ((a : A) → P a → Ensures Q (k a))
      → Ensures Q (and_then m k)
  Ensures-and_then P Q (ok a) k h f = f a h
  Ensures-and_then P Q (err e) k h f = tt

  pub Ensures-any : (r : Result E A) → Ensures (λ a. Unit {0}) r
  Ensures-any (ok a) = tt
  Ensures-any (err e) = tt

pub Result-cases :
    {E A : Type 0} (r : Result E A) → ((e : E) × (r ≡ err e)) ⊎ ((a : A) × (r ≡ ok a))
Result-cases (ok a) = inr (a, refl)
Result-cases (err e) = inl (e, refl)
