-- ===== src/Base/Ints.antt =====
-- Go's `int` where the program only compares it.
use Prim.Native.Nat.{ℕ, suc, ◌+◌, ◌-◌}
use mathlib.Core.Path.{◌≡◌, refl}
use mathlib.Core.Bool.{Bool, true, false}
use native.Mathlib.Omega.{arith}
use costguard.Base.Tests.{ltb, ◌==◌, if◌then◌else◌}

-- `negsuc n` is -(n + 1).
pub data ℤ : Type 0 where
  pos negsuc : ℕ → ℤ

abbrev pub int_lt : ℤ → ℤ → Bool
int_lt (pos a) (pos b) = ltb a b
int_lt (pos a) (negsuc b) = false
int_lt (negsuc a) (pos b) = true
int_lt (negsuc a) (negsuc b) = ltb b a

abbrev pub int_eq : ℤ → ℤ → Bool
int_eq (pos a) (pos b) = a == b
int_eq (pos a) (negsuc b) = false
int_eq (negsuc a) (pos b) = false
int_eq (negsuc a) (negsuc b) = a == b

pub int_eq_comm : (a b : ℤ) → int_eq a b ≡ int_eq b a
int_eq_comm (pos a) (pos b) = ground arith
int_eq_comm (pos a) (negsuc b) = refl
int_eq_comm (negsuc a) (pos b) = refl
int_eq_comm (negsuc a) (negsuc b) = ground arith

pub int_eq-not_lt : (a b : ℤ) → int_eq a b ≡ true → int_lt a b ≡ false
int_eq-not_lt (pos a) (pos b) h = ground arith
int_eq-not_lt (pos a) (negsuc b) h = refl
int_eq-not_lt (negsuc a) (pos b) h = cc
int_eq-not_lt (negsuc a) (negsuc b) h = ground arith

pub int_lt-asymm : (a b : ℤ) → int_lt a b ≡ true → int_lt b a ≡ false
int_lt-asymm (pos a) (pos b) h = ground arith
int_lt-asymm (pos a) (negsuc b) h = ground arith
int_lt-asymm (negsuc a) (pos b) h = refl
int_lt-asymm (negsuc a) (negsuc b) h = ground arith

-- The sum of a natural number and a negative one: `m - (n + 1)`.
abbrev pub less_suc : ℕ → ℕ → ℤ
less_suc m n = if ltb n m then pos (m - suc n) else negsuc (n - m)

abbrev pub int_add : ℤ → ℤ → ℤ
int_add (pos a) (pos b) = pos (a + b)
int_add (pos a) (negsuc b) = less_suc a b
int_add (negsuc a) (pos b) = less_suc b a
int_add (negsuc a) (negsuc b) = negsuc (suc (a + b))
