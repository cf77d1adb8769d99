-- ===== src/Base/Float.antt =====
-- The float64 operations that the program uses, as an interface: the checker has no floats.
-- `dec m k` is the literal nearest to `m / 10 ^ k`, `of_nat` the conversion `float64(n)`, `le` and
-- `lt` the comparisons, which are false where an operand is NaN.
pub mod Scaled
use costguard.Base.{ℕ, Bool, ◌≡◌, true, not, false, ◌≤◌, ◌<◌}

pub record Float : Type 1 where
  pub Carrier : Type 0
  pub dec : ℕ → ℕ → Carrier
  pub of_nat : ℕ → Carrier
  pub inf : Carrier
  pub add : Carrier → Carrier → Carrier
  pub sub : Carrier → Carrier → Carrier
  pub mul : Carrier → Carrier → Carrier
  pub div : Carrier → Carrier → Carrier
  pub le : Carrier → Carrier → Bool
  pub lt : Carrier → Carrier → Bool
  pub eq : Carrier → Carrier → Bool

-- What the order of floats keeps, of the numbers that occur: neither NaN nor infinite.
pub record FloatLaws (f : Float) : Type 0 where
  pub le_refl : (a : f.Carrier) → f.le a a ≡ true
  pub le_trans : (a b c : f.Carrier) → f.le a b ≡ true → f.le b c ≡ true → f.le a c ≡ true
  pub le_total : (a b : f.Carrier) → f.le a b ≡ false → f.le b a ≡ true
  pub eq_comm : (a b : f.Carrier) → f.eq a b ≡ f.eq b a
  pub lt-eq-not_le : (a b : f.Carrier) → f.lt a b ≡ not (f.le b a)
  pub add_mono :
      (a b c d : f.Carrier)
      → f.le a b ≡ true
      → f.le c d ≡ true
      → f.le (f.add a c) (f.add b d) ≡ true
  pub mul_mono :
      (a b c : f.Carrier)
      → f.le (f.of_nat 0) c ≡ true
      → f.le a b ≡ true
      → f.le (f.mul a c) (f.mul b c) ≡ true
  pub div_mono :
      (a b : f.Carrier) (n : ℕ)
      → 0 < n
      → f.le a b ≡ true
      → f.le (f.div a (f.of_nat n)) (f.div b (f.of_nat n)) ≡ true
  pub of_nat_mono : (m n : ℕ) → m ≤ n → f.le (f.of_nat m) (f.of_nat n) ≡ true
  pub dec_nonneg : (m k : ℕ) → f.le (f.of_nat 0) (f.dec m k) ≡ true
