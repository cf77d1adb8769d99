-- ===== src/Base/Float/Scaled.antt =====
-- Numbers in units of a billionth, as floats: they meet the laws, and let the program run in tests.
use native.Mathlib.Nat.{div-zero, le-div_iff_mul-le, div-mul-le_self}
use costguard.Base.{
  ℕ, zero, suc, ◌+◌, ◌-◌, ◌*◌, ◌/◌, ◌^◌, ◌≤◌, arith, leb, ltb, ◌==◌, le→leb, leb→le,
}
use costguard.Base.Float.{Float, FloatLaws}

abbrev pub scale : ℕ
scale = 1_000_000_000

-- `inf` is a number that the tests stay below.
abbrev pub scaled : Float
scaled = record {
  Carrier = ℕ;
  dec = λ m k. m * scale / 10 ^ k;
  of_nat = λ n. n * scale;
  inf = scale * scale;
  add = λ a b. a + b;
  sub = λ a b. a - b;
  mul = λ a b. a * b / scale;
  div = λ a b. a * scale / b;
  le = leb;
  lt = ltb;
  eq = λ a b. a == b;
}

div_grows : (a b c : ℕ) → a ≤ b → a / c ≤ b / c
div_grows a b zero h = omega (arith, div-zero a)
div_grows a b (suc c) h =
    (le-div_iff_mul-le (omega arith)).1 (omega (arith, div-mul-le_self a (suc c)))

pub scaled-laws : FloatLaws scaled
scaled-laws = record {
  le_refl = λ a. ground arith;
  le_trans = λ a b c h k. ground arith;
  le_total = λ a b h. ground arith;
  eq_comm = λ a b. ground arith;
  lt-eq-not_le = λ a b. ground arith;
  add_mono = λ a b c d h k. ground arith;
  mul_mono = λ a b c p h.
      le→leb (a * c / scale) (b * c / scale)
        (div_grows (a * c) (b * c) scale (grind (arith, leb→le a b h)));
  div_mono = λ a b n p h.
      le→leb _ _ (div_grows (a * scale) (b * scale) (n * scale) (omega (arith, leb→le a b h)));
  of_nat_mono = λ m n h. le→leb (m * scale) (n * scale) (omega arith);
  dec_nonneg = λ m k. le→leb (0 * scale) (m * scale / 10 ^ k) (omega arith);
}
