-- ===== src/Prelude/Float.antt =====
-- Go's `float64`, abstractly: the operations that the modelled code uses. The comparisons are the
-- hardware's, so a comparison with NaN is false.
use Prim.Native.Nat.{ℕ, ◌*◌, ◌/◌, ◌^◌}
use mathlib.Core.Bool.{Bool, true, false, not, ◌&&◌}
use mathlib.Core.Path.{◌≡◌}
use native.Mathlib.Omega.{arith}
use signa.Prelude.Int.{ℤ, pos, ◌+ℤ◌, ◌-ℤ◌, leb_ℤ, ltb_ℤ, eq_ℤ, +ℤ_parts, -ℤ_parts}

pub record Float (F : Type 0) : Type 0 where
  pub nought : F
  pub one : F
  pub add : F → F → F
  pub minus : F → F → F
  pub le : F → F → Bool
  pub lt : F → F → Bool
  pub eq : F → F → Bool
  pub is_nan : F → Bool
  pub is_inf : F → Bool

module _ {F : Type 0} ⦃f : Float F⦄ where
  abbrev pub finite_non_negative : F → Bool
  finite_non_negative v = not (f.is_nan v) && not (f.is_inf v) && f.le f.nought v

  abbrev pub finite_positive : F → Bool
  finite_positive v = finite_non_negative v && f.lt f.nought v

-- IEEE 754 facts about the comparisons and about adding a number that is not negative.
pub record FloatLaws (F : Type 0) ⦃f : Float F⦄ : Type 0 where
  pub le_trans : (x y z : F) → f.le x y ≡ true → f.le y z ≡ true → f.le x z ≡ true
  pub lt-le : (x y : F) → f.lt x y ≡ true → f.le x y ≡ true
  pub le-not-lt : (x y : F) → f.is_nan x ≡ false → f.is_nan y ≡ false → f.le x y ≡ not (f.lt y x)
  pub le-add :
      (x a : F) → f.le f.nought x ≡ true → f.le f.nought a ≡ true → f.le x (f.add x a) ≡ true
  pub minus-le :
      (x a : F)
      → f.is_inf x ≡ false
      → f.is_inf a ≡ false
      → f.le f.nought x ≡ true
      → f.le f.nought a ≡ true
      → f.le (f.minus x a) x ≡ true

-- The laws can be met: whole numbers, with no NaN and no infinity.
instance abbrev pub whole_numbers : Float ℤ
whole_numbers = record {
  nought = pos 0;
  one = pos 1;
  add = ◌+ℤ◌;
  minus = ◌-ℤ◌;
  le = leb_ℤ;
  lt = ltb_ℤ;
  eq = eq_ℤ;
  is_nan = λ _. false;
  is_inf = λ _. false;
}

pub whole_numbers-FloatLaws : FloatLaws ℤ
whole_numbers-FloatLaws = record {
  le_trans = λ x y z h k. ground arith;
  lt-le = λ x y h. ground arith;
  le-not-lt = λ x y h k. ground arith;
  le-add = λ x a h k. ground (arith, +ℤ_parts x a);
  minus-le = λ x a h k l m. ground (arith, -ℤ_parts x a);
}

-- The arithmetic that scores are computed with. `decimal m k` is the literal m divided by 10 to the k.
pub record FloatArith (F : Type 0) : Type 0 where
  pub of_nat : ℕ → F
  pub decimal : ℕ → ℕ → F
  pub mul : F → F → F
  pub div : F → F → F
  pub round : F → F

abbrev whole_div : ℤ → ℤ → ℤ
whole_div (pos a) (pos b) = pos (a / b)
whole_div a b = pos 0

abbrev whole_mul : ℤ → ℤ → ℤ
whole_mul (pos a) (pos b) = pos (a * b)
whole_mul a b = pos 0

-- Whole numbers, for tests.
instance abbrev pub whole_arith : FloatArith ℤ
whole_arith = record {
  of_nat = λ n. pos n;
  decimal = λ m k. pos (m / 10 ^ k);
  mul = whole_mul;
  div = whole_div;
  round = λ x. x;
}
