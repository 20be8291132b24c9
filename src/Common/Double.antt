-- ===== src/Common/Double.antt =====
-- C++ `double`, which has no definition here: its type, its operations and what the code relies on.
-- The laws are those of the finite IEEE values and the infinities, rounding included; NaN is left out.
use Prim.Native.Nat.{ℕ, zero, suc, ◌≤◌, ◌+◌, ◌-◌, ◌*◌, ◌/◌}
use mathlib.Core.Path.{◌≡◌}
use mathlib.Core.Bool.{Bool, true, false, not}
use bb_pipeline.Common.Tests.{leb, if◌then◌else◌, le→leb, leb→le}
use native.Mathlib.Omega.{arith}

pub record Double : Type 1 where
  pub F : Type 0
  -- `a <= b`; `a < b` is its negation the other way round.
  pub le : F → F → Bool
  -- The value nearest to a ratio: literals, and integers with the denominator 1.
  pub of_ratio : ℕ → ℕ → F
  pub add : F → F → F
  pub sub : F → F → F
  pub mul : F → F → F
  pub div : F → F → F
  -- std::pow with a natural exponent.
  pub pow : F → ℕ → F
  -- The conversion of a nonnegative value to an integer.
  pub trunc : F → ℕ
  pub le_refl : (a : F) → le a a ≡ true
  pub le_trans : (a b c : F) → le a b ≡ true → le b c ≡ true → le a c ≡ true
  pub le_total : (a b : F) → le a b ≡ false → le b a ≡ true
  pub of_nonneg : (n m : ℕ) → le (of_ratio 0 1) (of_ratio n m) ≡ true
  pub add_nonneg :
      (a b : F)
      → le (of_ratio 0 1) a ≡ true
      → le (of_ratio 0 1) b ≡ true
      → le (of_ratio 0 1) (add a b) ≡ true
  pub sub_nonneg : (a b : F) → le b a ≡ true → le (of_ratio 0 1) (sub a b) ≡ true
  pub sub_nonpos : (a b : F) → le a b ≡ true → le (sub a b) (of_ratio 0 1) ≡ true
  pub sub_le :
      (a b : F) → le (of_ratio 0 1) b ≡ true → le (of_ratio 0 1) a ≡ true → le (sub a b) a ≡ true
  pub mul_nonneg :
      (a b : F)
      → le (of_ratio 0 1) a ≡ true
      → le (of_ratio 0 1) b ≡ true
      → le (of_ratio 0 1) (mul a b) ≡ true
  pub mul_grows :
      (a b : F) → le (of_ratio 0 1) a ≡ true → le (of_ratio 1 1) b ≡ true → le a (mul a b) ≡ true
  pub half_le : (a : F) → le (of_ratio 0 1) a ≡ true → le (mul a (of_ratio 1 2)) a ≡ true
  pub trunc_mono : (a b : F) → le a b ≡ true → leb (trunc a) (trunc b) ≡ true
  -- Every integer below 2^53 is a double.
  pub trunc_of : (n : ℕ) → leb 9007199254740992 n ≡ false → trunc (of_ratio n 1) ≡ n

module _ (d : Double) where
  abbrev pub zero_f : d.F
  zero_f = d.of_ratio 0 1

  -- `a < b`.
  abbrev pub lt_f : d.F → d.F → Bool
  lt_f a b = not (d.le b a)

  -- std::min and std::max, which return the first argument when the two are equal.
  abbrev pub min_f : d.F → d.F → d.F
  min_f a b = if lt_f b a then b else a

  abbrev pub max_f : d.F → d.F → d.F
  max_f a b = if lt_f a b then b else a

-- Fixed-point numbers with three decimals satisfy the laws.
abbrev pub fixed_pow : ℕ → ℕ → ℕ
fixed_pow a zero = 1000
fixed_pow a (suc n) = fixed_pow a n * a / 1000

pub fixed-mul_grows : (a b : ℕ) → leb 1000 b ≡ true → leb a (a * b / 1000) ≡ true
fixed-mul_grows a b h =
    let k : 1000 ≤ b = leb→le 1000 b h in
    let m : a * 1000 ≤ a * b = grind arith in le→leb a (a * b / 1000) (omega arith)

pub fixed-half_le : (a : ℕ) → leb (a * 500 / 1000) a ≡ true
fixed-half_le a = le→leb _ _ (omega arith)

pub fixed-le_refl : (a : ℕ) → leb a a ≡ true
fixed-le_refl a = ground arith

pub fixed-le_trans : (a b c : ℕ) → leb a b ≡ true → leb b c ≡ true → leb a c ≡ true
fixed-le_trans a b c h k = ground arith

pub fixed-le_total : (a b : ℕ) → leb a b ≡ false → leb b a ≡ true
fixed-le_total a b h = ground arith

pub fixed-nonneg : (a : ℕ) → leb 0 a ≡ true
fixed-nonneg a = ground arith

pub fixed-sub_nonpos : (a b : ℕ) → leb a b ≡ true → leb (a - b) 0 ≡ true
fixed-sub_nonpos a b h = ground arith

pub fixed-sub_le : (a b : ℕ) → leb (a - b) a ≡ true
fixed-sub_le a b = ground arith

pub fixed-trunc_mono : (a b : ℕ) → leb a b ≡ true → leb (a / 1000) (b / 1000) ≡ true
fixed-trunc_mono a b h = ground arith

pub fixed-trunc_of : (n : ℕ) → n * 1000 / 1 / 1000 ≡ n
fixed-trunc_of n = omega arith

unfoldable pub fixed_point : Double
fixed_point = record {
  F = ℕ;
  le = leb;
  of_ratio = λ n m. n * 1000 / m;
  add = λ a b. a + b;
  sub = λ a b. a - b;
  mul = λ a b. a * b / 1000;
  div = λ a b. a * 1000 / b;
  pow = fixed_pow;
  trunc = λ a. a / 1000;
  le_refl = fixed-le_refl;
  le_trans = fixed-le_trans;
  le_total = fixed-le_total;
  of_nonneg = λ n m. fixed-nonneg _;
  add_nonneg = λ a b _ _. fixed-nonneg _;
  sub_nonneg = λ a b _. fixed-nonneg _;
  sub_nonpos = fixed-sub_nonpos;
  sub_le = λ a b _ _. fixed-sub_le a b;
  mul_nonneg = λ a b _ _. fixed-nonneg _;
  mul_grows = λ a b _. fixed-mul_grows a b;
  half_le = λ a _. fixed-half_le a;
  trunc_mono = fixed-trunc_mono;
  trunc_of = λ n _. fixed-trunc_of n;
}
