-- ===== src/Num/Fixed.antt =====
-- Fixed-point numbers in units of 2^-32, cut off at zero: a model of the operations and laws, in
-- which the definitions run. `pow` is the power with the whole part of its exponent.
use native.Mathlib.Nat.{
  div-le_self, le-div_iff_mul-le, le_refl, mul-div-le, mul-div_left, mul-le-mul, mul_comm,
  mul-div-mul_right, le_of_mul-le-mul_left,
}
use pokeage.Prelude.{ℕ, ◌+◌, ◌-◌, ◌*◌, ◌/◌, ◌^◌, ◌≤◌, ◌<◌, ◌≡◌, arith, ltb, leb}
use pokeage.Num.{Num}
use pokeage.Num.Laws.{IsNum}

abbrev pub scale : ℕ
scale = 2 ^ 32

-- A type of its own, so that `Num` has one instance for it.
pub record Fixed : Type 0 where
  pub units : ℕ

abbrev pub fixed : ℕ → Fixed
fixed u = record { units = u }

instance abbrev pub fixed_num : Num Fixed
fixed_num = record {
  of_ℕ = λ a. fixed (a * scale);
  add = λ x y. fixed (x.units + y.units);
  sub = λ x y. fixed (x.units - y.units);
  mul = λ x y. fixed (x.units * y.units / scale);
  div = λ x y. fixed (x.units * scale / y.units);
  pow = λ x y. fixed ((x.units / scale) ^ (y.units / scale) * scale);
  lt = λ x y. ltb x.units y.units;
  le = λ x y. leb x.units y.units;
  floor = λ x. x.units / scale;
  ceil = λ x. (x.units + (scale - 1)) / scale;
  round = λ x. (x.units + scale / 2) / scale;
}

mul_div_mono : (a b c d : ℕ) → a ≤ b → c ≤ d → a * c / scale ≤ b * d / scale
mul_div_mono a b c d h k = omega (arith, mul-le-mul h k)

-- (a / b) * d ≤ c * scale, where a stands for a * scale.
fraction_le : (a b c d : ℕ) → 0 < b → 0 < d → a * d ≤ c * b → a * scale / b ≤ c * scale / d
fraction_le a b c d p q h = (le-div_iff_mul-le q).1 (le_of_mul-le-mul_left (scaled h) p)
  where
    scaled : a * d ≤ c * b → b * (a * scale / b * d) ≤ b * (c * scale)
    scaled h = omega (arith, mul-le-mul (mul-div-le (a * scale) b) (le_refl d), h)

div_units_le :
    (a b c d : ℕ)
    → 0 < b
    → 0 < d
    → a * d ≤ c * b
    → a * scale * scale / (b * scale) ≤ c * scale * scale / (d * scale)
div_units_le a b c d p q h =
    rw
      (
        mul-div-mul_right {m = scale} (a * scale) b (omega arith),
        mul-div-mul_right {m = scale} (c * scale) d (omega arith),
      )
      (fraction_le a b c d p q h)

div_units_self : (a : ℕ) → 0 < a → a * scale * scale / (a * scale) ≡ scale
div_units_self a h =
    rw (mul_comm (a * scale) scale) (mul-div_left scale {n = a * scale} (omega arith))

pub Fixed-IsNum : IsNum Fixed
Fixed-IsNum = record {
  le_refl = λ x. ground arith;
  le_trans = λ x y z h k. ground arith;
  le_total = λ x y. ground arith;
  lt-eq-not-le = λ x y. ground arith;
  of_ℕ_mono = λ a b h. ground arith;
  of_ℕ_lt = λ a b h k. ground arith;
  add_mono = λ x y z w h k. ground arith;
  sub_mono = λ x y z w h k. ground arith;
  mul_mono = λ x y z w p q h k. ground (arith, mul_div_mono x.units y.units z.units w.units);
  div_le = λ a b c d p q h. ground (arith, div_units_le a b c d p q h);
  div-one = λ a. ground (arith, mul-div_left (a * scale) {n = scale} (omega arith));
  add-zero = λ x. ground arith;
  zero-add = λ x. ground arith;
  sub-zero = λ x. ground arith;
  mul-one = λ x. ground arith;
  mul-zero = λ x h. ground arith;
  div-self = λ a h. ground (arith, div_units_self a);
  zero-div = λ a h. ground (arith, div-le_self 0 (a * scale));
  add-of_ℕ = λ a b h. ground arith;
  sub-of_ℕ = λ a b h k. ground arith;
  mul-of_ℕ = λ a b h. ground arith;
  floor_mono = λ x y h. ground arith;
  floor-of_ℕ = λ a h. ground arith;
  ceil_mono = λ x y h. ground arith;
  ceil-of_ℕ = λ a h. ground arith;
  floor-le-ceil = λ x. ground arith;
  ceil-le-suc_floor = λ x. ground arith;
}
