-- ===== src/Num/Order.antt =====
-- Consequences of the laws that the components share: fractions, `Math.min`, `Math.max` and clamping.
use pokeage.Prelude.{ℕ, ◌*◌, ◌≤◌, ◌<◌, ◌≡◌, arith, false}
use pokeage.Num.{Num, ◌≼◌, ratio, max_num, min_num, clamp}
use pokeage.Num.Laws.{IsNum}

module _ {F : Type 0} ⦃n : Num F⦄ (laws : IsNum F) where
  open n use {of_ℕ, add, sub, mul, div, le, lt}
  open laws use {le_refl, le_trans, le_total, lt-eq-not-le, div_le, div-one}

  pub ratio-le-whole : (p q a : ℕ) → 0 < q → p ≤ a * q → ratio p q ≼ of_ℕ a
  ratio-le-whole p q a h k = rw (← div-one a) (div_le p q a 1 h (omega arith) (omega arith))

  pub whole-le-ratio : (a p q : ℕ) → 0 < q → a * q ≤ p → of_ℕ a ≼ ratio p q
  whole-le-ratio a p q h k = rw (← div-one a) (div_le a 1 p q (omega arith) h (omega arith))

  pub zero-le-ratio : (p q : ℕ) → 0 < q → of_ℕ 0 ≼ ratio p q
  zero-le-ratio p q h = whole-le-ratio 0 p q h (omega arith)

  -- `x <= y` that is false.
  pub le_of_not-le : (x y : F) → le x y ≡ false → y ≼ x
  le_of_not-le x y h = ground (arith, le_total x y)

  pub clamp_bounds : (lo hi x : F) → lo ≼ hi → (lo ≼ clamp lo hi x) × (clamp lo hi x ≼ hi)
  clamp_bounds lo hi x h =
      ground
        (arith, le_total lo x, le_total hi x, le_total hi lo, le_refl lo, le_refl hi, le_refl x)

  pub max_num_mono : (lo x y : F) → x ≼ y → max_num lo x ≼ max_num lo y
  max_num_mono lo x y h =
      ground (arith, le_trans lo x y, le_total lo y, le_total lo x, le_refl lo, le_refl x)

  pub min_num_mono : (hi x y : F) → x ≼ y → min_num hi x ≼ min_num hi y
  min_num_mono hi x y h = ground (arith, le_trans hi x y, le_total hi y, le_total hi x, le_refl hi)

  pub clamp_mono : (lo hi x y : F) → x ≼ y → clamp lo hi x ≼ clamp lo hi y
  clamp_mono lo hi x y h = min_num_mono hi _ _ (max_num_mono lo x y h)
