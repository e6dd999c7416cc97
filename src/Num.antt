-- ===== src/Num.antt =====
-- The part of JavaScript's `number` that the engine uses beyond whole numbers: IEEE doubles with
-- fractions, as in rates, multipliers and rolls. A type `F` of doubles and its operations are the
-- parameter of the definitions that compute with fractions; whole numbers (levels, hit points,
-- stats, counters) are ℕ. `Num.Laws` states what proofs take of the arithmetic, and `Num.Fixed`
-- is a model of it.
pub mod Laws
pub mod Order
pub mod Fixed
use pokeage.Prelude.{ℕ, Bool, false, true, ◌≡◌, if◌then◌else◌}

pub record Num (F : Type 0) : Type 0 where
  -- A whole number as a double.
  pub of_ℕ : ℕ → F
  pub add : F → F → F
  pub sub : F → F → F
  pub mul : F → F → F
  pub div : F → F → F
  -- `Math.pow`
  pub pow : F → F → F
  pub lt : F → F → Bool
  pub le : F → F → Bool
  -- `Math.max(0, Math.floor(x))`, `Math.max(0, Math.ceil(x))` and `Math.max(0, Math.round(x))`
  pub floor : F → ℕ
  pub ceil : F → ℕ
  pub round : F → ℕ

-- `x <= y` evaluates to true.
infix 4 ◌≼◌
abbrev pub ◌≼◌ : {F : Type 0} ⦃n : Num F⦄ → F → F → Type 0
◌≼◌ ⦃n⦄ x y = n.le x y ≡ true

module _ {F : Type 0} ⦃n : Num F⦄ where
  open n use {of_ℕ, add, sub, mul, div, le, lt}

  -- A decimal literal: 0.85 is the double nearest to 85/100, which is what the correctly rounded
  -- division of the two whole numbers gives.
  abbrev pub ratio : ℕ → ℕ → F
  ratio p q = div (of_ℕ p) (of_ℕ q)

  -- `Math.max` and `Math.min` of two doubles that are no NaN.
  abbrev pub max_num : F → F → F
  max_num x y = if le x y then y else x

  abbrev pub min_num : F → F → F
  min_num x y = if le x y then x else y

  -- `Math.min(hi, Math.max(lo, x))`
  abbrev pub clamp : F → F → F → F
  clamp lo hi x = min_num hi (max_num lo x)
