-- ===== src/Num/Laws.antt =====
-- What the proofs take of IEEE arithmetic, on doubles that are no NaN: the order is total, correct
-- rounding keeps every operation monotone, and whole numbers up to 2^53 are exact.
use pokeage.Prelude.{ℕ, ◌+◌, ◌-◌, ◌*◌, ◌^◌, ◌≤◌, ◌<◌, ◌≡◌, ◌⊎◌, false, not}
use pokeage.Num.{Num, ◌≼◌}

pub record IsNum (F : Type 0) ⦃n : Num F⦄ : Type 0 where
  pub le_refl : (x : F) → x ≼ x
  pub le_trans : (x y z : F) → x ≼ y → y ≼ z → x ≼ z
  pub le_total : (x y : F) → (x ≼ y) ⊎ (y ≼ x)
  pub lt-eq-not-le : (x y : F) → n.lt x y ≡ not (n.le y x)
  pub of_ℕ_mono : (a b : ℕ) → a ≤ b → n.of_ℕ a ≼ n.of_ℕ b
  pub of_ℕ_lt : (a b : ℕ) → a < b → b ≤ 2 ^ 53 → n.le (n.of_ℕ b) (n.of_ℕ a) ≡ false
  pub add_mono : (x y z w : F) → x ≼ y → z ≼ w → n.add x z ≼ n.add y w
  pub sub_mono : (x y z w : F) → x ≼ y → w ≼ z → n.sub x z ≼ n.sub y w
  -- On values that are not below zero.
  pub mul_mono : (x y z w : F) → n.of_ℕ 0 ≼ x → n.of_ℕ 0 ≼ z → x ≼ y → z ≼ w → n.mul x z ≼ n.mul y w
  -- Of two fractions of whole numbers the quotients are ordered as the fractions are.
  pub div_le :
      (a b c d : ℕ)
      → 0 < b
      → 0 < d
      → a * d ≤ c * b
      → n.div (n.of_ℕ a) (n.of_ℕ b) ≼ n.div (n.of_ℕ c) (n.of_ℕ d)
  pub div-one : (a : ℕ) → n.div (n.of_ℕ a) (n.of_ℕ 1) ≡ n.of_ℕ a
  pub add-zero : (x : F) → n.add x (n.of_ℕ 0) ≡ x
  pub zero-add : (x : F) → n.add (n.of_ℕ 0) x ≡ x
  pub sub-zero : (x : F) → n.sub x (n.of_ℕ 0) ≡ x
  pub mul-one : (x : F) → n.mul x (n.of_ℕ 1) ≡ x
  pub mul-zero : (x : F) → n.of_ℕ 0 ≼ x → n.mul x (n.of_ℕ 0) ≡ n.of_ℕ 0
  pub div-self : (a : ℕ) → 0 < a → n.div (n.of_ℕ a) (n.of_ℕ a) ≡ n.of_ℕ 1
  pub zero-div : (a : ℕ) → 0 < a → n.div (n.of_ℕ 0) (n.of_ℕ a) ≡ n.of_ℕ 0
  pub add-of_ℕ : (a b : ℕ) → a + b ≤ 2 ^ 53 → n.add (n.of_ℕ a) (n.of_ℕ b) ≡ n.of_ℕ (a + b)
  pub sub-of_ℕ : (a b : ℕ) → b ≤ a → a ≤ 2 ^ 53 → n.sub (n.of_ℕ a) (n.of_ℕ b) ≡ n.of_ℕ (a - b)
  pub mul-of_ℕ : (a b : ℕ) → a * b ≤ 2 ^ 53 → n.mul (n.of_ℕ a) (n.of_ℕ b) ≡ n.of_ℕ (a * b)
  pub floor_mono : (x y : F) → x ≼ y → n.floor x ≤ n.floor y
  pub floor-of_ℕ : (a : ℕ) → a ≤ 2 ^ 53 → n.floor (n.of_ℕ a) ≡ a
  pub ceil_mono : (x y : F) → x ≼ y → n.ceil x ≤ n.ceil y
  pub ceil-of_ℕ : (a : ℕ) → a ≤ 2 ^ 53 → n.ceil (n.of_ℕ a) ≡ a
  pub floor-le-ceil : (x : F) → n.floor x ≤ n.ceil x
  pub ceil-le-suc_floor : (x : F) → n.ceil x ≤ n.floor x + 1
