-- ===== src/Affection/Laws.antt =====
-- src/affection.ts: bounds of the gain and of the counter, and the claim gate.
use native.Mathlib.Nat.{mul-le-mul}
use pokeage.Prelude.{ℕ, ◌≤◌, ◌≡◌, ◌↔◌, arith, max, true, false}
use pokeage.Num.{Num, ◌≼◌, ratio}
use pokeage.Num.Laws.{IsNum}
use pokeage.Num.Order.{ratio-le-whole, zero-le-ratio, clamp_bounds, clamp_mono}
use pokeage.Types.{MonsterInstance}
use pokeage.Constants.{affection_max}
use pokeage.Affection.{
  affection_gain_for, add_affection, can_claim_card, affection_min_gain, affection_max_gain,
  affection_base,
}

module _ {F : Type 0} ⦃n : Num F⦄ (laws : IsNum F) where
  open n use {of_ℕ, add, mul, div, le}
  open laws use {le_refl, le_trans, le_total, lt-eq-not-le, add_mono, mul_mono, div_le, add-zero}

  -- A win is worth between 0.1 and 2 points, whatever the two levels.
  pub affection_gain_for_bounds :
      (mon : MonsterInstance F) (foe_level : ℕ)
      → (ratio {F = F} 1 10 ≼ affection_gain_for mon foe_level)
        × (affection_gain_for mon foe_level ≼ of_ℕ 2)
  unfolding affection_gain_for
  affection_gain_for_bounds mon foe_level =
      clamp_bounds laws affection_min_gain affection_max_gain _
        (ratio-le-whole laws 1 10 2 (omega arith) (omega arith))

  -- Beating a foe of a higher level, or with a monster of a lower level, is never worth less.
  pub affection_gain_for_mono :
      (a b : MonsterInstance F) (foe foe' : ℕ)
      → b.level ≤ a.level
      → foe ≤ foe'
      → affection_gain_for a foe ≼ affection_gain_for b foe'
  unfolding affection_gain_for
  affection_gain_for_mono a b foe foe' hl hf =
      let my = max 1 a.level in
      let my' = max 1 b.level in
      clamp_mono laws affection_min_gain affection_max_gain _ _ (
        mul_mono affection_base affection_base (ratio foe my) (ratio foe' my')
          (zero-le-ratio laws 1 2 (omega arith)) (zero-le-ratio laws foe my (omega arith))
          (le_refl affection_base)
          (div_le foe my foe' my' (omega arith) (omega arith) (mul-le-mul hf (omega arith))))

  -- With a gain that is not negative the counter never falls, stays at most 100 if it was, and the
  -- flag is raised exactly when the claim gate opens.
  pub add_affection_lem :
      (mon : MonsterInstance F) (gain : F)
      → of_ℕ 0 ≼ gain
      → mon.affection ≼ of_ℕ affection_max
      → let (mon', just_hit) = add_affection mon gain in
        (mon.affection ≼ mon'.affection)
        × (mon'.affection ≼ of_ℕ affection_max)
        × ((just_hit ≡ true) ↔ ((can_claim_card mon ≡ false) × (can_claim_card mon' ≡ true)))
  unfolding add_affection can_claim_card
  add_affection_lem mon gain hg hm =
      let top : F = of_ℕ affection_max in
      let sum : F = add mon.affection gain in
      let grows : mon.affection ≼ sum =
        rw add-zero at (add_mono mon.affection mon.affection (of_ℕ 0) gain (le_refl _) hg) in
      ground (arith, lt-eq-not-le mon.affection top, le_total top sum, le_refl top)
