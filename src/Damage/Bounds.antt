-- ===== src/Damage/Bounds.antt =====
-- src/damage.ts: the least damage of the two formulas.
use pokeage.Prelude.{ℕ, ◌≤◌, ◌≡◌, ◌<◌, ◌⊎◌, ◌↔◌, arith, true}
use pokeage.Num.{Num}
use pokeage.Types.{MonsterInstance}
use pokeage.Typechart.{is_immune}
use pokeage.Typechart.Laws.{get_type_multiplier_iff}
use pokeage.Rng.{Rng}
use pokeage.Damage.{calc_damage, calc_damage_simple}

module _ {F : Type 0} ⦃n : Num F⦄ where
  -- The standard formula does no damage exactly on an immune defender, and then draws nothing from
  -- the generator.
  pub calc_damage_zero_iff :
      (attacker defender : MonsterInstance F) (power : ℕ) (rng : Rng)
      → let (roll, rng') = calc_damage attacker defender power rng in
        ((roll.dmg ≡ 0) ↔ (is_immune attacker.type defender.type ≡ true))
        × ((0 < roll.dmg) ⊎ (rng' ≡ rng))
  unfolding calc_damage
  calc_damage_zero_iff attacker defender power rng =
      ground (arith, (get_type_multiplier_iff attacker.type defender.type).0)

  -- The simple formula does at least one point of damage, on immune defenders too.
  pub calc_damage_simple_pos :
      (attacker defender : MonsterInstance F) (rng : Rng)
      → 1 ≤ (calc_damage_simple attacker defender rng).0
  unfolding calc_damage_simple
  calc_damage_simple_pos attacker defender rng = ground arith
