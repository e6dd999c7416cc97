-- ===== src/Damage.antt =====
-- src/damage.ts: the two damage formulas.
pub mod Bounds
use pokeage.Prelude.{ℕ, ◌+◌, ◌-◌, ◌*◌, ◌/◌, max, Bool, true, false, ◌==◌, if◌then◌else◌}
use pokeage.Num.{Num, ratio}
use pokeage.Types.{MonsterInstance}
use pokeage.Typechart.{get_type_multiplier}
use pokeage.Rng.{Rng, variance, float}
use pokeage.Constants.{default_move_power}

-- `type_mod` is counted in halves.
pub record DamageRoll : Type 0 where
  pub dmg : ℕ
  pub type_mod : ℕ

module _ {F : Type 0} ⦃n : Num F⦄ where
  open n use {of_ℕ, add, sub, mul, div, floor}

  -- A type multiplier as a double.
  abbrev pub halves : ℕ → F
  halves m = ratio m 2

  unfoldable pub calc_damage : MonsterInstance F → MonsterInstance F → ℕ → Rng → DamageRoll × Rng
  calc_damage attacker defender move_power rng =
      let level = if attacker.level == 0 then 5 else attacker.level in
      let power = if move_power == 0 then default_move_power else move_power in
      let a_stat = max 1 attacker.stats.atk in
      let d_stat = max 1 defender.stats.def in
      let type_mod = get_type_multiplier attacker.type defender.type in
      let (roll, rng') = variance (of_ℕ 1) (ratio 85 100) rng in
      let raw =
        add
          (div
            (mul (mul (add (div (of_ℕ (2 * level)) (of_ℕ 5)) (of_ℕ 2)) (of_ℕ power))
              (div (of_ℕ a_stat) (of_ℕ d_stat)))
            (of_ℕ 50))
          (of_ℕ 2) in
      if type_mod == 0 then (record { dmg = 0; type_mod = type_mod }, rng) else (
        record { dmg = max 1 (floor (mul (mul raw (halves type_mod)) roll)); type_mod = type_mod },
        rng',
      )

  -- `Math.floor(def * 0.5)` is the half rounded down, and `Math.max(1, …)` also covers a defence that
  -- outweighs the attack.
  unfoldable pub calc_damage_simple : MonsterInstance F → MonsterInstance F → Rng → ℕ × Rng
  calc_damage_simple attacker defender rng =
      let base_dmg = max 1 (attacker.stats.atk - defender.stats.def / 2) in
      let type_bonus = halves (get_type_multiplier attacker.type defender.type) in
      let (roll, rng') = float (ratio 85 100) (ratio 115 100) rng in
      let level_mod = add (of_ℕ 1) (mul (sub (of_ℕ attacker.level) (of_ℕ 1)) (ratio 2 100)) in
      (max 1 (floor (mul (mul (mul (of_ℕ base_dmg) type_bonus) roll) level_mod)), rng')
