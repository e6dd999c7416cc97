-- ===== src/Power.antt =====
-- src/power.ts: combat power scoring.
use pokeage.Prelude.{ℕ, ◌+◌, ◌*◌, Option, none, some, List, [], ◌∷◌, ltb, ◌==◌, if◌then◌else◌}
use pokeage.Types.{Rarity, MonsterInstance, Trainer}
use pokeage.Constants.{power_level_weight}

abbrev pub rarity_or_common : Option Rarity → Rarity
rarity_or_common none = Rarity.common
rarity_or_common (some r) = r

abbrev pub power_rarity_bonus : Rarity → ℕ
power_rarity_bonus Rarity.common = 0
power_rarity_bonus Rarity.rare = 100
power_rarity_bonus Rarity.legendary = 200

module _ {F : Type 0} where
  unfoldable pub get_monster_power : MonsterInstance F → ℕ
  get_monster_power mon =
      let s = mon.stats in
      let stat_sum = s.hp + s.atk + s.def + s.spd in
      let level = if mon.level == 0 then 1 else mon.level in
      stat_sum + level * power_level_weight + power_rarity_bonus (rarity_or_common mon.rarity)

  unfoldable pub total_power : List (MonsterInstance F) → ℕ
  total_power [] = 0
  total_power (m ∷ ms) = get_monster_power m + total_power ms

  unfoldable pub get_trainer_power : Trainer F → ℕ
  get_trainer_power trainer = total_power trainer.team

  -- The `reduce` that keeps the first weakest.
  unfoldable pub weakest_from : MonsterInstance F → List (MonsterInstance F) → MonsterInstance F
  weakest_from w [] = w
  weakest_from w (m ∷ ms) =
      weakest_from (if ltb (get_monster_power m) (get_monster_power w) then m else w) ms

  unfoldable pub weakest_of : List (MonsterInstance F) → Option (MonsterInstance F)
  weakest_of [] = none
  weakest_of (m ∷ ms) = some (weakest_from m ms)
