-- ===== src/Catch.antt =====
-- src/catch.ts: the catch rate and one throw. The ball multiplier is a double.
pub mod Laws
use pokeage.Prelude.{ℕ, Bool, true, false, Option, if◌then◌else◌}
use pokeage.Num.{Num, max_num, min_num, ratio}
use pokeage.Types.{Rarity, MonsterInstance}
use pokeage.Power.{rarity_or_common}
use pokeage.Rng.{Rng, chance}
use pokeage.Constants.{masterball_mult}

pub record CatchResult (F : Type 0) : Type 0 where
  pub caught : Bool
  pub balls_used : ℕ
  pub rate : F

module _ {F : Type 0} ⦃n : Num F⦄ where
  open n use {of_ℕ, sub, mul, lt, le}

  abbrev pub base_catch_rate : Rarity → F
  base_catch_rate Rarity.common = ratio 4 10
  base_catch_rate Rarity.rare = ratio 8 100
  base_catch_rate Rarity.legendary = ratio 15 1000

  abbrev pub catch_level_penalty : F
  catch_level_penalty = ratio 5 1000

  abbrev pub catch_rate_min : F
  catch_rate_min = ratio 5 1000

  abbrev pub catch_rate_max : F
  catch_rate_max = ratio 9 10

  unfoldable pub catch_rate : MonsterInstance F → F → F
  catch_rate wild ball_mult =
      let base = base_catch_rate (rarity_or_common wild.rarity) in
      let penalty = max_num (of_ℕ 0) (mul (of_ℕ wild.level) catch_level_penalty) in
      let rate = min_num catch_rate_max (max_num catch_rate_min (sub base penalty)) in
      if le (of_ℕ masterball_mult) ball_mult
      then of_ℕ 1
      else if lt (of_ℕ 1) ball_mult
      then min_num (of_ℕ 1) (mul rate ball_mult)
      else rate

  unfoldable pub attempt_catch : MonsterInstance F → F → Rng → CatchResult F × Rng
  attempt_catch wild ball_mult rng =
      let rate = catch_rate wild ball_mult in
      let (caught, rng') = chance rate rng in
      (record { caught = caught; balls_used = 1; rate = rate }, rng')
