-- ===== src/Progression.antt =====
-- src/progression.ts: experience, leveling and evolution.
pub mod Level
pub mod Total
pub mod Stage
pub mod Exact
use pokeage.Prelude.{
  ℕ, zero, suc, ◌+◌, ◌-◌, ◌*◌, min, max, Bool, true, false, ◌&&◌, Option, none, some, List, [], ◌∷◌,
  ◌++◌, leb, ltb, ◌==◌, if◌then◌else◌,
}
use pokeage.Num.{Num, max_num, ratio}
use pokeage.Types.{MonsterTemplate, MonsterInstance}
use pokeage.Stats.{reaches, stats_at_level}
use pokeage.Constants.{max_level, xp_curve_split}

pub data ProgressEvent : Type 0 where
  levelup : ℕ → ProgressEvent
  evolve : ℕ → ProgressEvent

module _ (F : Type 0) ⦃n : Num F⦄ where
  open n use {of_ℕ, add, sub, mul, pow, floor}

  unfoldable pub get_xp_for_level : ℕ → ℕ
  get_xp_for_level level =
      if leb level xp_curve_split
      then floor (mul (of_ℕ 50) (pow (of_ℕ level) (ratio 15 10)))
      else floor (mul (of_ℕ 80) (pow (of_ℕ level) (ratio 17 10)))

  -- The sum over the levels from `l`, `left` of them.
  cumulative_loop : ℕ → ℕ → ℕ → ℕ
  cumulative_loop l zero total = total
  cumulative_loop l (suc left) total = cumulative_loop (l + 1) left (total + get_xp_for_level l)

  unfoldable pub cumulative_xp : ℕ → ℕ
  unfolding cumulative_loop
  cumulative_xp level = cumulative_loop 1 (level - 1) 0

  -- The evolution at the end of a level, with its event.
  unfoldable pub evolve_at : MonsterInstance F → MonsterInstance F × List ProgressEvent
  evolve_at mon =
      if mon.stage == 0 && reaches mon.ev1 mon.level
      then (record mon { stage = 1 }, evolve 1 ∷ [])
      else if mon.stage == 1 && reaches mon.ev2 mon.level
      then (record mon { stage = 2 }, evolve 2 ∷ [])
      else (mon, [])

  -- One level: the stats are computed anew and the gain in hit points is healed. The sum is cut off at
  -- 0; it is exact where a level does not lower the maximum.
  unfoldable pub level_up : MonsterTemplate → MonsterInstance F → MonsterInstance F
  level_up template mon =
      let level = mon.level + 1 in
      let stats = stats_at_level F template level in
      record mon {
        xp = mon.xp - get_xp_for_level mon.level;
        level = level;
        stats = stats;
        current_hp = min stats.hp (mon.current_hp + stats.hp - mon.stats.hp);
      }

  abbrev pub can_level : MonsterInstance F → Bool
  can_level mon = leb (get_xp_for_level mon.level) mon.xp && ltb mon.level max_level

  -- The loop of `grantXp`. `fuel` bounds the levels still to gain.
  unfoldable pub grant_loop :
      ℕ → MonsterTemplate → MonsterInstance F → MonsterInstance F × List ProgressEvent
  grant_loop zero template mon = (mon, [])
  grant_loop (suc fuel) template mon =
      let (grown, evolved) = evolve_at (level_up template mon) in
      let (final, later) = grant_loop fuel template grown in
      if can_level mon then (final, levelup (mon.level + 1) ∷ (evolved ++ later)) else (mon, [])

  unfoldable pub grant_xp :
      MonsterInstance F → ℕ → MonsterTemplate → MonsterInstance F × List ProgressEvent
  grant_xp mon amount template = grant_loop max_level template (record mon { xp = mon.xp + amount })

  unfoldable pub rookie_multiplier : ℕ → F
  rookie_multiplier level =
      if ltb level 30 then of_ℕ 4 else if ltb level 45 then ratio 25 10 else ratio 18 10

  unfoldable pub wild_xp_reward : ℕ → ℕ → F → ℕ
  wild_xp_reward lead_level wild_level buff_mult =
      let level_diff =
        max_num (ratio 4 10)
          (sub (of_ℕ 1) (mul (sub (of_ℕ lead_level) (of_ℕ wild_level)) (ratio 2 100))) in
      let rookie = rookie_multiplier lead_level in
      let base = add (of_ℕ 5) (mul (of_ℕ wild_level) (ratio 25 10)) in
      max 12 (floor (mul (mul (mul base level_diff) rookie) buff_mult))

  unfoldable pub gym_xp_reward : ℕ → ℕ → F → ℕ
  gym_xp_reward member_level team_size buff_mult = floor (
      mul (mul (add (of_ℕ 15) (mul (of_ℕ team_size) (of_ℕ 8))) (rookie_multiplier member_level))
        buff_mult)
