-- ===== src/Engine/Rewards.antt =====
-- src/engine.ts: the experience that fights and gyms give.
use pokeage.Prelude.{ℕ, ◌&&◌, Option, none, some, length, if◌then◌else◌}
use pokeage.Num.{Num}
use pokeage.Types.{MonsterTemplate, MonsterInstance, Gym}
use pokeage.Affection.{add_affection, affection_gain_for}
use pokeage.Progression.{grant_xp, wild_xp_reward, gym_xp_reward}
use pokeage.Engine.State.{EngineOptions}

module _ {F : Type 0} ⦃n : Num F⦄ (get_template : ℕ → Option MonsterTemplate)
    (opts : EngineOptions F) where
  open n use {of_ℕ, le}

  -- `opts.xpBuff || 1`
  abbrev pub xp_buff_or_one : F
  xp_buff_or_one = elim opts.xp_buff [
    | none ↦ of_ℕ 1
    | some x ↦ if le x (of_ℕ 0) && le (of_ℕ 0) x then of_ℕ 1 else x
  ]

  -- `grantXp` where the species is known, and nothing where it is not.
  abbrev pub grant_known : ℕ → MonsterInstance F → MonsterInstance F
  grant_known amount m = elim (get_template m.template_id) [
    | none ↦ m
    | some tpl ↦ (grant_xp F m amount tpl).0
  ]

  abbrev pub reward_member : Gym → MonsterInstance F → MonsterInstance F
  reward_member gym m = grant_known (gym_xp_reward F m.level (length gym.team) xp_buff_or_one) m

  -- The lead after a won fight, and the experience.
  unfoldable pub reward_lead : MonsterInstance F → ℕ → MonsterInstance F × ℕ
  reward_lead lead wild_level =
      let bonded = (add_affection lead (affection_gain_for lead wild_level)).0 in
      let xp = wild_xp_reward F lead.level wild_level xp_buff_or_one in (grant_known xp bonded, xp)
