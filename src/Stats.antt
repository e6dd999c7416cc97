-- ===== src/Stats.antt =====
-- src/stats.ts: stat scaling and instance creation.
pub mod Growth
use pokeage.Prelude.{
  ℕ, ◌+◌, ◌*◌, ◌/◌, max, Bool, true, false, not, ◌&&◌, Option, none, some, leb, ◌==◌, if◌then◌else◌,
}
use pokeage.Num.{Num, max_num, min_num}
use pokeage.Types.{Stats, MonsterTemplate, MonsterInstance}
use pokeage.Constants.{growth_span}

-- `base || 1` and `level || 1` replace a zero, as the maximum with 1 does anyway. `2 * b * L` is
-- whole, and its quotient by 100 has the floor of the integer division.
unfoldable pub stat_at_level : ℕ → ℕ → Bool → ℕ
stat_at_level base level is_hp =
    let b = max 1 base in
    let l = max 1 level in let core = 2 * b * l / 100 in if is_hp then core + l + 10 else core + 5

unfoldable pub target_stats_for : MonsterTemplate → Stats
target_stats_for template = elim template.stage2 [
  | some s ↦ s
  | none ↦ elim template.stage1 [ some s ↦ s | none ↦ template.base ]
]

-- `ev && level >= ev`: a missing or zero level never applies.
abbrev pub reaches : Option ℕ → ℕ → Bool
reaches none level = false
reaches (some ev) level = not (ev == 0) && leb ev level

unfoldable pub stage_for_level : MonsterTemplate → ℕ → ℕ
stage_for_level template level =
    if reaches template.ev2 level then 2 else if reaches template.ev1 level then 1 else 0

module _ (F : Type 0) ⦃n : Num F⦄ where
  open n use {of_ℕ, add, sub, mul, div, floor}

  -- The progress of the growth, clamped to [0, 1].
  unfoldable pub growth_at : ℕ → F
  growth_at level =
      min_num (of_ℕ 1) (max_num (of_ℕ 0) (div (sub (of_ℕ level) (of_ℕ 1)) (of_ℕ growth_span)))

  unfoldable pub interp_stat : ℕ → ℕ → ℕ → ℕ
  interp_stat base target level =
      floor (add (of_ℕ base) (mul (sub (of_ℕ target) (of_ℕ base)) (growth_at level)))

  unfoldable pub stats_at_level : MonsterTemplate → ℕ → Stats
  stats_at_level template level =
      let target = target_stats_for template in
      record {
        hp = interp_stat template.base.hp target.hp level;
        atk = interp_stat template.base.atk target.atk level;
        def = interp_stat template.base.def target.def level;
        spd = interp_stat template.base.spd target.spd level;
      }

  -- The fields that `createMonsterInstance` and `makeCombatant` share.
  abbrev instance_with : MonsterTemplate → ℕ → Stats → MonsterInstance F
  instance_with template level stats = record {
    template_id = template.id;
    name = template.name;
    type = template.type;
    asset = template.asset;
    level = level;
    xp = 0;
    stage = stage_for_level template level;
    stats = stats;
    current_hp = stats.hp;
    target_stats = target_stats_for template;
    ev1 = template.ev1;
    ev2 = template.ev2;
    rarity = template.rarity;
    rarity_tier = template.rarity_tier;
    affection = of_ℕ 0;
    moves = none;
  }

  unfoldable pub create_monster_instance : MonsterTemplate → ℕ → MonsterInstance F
  create_monster_instance template level =
      instance_with template level (stats_at_level template level)

  unfoldable pub make_combatant : MonsterTemplate → ℕ → MonsterInstance F
  unfolding stat_at_level
  make_combatant template level = instance_with template level (record {
    hp = stat_at_level template.base.hp level true;
    atk = stat_at_level template.base.atk level false;
    def = stat_at_level template.base.def level false;
    spd = stat_at_level template.base.spd level false;
  })
