-- ===== src/Progression/Exact.antt =====
-- src/progression.ts: the maximum of hit points over one level.
use pokeage.Prelude.{◌+◌, ◌^◌, ◌≤◌, ◌≡◌, ap, arith}
use pokeage.Num.{Num}
use pokeage.Num.Laws.{IsNum}
use pokeage.Types.{MonsterTemplate, MonsterInstance}
use pokeage.Stats.{stats_at_level, target_stats_for}
use pokeage.Stats.Growth.{interp_stat_mono}
use pokeage.Progression.{level_up}

-- A monster with the stats of its species and level, whose target is not below its base, does not lose
-- maximal hit points with a level.
pub level_up_grows :
    {F : Type 0} ⦃n : Num F⦄ (laws : IsNum F) (template : MonsterTemplate) (m : MonsterInstance F)
    → template.base.hp ≤ (target_stats_for template).hp
    → (target_stats_for template).hp ≤ 2 ^ 53
    → 1 ≤ m.level
    → m.level + 1 ≤ 2 ^ 53
    → m.stats ≡ stats_at_level F template m.level
    → m.stats.hp ≤ (level_up F template m).stats.hp
unfolding level_up stats_at_level
level_up_grows laws template m h b p q e =
    let hp : m.stats.hp ≡ (stats_at_level _ template m.level).hp = ap (λ s. s.hp) e in
    omega (
      arith,
      hp,
      interp_stat_mono laws template.base.hp (target_stats_for template).hp m.level (m.level + 1) h
          b p (omega arith) q,
    )
