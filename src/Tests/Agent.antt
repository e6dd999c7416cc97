-- ===== src/Tests/Agent.antt =====
-- Tests: the agent in a world of two towns.
use pokeage.Prelude.{
  pos, negsuc, true, ◌*◌, ◌≤◌, ℕ, ◌≡◌, ◌==◌, refl, arith, Option, none, some, [], ◌∷◌,
  if◌then◌else◌,
}
use pokeage.Num.Fixed.{Fixed, fixed, fixed_num}
use pokeage.Types.{MonsterTemplate, MonsterInstance, Town, Gym, Route, AgentState, Rarity, fire}
use pokeage.Rng.{Rng}
use pokeage.Stats.{create_monster_instance}
use pokeage.Encounter.{EncounterBuffs, generate_wild_monster}
use pokeage.Encounter.Levels.{IsWild, generate_wild_monster-IsWild}
use pokeage.Engine.State.{World, Engine, EngineOptions, TickResult}
use pokeage.Engine.Tick.{tick}
use pokeage.Engine.Step.{Progress}
use pokeage.Engine.Total.{tick_total}
use pokeage.Offline.{OfflineSummary, run_offline_catchup}
use pokeage.Offline.Report.{format_offline_summary}
use pokeage.Offline.Catchup.{run_offline_catchup_total}
use pokeage.Tests.{embercub, newcomer, rng}

abbrev route : Route Fixed
route = record {
  id = "r1";
  name = "Trail";
  level_lo = 2;
  level_hi = 4;
  wild_pool = 1 ∷ [];
  rare_pool = [];
  encounter_rate = fixed 4294967296;
}

abbrev gym : Gym
gym = record {
  leader = "Ash";
  type = fire;
  badge = "Ember";
  team = record { monster_id = 1; level = 5 } ∷ [];
  order = 1;
}

abbrev town : Town
town = record {
  id = "town";
  name = "Town";
  desc = none;
  gym = some gym;
  routes = "r1" ∷ [];
  next_town = some "city";
  required_badge = none;
  center = none;
}

abbrev city : Town
city = record town {
  id = "city";
  name = "City";
  gym = none;
  next_town = none;
  required_badge = some "Ember";
}

abbrev world : World Fixed
world = record { towns = town ∷ city ∷ []; routes = route ∷ [] }

abbrev lookup : ℕ → Option MonsterTemplate
lookup id = if id == 1 then some embercub else none

abbrev options : EngineOptions Fixed
options = record { buffs = record { rare = none; legend = none }; xp_buff = none }

abbrev agent : Engine Fixed
agent = record { state = AgentState.idle; gym_cooldown = 0; trainer = newcomer; rng = rng }

tick_total_example :
    (result : TickResult Fixed) × (e' : Engine Fixed) × (tick world lookup options agent
      ≡ some (result, e'))
    × Progress result.action newcomer e'.trainer
tick_total_example = tick_total world lookup options agent

run_offline_catchup_total_example :
    (summary : OfflineSummary) × (e' : Engine Fixed) × (run_offline_catchup world lookup options
        agent
        (pos 60_000)
      ≡ some (summary, e'))
    × (summary.ticks ≤ 5760)
    × (summary.ticks * 15_000 ≤ summary.duration_ms)
    × (battles : ℕ) × (caught : ℕ) × (badges : ℕ) × (summary.battles ≡ pos battles)
    × (summary.caught ≡ pos caught)
    × (summary.badges ≡ pos badges)
    × (caught ≤ battles)
    × (battles ≤ summary.ticks)
    × (badges ≤ summary.ticks)
run_offline_catchup_total_example =
    run_offline_catchup_total world lookup options agent (pos 60_000)

abbrev wild : MonsterInstance Fixed
wild = record (create_monster_instance Fixed embercub 2) { rarity = some Rarity.common }

generate_wild_monster-IsWild_example : IsWild route lookup wild
unfolding generate_wild_monster pokeage.Encounter.roll_species pokeage.Rng.pick
    pokeage.Rng.next_word pokeage.Rng.mix pokeage.Rng.new_rng pokeage.Encounter.roll_level
    pokeage.Rng.int create_monster_instance pokeage.Stats.stage_for_level
    pokeage.Stats.stats_at_level pokeage.Stats.interp_stat pokeage.Stats.growth_at
    pokeage.Stats.target_stats_for
generate_wild_monster-IsWild_example =
    generate_wild_monster-IsWild route lookup options.buffs rng wild refl

abbrev summary : OfflineSummary
summary = record {
  ticks = 5760;
  duration_ms = 86_400_000;
  capped = true;
  battles = pos 12;
  caught = pos 0;
  levels = pos 3;
  badges = negsuc 0;
}

-- The report's wording on a capped day.
report_of_a_day : format_offline_summary summary ≡ "away 24h 0m (capped): 12 battles, +3 levels"
unfolding format_offline_summary pokeage.Prelude.Decimal.decimal
report_of_a_day = refl
