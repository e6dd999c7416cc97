-- ===== src/Tests/Teams.antt =====
-- Tests: opponents, reports on teams, and batches of runs.
use mathlib.Core.List.{Perm}
use pokeage.Prelude.{
  ℕ, ◌≤◌, ◌<◌, ◌≡◌, ◌↔◌, true, none, some, [], ◌∷◌, Memᴰ, length, map, All, ltb, List,
}
use pokeage.Num.Fixed.{Fixed, fixed_num}
use pokeage.Types.{water}
use pokeage.Engine.State.{Engine}
use pokeage.Data.Monsters.{Registry, create_registry}
use pokeage.Data.Monsters.Final.{sample}
use pokeage.Data.World.{shipped_world}
use pokeage.Trainers.{OpponentOptions, build_team, opponents_from, generate_opponents}
use pokeage.Trainers.Teams.{IsRival, distinct_ids, build_team_lem}
use pokeage.Trainers.Field.{Descending, numbered, generate_opponents_lem}
use pokeage.Analytics.{shared_weaknesses}
use pokeage.Analytics.Coverage.{AllWeak, shared_weaknesses_iff}
use pokeage.Balance.{BatchReport, Run, run_batch}
use pokeage.Balance.Tally.{Ends, sum_of, count_of, levels, hundredths, run_batch_total}
use pokeage.Rng.{new_rng}
use pokeage.Types.{AgentState}
use pokeage.Tests.{embercub, embercat, newcomer, veteran, rng}

abbrev two_species : Registry
two_species = create_registry (embercub ∷ embercat ∷ [])

abbrev three : OpponentOptions
three = record { team_size = some 3; level_spread = none; exclude_legendary = none }

build_team_lem_example :
    (length (build_team Fixed two_species 10 three rng).0 ≤ 3)
    × (distinct_ids (map (λ m. m.template_id) (build_team Fixed two_species 10 three rng).0) ≡ true)
    × All (IsRival two_species true 10 2) (build_team Fixed two_species 10 three rng).0
build_team_lem_example = build_team_lem Fixed two_species 10 three rng

generate_opponents_lem_example :
    Descending (generate_opponents Fixed 4 10 two_species rng three).0
    × Perm
        (generate_opponents Fixed 4 10 two_species rng three).0
        (opponents_from Fixed 0 4 10 two_species rng three).0
    × (length (opponents_from Fixed 0 4 10 two_species rng three).0 ≡ 4)
    × (map (λ t. t.id) (opponents_from Fixed 0 4 10 two_species rng three).0 ≡ numbered 0 4)
generate_opponents_lem_example = generate_opponents_lem Fixed 4 10 two_species rng three

shared_weaknesses_iff_example :
    Memᴰ water (shared_weaknesses veteran.team)
    ↔ ((0 < length veteran.team) × AllWeak water veteran.team)
shared_weaknesses_iff_example = shared_weaknesses_iff veteran.team water

abbrev seeded : ℕ → Run Fixed
seeded seed = record {
  world = shipped_world Fixed;
  get_template = sample;
  opts = record { buffs = record { rare = none; legend = none }; xp_buff = none };
  engine = record {
    state = AgentState.idle;
    gym_cooldown = 0;
    trainer = record newcomer { location = "seedling" };
    rng = new_rng seed;
  };
}

abbrev seeds : List ℕ
seeds = 1 ∷ 2 ∷ 3 ∷ []

run_batch_total_example :
    (final : ℕ → Engine Fixed) × Ends seeded 20 final
    × (r : BatchReport Fixed) × (run_batch seeded seeds 20 ≡ some r)
    × (r.runs ≡ 3)
    × (r.ticks ≡ 20)
    × (r.avg_badges ≡ hundredths (sum_of (λ k. length (final k).trainer.badges) seeds) seeds)
    × (r.avg_caught ≡ hundredths (sum_of (λ k. (final k).trainer.total_caught) seeds) seeds)
    × (r.avg_battles ≡ hundredths (sum_of (λ k. (final k).trainer.total_battles) seeds) seeds)
    × (r.avg_team_level ≡ hundredths (sum_of (λ k. levels (final k).trainer.team) seeds) seeds)
    × (r.full_clear_rate
        ≡ hundredths (count_of (λ k. ltb 11 (length (final k).trainer.badges)) seeds) seeds)
run_batch_total_example = run_batch_total seeded 20 seeds
