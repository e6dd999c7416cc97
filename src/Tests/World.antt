-- ===== src/Tests/World.antt =====
-- Tests: the shipped world and roster, new trainers and saves.
use pokeage.Prelude.{
  ℕ, ◌-◌, ◌≤◌, ◌≡◌, ◌↔◌, refl, arith, true, false, Option, none, some, List, [], ◌∷◌, String, Memᴰ,
  map, take, length,
}
use pokeage.Num.{ratio}
use pokeage.Num.Fixed.{Fixed, fixed_num, Fixed-IsNum}
use pokeage.Types.{
  MonsterTemplate, MonsterInstance, Route, Gym, Trainer, AgentState, Rarity, RarityTier, grass,
  normal,
}
use pokeage.Rng.{Rng, snapshot, restore}
use pokeage.Stats.{create_monster_instance, stats_at_level}
use pokeage.Battle.{GymResult, simulate_gym}
use pokeage.Battle.Wins.{beaten_monster, sent_monster}
use pokeage.Encounter.{generate_wild_monster}
use pokeage.Encounter.Levels.{IsWild}
use pokeage.Engine.State.{same, Engine, EngineOptions, new_engine}
use pokeage.Engine.Challenge.{do_gym_challenge}
use pokeage.Engine.Health.{Everybody}
use pokeage.Engine.Admit.{IsAdmitted}
use pokeage.Engine.Admit.Runs.{run_ticks-IsAdmitted}
use pokeage.Engine.Specimen.{IsSpecimen, run_ticks-IsSpecimen}
use pokeage.Offline.{run_ticks}
use pokeage.Data.Species.{stats, species}
use pokeage.Data.Monsters.{create_registry, sample_monsters, sample_registry}
use pokeage.Data.Monsters.Lookup.{get_monster_by_id_iff}
use pokeage.Data.Monsters.Final.{sample, final_form, sample_final}
use pokeage.Data.World.{shipped_world}
use pokeage.Data.World.Lowlands.{seedling}
use pokeage.Data.World.Highlands.{emberpeak}
use pokeage.Data.World.Wilds.{shipped-IsWild, shipped_gym_wins}
use pokeage.Data.World.Voyage.{shipped_journey}
use pokeage.Data.World.Ladder.{InOrder, shipped_badges}
use pokeage.Save.{
  no_strategy, SavedGame, loaded, load_trainer, serialize_trainer, deserialize_trainer,
}
use pokeage.Save.Load.{without_moves, deserialize_trainer-serialize_trainer, load_trainer_again}
use pokeage.Save.Resume.{run_ticks-resume}
use pokeage.Factory.{NewTrainerOptions, new_trainer}
use pokeage.Factory.Start.{IsSound, sample_registered, new_trainer_runs}
use pokeage.Tests.{embercub, embercat, newcomer, veteran, rng, monster}

abbrev options : EngineOptions Fixed
options = record { buffs = record { rare = none; legend = none }; xp_buff = none }

abbrev starter : NewTrainerOptions
starter = record { starter_id = some 4; starter_level = none; balls = none; location = none }

new_trainer_runs_example :
    (e' : Engine Fixed) × (run_ticks
        (shipped_world Fixed)
        sample
        options
        3
        (new_engine (new_trainer Fixed "p1" "ASH" sample_registry starter) (some rng))
      ≡ some e')
    × IsSound e'.trainer
new_trainer_runs_example =
    new_trainer_runs (shipped_world Fixed) options "p1" "ASH" starter (some rng) 3

abbrev badges : List String
badges =
    "NORMAL" ∷ "INSECT" ∷ "BOULDER" ∷ "STREAM" ∷ "BOLT" ∷ "BLOOM" ∷ "MURK" ∷ "GHOST" ∷ "SAGE"
    ∷ "EMBER" ∷ "STEEL" ∷ []

abbrev traveller : Engine Fixed
traveller = record {
  state = AgentState.idle;
  gym_cooldown = 0;
  trainer = record newcomer { location = "emberpeak"; badges = badges };
  rng = rng;
}

shipped_journey_example :
    (k : ℕ) × (k ≤ 12 - 9)
    × (e' : Engine Fixed) × (run_ticks (shipped_world Fixed) sample options k traveller ≡ some e')
    × (e'.trainer.location ≡ "dracospire")
shipped_journey_example =
    shipped_journey Fixed-IsNum sample options badges 9 emberpeak traveller
      (refl, (refl, (refl, (refl, (refl, (refl, (refl, (refl, (refl, (refl, (refl, tt)))))))))))
      refl refl (record { can_stand = refl; moves = refl; holds = refl })

run_ticks-IsAdmitted_example :
    (e' : Engine Fixed) × (run_ticks (shipped_world Fixed) sample options 3 traveller ≡ some e')
    × IsAdmitted (shipped_world Fixed) e'.trainer
run_ticks-IsAdmitted_example =
    run_ticks-IsAdmitted (shipped_world Fixed) sample options 3 traveller
      (record { town = emberpeak; here = refl; admitted = refl })

abbrev sprigthorn : MonsterTemplate
sprigthorn =
    record (species 1 "Sprigthorn" grass "sprigthorn" (stats 45 49 49 45) Rarity.common
      RarityTier.uncommon) {
        stage1 = some (stats 60 62 63 60);
        stage2 = some (stats 80 82 83 80);
        ev1 = some 16;
        ev2 = some 32;
        evo_stage_assets = some ("sprigthorn" ∷ "thornmaw" ∷ "verdrake" ∷ []);
        full_line = some (1 ∷ 2 ∷ 3 ∷ []);
      }

abbrev grower : Engine Fixed
grower = record traveller {
  trainer = record newcomer {
    location = "seedling";
    team = create_monster_instance Fixed sprigthorn 7 ∷ [];
  };
}

run_ticks-IsSpecimen_example :
    (e' : Engine Fixed) × (run_ticks (shipped_world Fixed) sample options 2 grower ≡ some e')
    × Everybody (IsSpecimen sample) e'.trainer
unfolding create_monster_instance sample_registry
run_ticks-IsSpecimen_example =
    run_ticks-IsSpecimen (shipped_world Fixed) sample options sample_registered 2 grower (record {
      team = (
        (sprigthorn, record { known = refl; stats = refl; type = refl; ev1 = refl; ev2 = refl }),
        tt,
      );
      box = tt;
    })

abbrev route_1 : Route Fixed
route_1 = record {
  id = "route-1";
  name = "ROUTE 1";
  level_lo = 2;
  level_hi = 5;
  wild_pool = 28 ∷ 29 ∷ 30 ∷ 22 ∷ 16 ∷ 10 ∷ [];
  rare_pool = [];
  encounter_rate = ratio 15 100;
}

shipped-IsWild_example :
    (wild : MonsterInstance Fixed) × ((generate_wild_monster route_1 sample options.buffs rng).0
      ≡ some wild)
    × IsWild route_1 sample wild
shipped-IsWild_example = shipped-IsWild route_1 options.buffs rng (Memᴰ.head refl)

abbrev molly : Gym
molly = record {
  leader = "MOLLY";
  type = normal;
  badge = "NORMAL";
  team =
      record { monster_id = 28; level = 5 }
      ∷ record { monster_id = 22; level = 6 }
      ∷ record { monster_id = 24; level = 7 }
      ∷ [];
  order = 0;
}

shipped_gym_wins_example :
    (result : GymResult Fixed) × (rng' : Rng) × (simulate_gym veteran.team molly.team sample rng
      ≡ some (result, rng'))
    × (map beaten_monster result.results
        ≡ map (sent_monster sample) (take result.gym_defeated molly.team))
    × (length result.results ≡ result.gym_defeated)
    × (result.won ≡ true ↔ length result.results ≡ length molly.team)
shipped_gym_wins_example = shipped_gym_wins veteran.team rng seedling molly (Memᴰ.head refl) refl

sample_final_example :
    (final : MonsterTemplate) × (final_form sprigthorn ≡ some final)
    × (stats_at_level Fixed sprigthorn 1 ≡ sprigthorn.base)
    × (stats_at_level Fixed sprigthorn 60 ≡ final.base)
    × (sprigthorn.type ≡ final.type)
unfolding sample_monsters
sample_final_example =
    sample_final Fixed-IsNum sprigthorn 60 (Memᴰ.head refl) (omega arith) (omega arith)

get_monster_by_id_iff_example :
    ((create_registry (embercub ∷ embercat ∷ [])).get_monster_by_id 2 ≡ some embercat)
    ↔ (Memᴰ embercat (embercub ∷ embercat ∷ []) × (embercat.id ≡ 2))
get_monster_by_id_iff_example = get_monster_by_id_iff (embercub ∷ embercat ∷ []) 2 embercat refl

abbrev write : SavedGame Fixed → SavedGame Fixed
write s = s

abbrev read : SavedGame Fixed → Option (Option (SavedGame Fixed))
read s = some (some s)

deserialize_trainer-serialize_trainer_example :
    deserialize_trainer read (serialize_trainer write veteran (some 7))
    ≡ loaded (record veteran {
      team = map without_moves veteran.team;
      box = map without_moves veteran.box;
    })
deserialize_trainer-serialize_trainer_example =
    deserialize_trainer-serialize_trainer write read veteran (some 7) refl refl

-- A save of the first version, with as little in it as a load takes.
abbrev bare_save : SavedGame Fixed
bare_save = record {
  version = some 1;
  rng_state = none;
  trainer = some (record {
    id = "t";
    name = "Trainer";
    team = none;
    box = none;
    badges = none;
    location = some "";
    ball = none;
    total_battles = none;
    total_caught = none;
    strategy = none;
  });
}

abbrev beginner : Trainer Fixed
beginner = record {
  id = "t";
  name = "Trainer";
  team = [];
  box = [];
  badges = [];
  location = "seedling";
  ball = 0;
  total_battles = 0;
  total_caught = 0;
  strategy = no_strategy;
}

load_trainer_again_example :
    (same beginner.location "" ≡ false)
    × (deserialize_trainer read (serialize_trainer write beginner (some 3)) ≡ loaded beginner)
unfolding load_trainer
load_trainer_again_example =
    load_trainer_again write read (some bare_save) beginner (some 3) refl refl

run_ticks-resume_example :
    (e' : Engine Fixed) × (run_ticks (shipped_world Fixed) sample options 5 traveller ≡ some e')
    × (t : Trainer Fixed) × (deserialize_trainer read
          (serialize_trainer write e'.trainer (some (snapshot e'.rng)))
        ≡ loaded t)
    × (new_engine t (some (restore (snapshot e'.rng)))
        ≡ (record e' { state = AgentState.idle; gym_cooldown = 0 }))
unfolding pokeage.Rng.new_rng
run_ticks-resume_example =
    run_ticks-resume write read (λ s. refl) (shipped_world Fixed) sample options 5 traveller
      (record { team = (refl, tt); box = tt })
      (record { town = emberpeak; here = refl; admitted = refl }) (omega arith) refl

abbrev loser : Engine Fixed
loser = record traveller {
  gym_cooldown = 5;
  trainer = record newcomer { location = "seedling"; team = monster 1 9 ∷ [] };
}

-- A challenger too weak for the first gym.
abbrev challenger : Engine Fixed
challenger = record loser {
  gym_cooldown = 0;
  trainer = record loser.trainer { team = record (monster 1 9) { current_hp = 1 } ∷ [] };
}

abbrev beaten : Engine Fixed
beaten = elim (do_gym_challenge sample options molly challenger) [
  | none ↦ challenger
  | some (won, e') ↦ e'
]

shipped_badges_example :
    (e' : Engine Fixed) × (run_ticks (shipped_world Fixed) sample options 20 loser ≡ some e')
    × InOrder e'.trainer.badges
shipped_badges_example = shipped_badges sample options 20 loser (0, omega arith, refl)
