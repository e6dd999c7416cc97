-- ===== src/Tests.antt =====
-- Tests: concrete monsters and trainers, and the theorems at work on them.
pub mod Game
pub mod Party
pub mod Program
pub mod Agent
pub mod World
pub mod Teams
pub mod Client
use pokeage.Prelude.{ℕ, ◌+◌, ◌*◌, ◌^◌, none, some, List, [], ◌∷◌, length}
use pokeage.Num.Fixed.{Fixed, fixed}
use pokeage.Types.{
  MonsterType, fire, grass, water, ghost, normal, common, rare, Stats, MonsterTemplate,
  MonsterInstance, Trainer, GymEntry,
}
use pokeage.Rng.{Rng, new_rng}

abbrev pub stats_of : ℕ → Stats
stats_of k = record { hp = k; atk = k; def = k; spd = k }

-- The roster entry of a line that evolves at 16 and 36.
abbrev pub embercub : MonsterTemplate
embercub = record {
  id = 1;
  name = "Embercub";
  korean = none;
  type = fire;
  asset = "embercub";
  base = stats_of 40;
  stage1 = some (stats_of 60);
  stage2 = some (stats_of 80);
  ev1 = some 16;
  ev2 = some 36;
  evo_stage_assets = none;
  full_line = none;
  rarity = some common;
  rarity_tier = none;
}

-- A middle species, as the sample roster has them: a second evolution and no first one.
abbrev pub embercat : MonsterTemplate
embercat = record embercub { id = 2; name = "Embercat"; ev1 = none; ev2 = some 36 }

abbrev pub monster : ℕ → ℕ → MonsterInstance Fixed
monster id level = record {
  template_id = id;
  name = "Embercub";
  type = fire;
  asset = "embercub";
  level = level;
  xp = 0;
  stage = 0;
  stats = stats_of (20 + level);
  current_hp = 20 + level;
  target_stats = stats_of 80;
  ev1 = some 16;
  ev2 = some 36;
  rarity = some common;
  rarity_tier = none;
  affection = fixed 0;
  moves = none;
}

abbrev pub trainer_of : List (MonsterInstance Fixed) → List (MonsterInstance Fixed) → Trainer Fixed
trainer_of team box = record {
  id = "t";
  name = "Trainer";
  team = team;
  box = box;
  badges = [];
  location = "town";
  ball = 3;
  total_battles = 0;
  total_caught = 0;
  strategy = record {
    auto_heal = none;
    auto_gym = none;
    auto_move = none;
    catch_enabled = none;
    prioritize_rare = none;
    catch_types = λ _. none;
  };
}

abbrev pub newcomer : Trainer Fixed
newcomer = trainer_of (monster 1 5 ∷ []) []

abbrev pub veteran : Trainer Fixed
veteran =
    trainer_of (monster 1 9 ∷ monster 3 8 ∷ monster 4 7 ∷ monster 5 6 ∷ [])
      (monster 6 9 ∷ monster 7 8 ∷ monster 8 4 ∷ monster 9 6 ∷ monster 10 9 ∷ monster 11 9 ∷ [])

abbrev pub rng : Rng
rng = new_rng 1
