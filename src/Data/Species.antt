-- ===== src/Data/Species.antt =====
-- src/data/monsters.ts: the shape of an entry of the roster.
use pokeage.Prelude.{ℕ, none, some, String}
use pokeage.Types.{Stats, MonsterTemplate, MonsterType, Rarity, RarityTier}

abbrev pub stats : ℕ → ℕ → ℕ → ℕ → Stats
stats hp atk def spd = record { hp = hp; atk = atk; def = def; spd = spd }

-- An entry that has one stage. Those of the other species set the further fields.
abbrev pub species :
    ℕ → String → MonsterType → String → Stats → Rarity → RarityTier → MonsterTemplate
species id name type asset base rarity tier = record {
  id = id;
  name = name;
  korean = none;
  type = type;
  asset = asset;
  base = base;
  stage1 = none;
  stage2 = none;
  ev1 = none;
  ev2 = none;
  evo_stage_assets = none;
  full_line = none;
  rarity = some rarity;
  rarity_tier = some tier;
}
