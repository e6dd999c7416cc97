-- ===== src/Save.antt =====
-- src/save.ts: save and load. A saved value has the fields of the value, where those that a load fills
-- in, or tests, may be missing; the fields that it copies as they are, a monster's stats among them, are
-- there. The JSON text is a type `J` with the two functions of the `JSON` object.
pub mod Load
pub mod Resume
use pokeage.Prelude.{ℕ, Option, none, some, List, [], String, map, ◌==◌, if◌then◌else◌}
use pokeage.Num.{Num}
use pokeage.Types.{MonsterType, Stats, Rarity, RarityTier, Move, MonsterInstance, Strategy, Trainer}
use pokeage.Engine.State.{given}

abbrev pub save_version : ℕ
save_version = 1

pub record SavedMonster (F : Type 0) : Type 0 where
  pub template_id : ℕ
  pub name : String
  pub type : MonsterType
  pub asset : String
  pub level : ℕ
  pub xp : Option ℕ
  pub stage : Option ℕ
  pub stats : Stats
  pub current_hp : Option ℕ
  pub target_stats : Stats
  pub ev1 : Option ℕ
  pub ev2 : Option ℕ
  pub rarity : Option Rarity
  pub rarity_tier : Option RarityTier
  pub affection : Option F
  pub moves : Option (List Move)

pub record SavedTrainer (F : Type 0) : Type 0 where
  pub id : String
  pub name : String
  pub team : Option (List (SavedMonster F))
  pub box : Option (List (SavedMonster F))
  pub badges : Option (List String)
  pub location : Option String
  pub ball : Option ℕ
  pub total_battles : Option ℕ
  pub total_caught : Option ℕ
  pub strategy : Option Strategy

pub record SavedGame (F : Type 0) : Type 0 where
  pub version : Option ℕ
  pub trainer : Option (SavedTrainer F)
  pub rng_state : Option ℕ

pub data LoadError : Type 0 where
  invalid_json invalid_save type_error : LoadError
  unsupported_version : Option ℕ → LoadError

pub data Loaded (F : Type 0) : Type 0 where
  loaded : Trainer F → Loaded F
  failed : LoadError → Loaded F

abbrev pub or_else {ℓ} : {A : Type ℓ} → A → Option A → A
or_else d none = d
or_else d (some x) = x

abbrev pub no_strategy : Strategy
no_strategy = record {
  auto_heal = none;
  auto_gym = none;
  auto_move = none;
  catch_enabled = none;
  prioritize_rare = none;
  catch_types = λ t. none;
}

module _ {F : Type 0} where
  unfoldable pub strip_mon : MonsterInstance F → SavedMonster F
  strip_mon m = record {
    template_id = m.template_id;
    name = m.name;
    type = m.type;
    asset = m.asset;
    level = m.level;
    xp = some m.xp;
    stage = some m.stage;
    stats = m.stats;
    current_hp = some m.current_hp;
    target_stats = m.target_stats;
    ev1 = m.ev1;
    ev2 = m.ev2;
    rarity = m.rarity;
    rarity_tier = m.rarity_tier;
    affection = some m.affection;
    moves = none;
  }

  unfoldable pub save_trainer : Trainer F → Option ℕ → SavedGame F
  unfolding strip_mon
  save_trainer trainer rng_state = record {
    version = some save_version;
    rng_state = rng_state;
    trainer = some (record {
      id = trainer.id;
      name = trainer.name;
      team = some (map strip_mon trainer.team);
      box = some (map strip_mon trainer.box);
      badges = some trainer.badges;
      location = some trainer.location;
      ball = some trainer.ball;
      total_battles = some trainer.total_battles;
      total_caught = some trainer.total_caught;
      strategy = some trainer.strategy;
    });
  }

module _ {F : Type 0} ⦃n : Num F⦄ where
  -- `x || 0` keeps every number but a zero, which is one already.
  unfoldable pub normalize_mon : SavedMonster F → MonsterInstance F
  normalize_mon m = record {
    template_id = m.template_id;
    name = m.name;
    type = m.type;
    asset = m.asset;
    level = m.level;
    xp = or_else 0 m.xp;
    stage = or_else 0 m.stage;
    stats = m.stats;
    current_hp = or_else m.stats.hp m.current_hp;
    target_stats = m.target_stats;
    ev1 = m.ev1;
    ev2 = m.ev2;
    rarity = m.rarity;
    rarity_tier = m.rarity_tier;
    affection = or_else (n.of_ℕ 0) m.affection;
    moves = m.moves;
  }

  abbrev pub restored : SavedTrainer F → Trainer F
  restored t = record {
    id = t.id;
    name = t.name;
    team = map normalize_mon (or_else [] t.team);
    box = map normalize_mon (or_else [] t.box);
    badges = or_else [] t.badges;
    location = or_else "seedling" (given t.location);
    ball = or_else 0 t.ball;
    total_battles = or_else 0 t.total_battles;
    total_caught = or_else 0 t.total_caught;
    strategy = or_else no_strategy t.strategy;
  }

  -- `none` is a save that is no object. One without a trainer is a TypeError where the trainer's
  -- fields are read.
  unfoldable pub load_trainer : Option (SavedGame F) → Loaded F
  unfolding normalize_mon
  load_trainer none = failed LoadError.invalid_save
  load_trainer (some save) = elim save.version [
    | none ↦ failed (LoadError.unsupported_version none)
    | some version ↦
        if version == save_version
        then elim save.trainer [
          | none ↦ failed LoadError.type_error
          | some trainer ↦ loaded (restored trainer)
        ]
        else failed (LoadError.unsupported_version (some version))
  ]

-- `JSON.stringify` and `JSON.parse`, which throws (`none`) or gives an object or another value.
module _ {F J : Type 0} where
  unfoldable pub serialize_trainer : (SavedGame F → J) → Trainer F → Option ℕ → J
  unfolding save_trainer
  serialize_trainer stringify trainer rng_state = stringify (save_trainer trainer rng_state)

  unfoldable pub deserialize_trainer :
      ⦃n : Num F⦄ → (J → Option (Option (SavedGame F))) → J → Loaded F
  unfolding load_trainer
  deserialize_trainer parse json = elim (parse json) [
    | none ↦ failed LoadError.invalid_json
    | some save ↦ load_trainer save
  ]
