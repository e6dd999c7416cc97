-- ===== src/Types.antt =====
-- The shared types of src/types.ts. Whole numbers are ℕ; `F` is the type of the doubles with a
-- fraction (`Num`). A field that may be missing, null or undefined is an `Option`. `heightM`, which
-- no code reads, is left out.
use pokeage.Prelude.{ℕ, Bool, Option, List, String}

pub data MonsterType : Type 0 where
  normal fire water grass electric ice fighting poison ground_type flying psychic bug rock ghost
        dragon dark steel :
      MonsterType

pub data Rarity : Type 0 where
  common rare legendary : Rarity

pub data RarityTier : Type 0 where
  common uncommon rare holo ultra secret : RarityTier

pub record Stats : Type 0 where
  pub hp : ℕ
  pub atk : ℕ
  pub def : ℕ
  pub spd : ℕ

pub record MonsterTemplate : Type 0 where
  pub id : ℕ
  pub name : String
  pub korean : Option String
  pub type : MonsterType
  pub asset : String
  pub base : Stats
  pub stage1 : Option Stats
  pub stage2 : Option Stats
  pub ev1 : Option ℕ
  pub ev2 : Option ℕ
  pub evo_stage_assets : Option (List String)
  pub full_line : Option (List ℕ)
  pub rarity : Option Rarity
  pub rarity_tier : Option RarityTier

pub record Move : Type 0 where
  pub id : ℕ
  pub name : String
  pub type : MonsterType
  pub power : ℕ
  pub acc : ℕ
  pub pp : ℕ
  pub status : Option String
  pub eff_chance : ℕ
  pub crit : Bool
  pub multi : Bool

pub record MonsterInstance (F : Type 0) : Type 0 where
  pub template_id : ℕ
  pub name : String
  pub type : MonsterType
  pub asset : String
  pub level : ℕ
  pub xp : ℕ
  pub stage : ℕ
  pub stats : Stats
  pub current_hp : ℕ
  pub target_stats : Stats
  pub ev1 : Option ℕ
  pub ev2 : Option ℕ
  pub rarity : Option Rarity
  pub rarity_tier : Option RarityTier
  pub affection : F
  pub moves : Option (List Move)

pub record GymEntry : Type 0 where
  pub monster_id : ℕ
  pub level : ℕ

pub record Gym : Type 0 where
  pub leader : String
  pub type : MonsterType
  pub badge : String
  pub team : List GymEntry
  pub order : ℕ

pub record Town : Type 0 where
  pub id : String
  pub name : String
  pub desc : Option String
  pub gym : Option Gym
  pub routes : List String
  pub next_town : Option String
  pub required_badge : Option String
  pub center : Option Bool

-- `level_lo` and `level_hi` are the two entries of `levelRange`.
pub record Route (F : Type 0) : Type 0 where
  pub id : String
  pub name : String
  pub level_lo : ℕ
  pub level_hi : ℕ
  pub wild_pool : List ℕ
  pub rare_pool : List ℕ
  pub encounter_rate : F

-- The flags default to "on": `none` is a flag that is not set. `catch_types` maps a type to its
-- entry in `catchTypes`, and is `none` everywhere for a strategy without the table.
pub record Strategy : Type 0 where
  pub auto_heal : Option Bool
  pub auto_gym : Option Bool
  pub auto_move : Option Bool
  pub catch_enabled : Option Bool
  pub prioritize_rare : Option Bool
  pub catch_types : MonsterType → Option Bool

-- Of the items only the ball count is read by the engine.
pub record Trainer (F : Type 0) : Type 0 where
  pub id : String
  pub name : String
  pub team : List (MonsterInstance F)
  pub box : List (MonsterInstance F)
  pub badges : List String
  pub location : String
  pub ball : ℕ
  pub total_battles : ℕ
  pub total_caught : ℕ
  pub strategy : Strategy

pub data AgentState : Type 0 where
  idle hunting battling gym moving healing : AgentState

-- `evolve` and `levelup` are declared by the source too, and the engine does not use them.
pub data Action : Type 0 where
  hunt gym move heal idle caught evolve levelup : Action
