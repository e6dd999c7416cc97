-- ===== src/Factory.antt =====
-- src/factory.ts: new trainers, and monsters that are given to one.
pub mod Start
use pokeage.Prelude.{ℕ, ◌∷◌, ◌++◌, Option, none, some, List, [], String, length, ltb, if◌then◌else◌}
use pokeage.Num.{Num}
use pokeage.Types.{MonsterTemplate, MonsterInstance, Trainer}
use pokeage.Stats.{create_monster_instance}
use pokeage.Data.Monsters.{Registry}
use pokeage.Save.{or_else, no_strategy}

pub record NewTrainerOptions : Type 0 where
  pub starter_id : Option ℕ
  pub starter_level : Option ℕ
  pub balls : Option ℕ
  pub location : Option String

module _ (F : Type 0) ⦃n : Num F⦄ where
  abbrev starter_team : Option MonsterTemplate → ℕ → List (MonsterInstance F)
  starter_team none level = []
  starter_team (some tpl) level = create_monster_instance F tpl level ∷ []

  unfoldable pub new_trainer : String → String → Registry → NewTrainerOptions → Trainer F
  new_trainer id name registry opts = record {
    id = id;
    name = name;
    team =
        starter_team (registry.get_monster_by_id (or_else 1 opts.starter_id))
          (or_else 5 opts.starter_level);
    box = [];
    badges = [];
    location = or_else "seedling" opts.location;
    ball = or_else 10 opts.balls;
    total_battles = 0;
    total_caught = 0;
    strategy = no_strategy;
  }

unfoldable pub give_monster : {F : Type 0} → Trainer F → MonsterInstance F → Trainer F
give_monster trainer mon =
    if ltb (length trainer.team) 4
    then record trainer { team = trainer.team ++ (mon ∷ []) }
    else record trainer { box = trainer.box ++ (mon ∷ []) }
