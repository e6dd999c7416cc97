-- ===== src/Analytics.antt =====
-- src/analytics.ts: the report on a team.
pub mod Coverage
use pokeage.Prelude.{
  ℕ, ◌+◌, Bool, List, [], ◌∷◌, length, foldl, keep_if, any, all, leb, ◌==◌, if◌then◌else◌,
}
use pokeage.Num.{Num}
use pokeage.Types.{
  MonsterType, normal, fire, water, grass, electric, ice, fighting, poison, ground_type, flying,
  psychic, bug, rock, ghost, dragon, dark, steel, MonsterInstance, Trainer,
}
use pokeage.Typechart.{get_type_multiplier}
use pokeage.Power.{get_monster_power}
use pokeage.Offline.{team_levels}

abbrev pub all_types : List MonsterType
all_types =
    normal ∷ fire ∷ water ∷ grass ∷ electric ∷ ice ∷ fighting ∷ poison ∷ ground_type ∷ flying
    ∷ psychic ∷ bug ∷ rock ∷ ghost ∷ dragon ∷ dark ∷ steel ∷ []

pub record TeamReport : Type 0 where
  pub size : ℕ
  pub average_level : ℕ
  pub total_power : ℕ
  pub offensive_coverage : List MonsterType
  pub shared_weaknesses : List MonsterType

module _ {F : Type 0} where
  abbrev pub hits_some : List (MonsterInstance F) → MonsterType → Bool
  hits_some team def = any (λ m. leb 4 (get_type_multiplier m.type def)) team

  abbrev pub hits_all : List (MonsterInstance F) → MonsterType → Bool
  hits_all team atk = all (λ m. leb 4 (get_type_multiplier atk m.type)) team

  -- The set keeps the order of insertion, and no type is inserted twice.
  unfoldable pub offensive_coverage : List (MonsterInstance F) → List MonsterType
  offensive_coverage team = keep_if (hits_some team) all_types

  unfoldable pub shared_weaknesses : List (MonsterInstance F) → List MonsterType
  shared_weaknesses team = if length team == 0 then [] else keep_if (hits_all team) all_types

module _ {F : Type 0} ⦃n : Num F⦄ where
  unfoldable pub analyze_team : List (MonsterInstance F) → TeamReport
  unfolding offensive_coverage shared_weaknesses
  analyze_team team =
      let size = length team in
      record {
        size = size;
        average_level =
            if size == 0
            then 0
            else n.round (n.div (n.of_ℕ (foldl (λ s m. s + m.level) 0 team)) (n.of_ℕ size));
        total_power = foldl (λ s m. s + get_monster_power m) 0 team;
        offensive_coverage = offensive_coverage team;
        shared_weaknesses = shared_weaknesses team;
      }

  unfoldable pub analyze_trainer : Trainer F → TeamReport
  unfolding analyze_team
  analyze_trainer trainer = analyze_team trainer.team
