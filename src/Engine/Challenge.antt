-- ===== src/Engine/Challenge.antt =====
-- src/engine.ts: `shouldChallengeGym` and `doGymChallenge`.
use pokeage.Prelude.{
  ℕ, ◌+◌, ◌-◌, max, Bool, true, false, not, Option, none, some, List, [], ◌∷◌, ◌++◌, String, map,
  take, keep_if, any, leb, ltb, if◌then◌else◌,
}
use pokeage.Num.{Num}
use pokeage.Types.{MonsterTemplate, MonsterInstance, Gym, GymEntry, Town, AgentState}
use pokeage.Rng.{Rng}
use pokeage.Battle.{GymResult, simulate_gym}
use pokeage.Engine.State.{same, has_badge, World, EngineOptions, Engine, is_up, write_back}
use pokeage.Engine.Rewards.{reward_member}

-- The order of a town's gym. The towns that are compared all have one.
abbrev pub gym_order : Town → ℕ
gym_order t = elim t.gym [ none ↦ 0 | some g ↦ g.order ]

abbrev pub has_gym : Town → Bool
has_gym t = elim t.gym [ none ↦ false | some g ↦ true ]

-- The stable sort of `gymTowns` by order.
abbrev pub insert_town : Town → List Town → List Town
insert_town t [] = t ∷ []
insert_town t (u ∷ us) =
    let rest = insert_town t us in if leb (gym_order t) (gym_order u) then t ∷ u ∷ us else u ∷ rest

abbrev pub sort_towns : List Town → List Town
sort_towns [] = []
sort_towns (t ∷ ts) = insert_town t (sort_towns ts)

-- The town before the first one with this id, if there is one.
abbrev pub town_before : String → List Town → Option Town
town_before id [] = none
town_before id (t ∷ []) = none
town_before id (t ∷ u ∷ us) =
    let rest = town_before id (u ∷ us) in
    if same t.id id then none else if same u.id id then some t else rest

abbrev pub max_level_of : List GymEntry → ℕ
max_level_of [] = 0
max_level_of (e ∷ es) = max e.level (max_level_of es)

-- The level of `team[0]`, for a team that has a member.
abbrev pub lead_level : {F : Type 0} → List (MonsterInstance F) → ℕ
lead_level [] = 0
lead_level (m ∷ ms) = m.level

module _ {F : Type 0} (world : World F) where
  abbrev pub gym_towns : List Town
  gym_towns = sort_towns (keep_if has_gym world.towns)

  -- The badge of the gym before this town's is missing.
  abbrev pub gym_locked : Town → List String → Bool
  gym_locked town badges = elim (town_before town.id gym_towns) [
    | none ↦ false
    | some prev ↦ elim prev.gym [ none ↦ false | some g ↦ not (has_badge g.badge badges) ]
  ]

  unfoldable pub should_challenge_gym : Town → Engine F → Bool × Engine F
  should_challenge_gym town e = elim town.gym [
    | none ↦ (false, e)
    | some gym ↦
        if has_badge gym.badge e.trainer.badges
        then (false, e)
        else if ltb 0 e.gym_cooldown
        then (false, record e { gym_cooldown = e.gym_cooldown - 1 })
        else if gym_locked town e.trainer.badges
        then (false, e)
        else if not (any is_up e.trainer.team)
        then (false, e)
        else (leb (max_level_of gym.team) (lead_level e.trainer.team), e)
  ]

module _ {F : Type 0} ⦃n : Num F⦄ (get_template : ℕ → Option MonsterTemplate)
    (opts : EngineOptions F) where
  -- The members of the party take the battle's hit points, and after a win the experience.
  abbrev pub after_win : Gym → GymResult F → Rng → Engine F → Engine F
  after_win gym result rng e =
      let t = e.trainer in
      record {
        state = AgentState.gym;
        gym_cooldown = e.gym_cooldown;
        trainer = record t {
          team = write_back t.team (map (reward_member get_template opts gym) result.party);
          badges = t.badges ++ (gym.badge ∷ []);
          ball = t.ball + 3;
        };
        rng = rng;
      }

  abbrev pub after_loss : GymResult F → Rng → Engine F → Engine F
  after_loss result rng e =
      let t = e.trainer in
      record {
        state = AgentState.gym;
        gym_cooldown = 5;
        trainer = record t { team = write_back t.team result.party };
        rng = rng;
      }

  unfoldable pub do_gym_challenge : Gym → Engine F → Option (Bool × Engine F)
  do_gym_challenge gym e =
      let party = take 4 (keep_if is_up e.trainer.team) in
      elim (simulate_gym party gym.team get_template e.rng) [
        | none ↦ none
        | some (result, rng) ↦ some (
            if result.won
            then (true, after_win gym result rng e)
            else (false, after_loss result rng e))
      ]
