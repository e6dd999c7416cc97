-- ===== src/Engine/Total.antt =====
-- src/engine.ts: `tick` as a whole.
use pokeage.Prelude.{ℕ, ◌≡◌, refl, sym, subst, arith, Bool, true, false, Option, none, some}
use pokeage.Num.{Num}
use pokeage.Types.{MonsterTemplate, MonsterInstance, Town, Trainer, Action}
use pokeage.Team.Place.{IsRoster}
use pokeage.Engine.State.{Engine, EngineOptions, World, TickResult, has_badge, move_to_town}
use pokeage.Engine.Hunt.{do_wild_encounter-Hunts}
use pokeage.Engine.Roster.{stays, catches, heal_team-Hunts}
use pokeage.Engine.Wild.{do_wild_encounter}
use pokeage.Engine.Tick.{action_of, hunt_tick, tick}
use pokeage.Engine.Turn.{
  after_test, after_test-Passes, wants_gym-open, Turn, nowhere, heals, hunts, moves, challenges,
  tick-Turn,
}
use pokeage.Affection.{add_affection}
use pokeage.Progression.Level.{grant_xp_hp}
use pokeage.Encounter.Levels.{generate_wild_monster-IsWild}
use pokeage.Engine.Health.{Healthy, Healthy-Lasts, IsFit, Everybody, heal_team-Everybody}
use pokeage.Engine.Fit.{Keeps, do_wild_encounter-Everybody}
use pokeage.Engine.Step.{
  catches_of, Progress, Step, Step-Hunts, move_to_town-Step, do_gym_challenge-Step,
}

catches-action_of : (o : Option Bool) → catches o ≡ catches_of (action_of o)
catches-action_of none = refl
catches-action_of (some true) = refl
catches-action_of (some false) = refl

module _ {F : Type 0} where
  -- An outcome of a tick that is there and a step from the trainer.
  abbrev Outcome :
      (MonsterInstance F → Type 0) → Option (TickResult F × Engine F) → Trainer F → Type 0
  Outcome P none t = ⊥
  Outcome P (some (result, e')) t = Step P result.action t e'.trainer

  Outcome-some :
      (P : MonsterInstance F → Type 0) (o : Option (TickResult F × Engine F)) (t : Trainer F)
      → Outcome P o t
      → (result : TickResult F) × (e' : Engine F) × (o ≡ some (result, e'))
        × Step P result.action t e'.trainer
  Outcome-some P none t h = elim h [ ]
  Outcome-some P (some (result, e')) t h = (result, e', refl, h)

module _ {F : Type 0} ⦃n : Num F⦄ (world : World F) (get_template : ℕ → Option MonsterTemplate)
    (opts : EngineOptions F) {P : MonsterInstance F → Type 0} (keeps : Keeps get_template P) where
  hunt_tick-Step :
      (town : Town) (e : Engine F)
      → let (result, e') = hunt_tick world get_template opts town e in
        Step P result.action e.trainer e'.trainer
  unfolding hunt_tick
  hunt_tick-Step town e =
      let enc = (do_wild_encounter get_template opts world town false e).0 in
      Step-Hunts _ (catches enc.caught) _ _ (catches-action_of enc.caught)
        (do_wild_encounter-Hunts get_template opts world town false e)
        (do_wild_encounter-Everybody get_template opts keeps world town false e)

  Turn-Outcome :
      (e : Engine F) {o : Option (TickResult F × Engine F)}
      → Turn world get_template opts e o
      → Outcome P o e.trainer
  unfolding move_to_town
  Turn-Outcome e (nowhere missing) = Step-Hunts _ 0 _ _ refl (stays e.trainer) (λ f. f)
  Turn-Outcome e (heals town here is_tired) =
      Step-Hunts _ 0 _ _ refl (heal_team-Hunts e) (heal_team-Everybody e keeps.lasts)
  Turn-Outcome e (hunts town here fit skips stay) =
      let (result, e') = hunt_tick world get_template opts town (after_test world town e) in
      subst (λ t. Step P result.action t e'.trainer) (after_test-Passes world town e).trainer
        (hunt_tick-Step town (after_test world town e))
  Turn-Outcome e (moves town stop here fit skips go) =
      let e' = after_test world town e in
      subst (λ t. Step P Action.move t (move_to_town stop e').trainer)
        (after_test-Passes world town e).trainer (move_to_town-Step stop e' keeps.lasts)
  Turn-Outcome e (challenges town gym here fit wants has) =
      let same_trainer = (after_test-Passes world town e).trainer in
      let new = (wants_gym-open world town gym e has wants).0 in
      let (won, e', returns, step) =
        do_gym_challenge-Step get_template opts keeps gym (after_test world town e)
          (subst (λ t. has_badge gym.badge t.badges ≡ false) (sym same_trainer) new) in
      rw returns (subst (λ t. Step P Action.gym t e'.trainer) same_trainer step)

  tick-Outcome : (e : Engine F) → Outcome P (tick world get_template opts e) e.trainer
  tick-Outcome e = Turn-Outcome e (tick-Turn world get_template opts e)

  pub tick_keeps :
      (e : Engine F)
      → IsRoster e.trainer
      → Everybody P e.trainer
      → (result : TickResult F) × (e' : Engine F) × (tick world get_template opts e
          ≡ some (result, e'))
        × IsRoster e'.trainer
        × Everybody P e'.trainer
  tick_keeps e h f =
      let (result, e', returns, step) = Outcome-some P _ e.trainer (tick-Outcome e) in
      (result, e', returns, step.roster h, step.fit f)

  -- A predicate on monsters that healing, wounds, a growing bond, experience and every new wild keep
  -- holds, after a tick, of everybody in the party and the box if it did before. The tick returns.
  pub tick-Everybody :
      (e : Engine F)
      → Everybody P e.trainer
      → (result : TickResult F) × (e' : Engine F) × (tick world get_template opts e
          ≡ some (result, e'))
        × Everybody P e'.trainer
  tick-Everybody e f =
      let (result, e', returns, step) = Outcome-some P _ e.trainer (tick-Outcome e) in
      (result, e', returns, step.fit f)

pub Healthy-Keeps :
    {F : Type 0} ⦃n : Num F⦄ (get_template : ℕ → Option MonsterTemplate)
    → Keeps get_template (Healthy {F = F})
unfolding add_affection
Healthy-Keeps {F} get_template = record {
  lasts = Healthy-Lasts;
  grows = λ m amount template known h. grant_xp_hp F m amount template h;
  bonds = λ m gain h. h;
  fresh = λ route wild buffs rng found.
      omega (arith, (generate_wild_monster-IsWild route get_template buffs rng wild found).full);
}

module _ {F : Type 0} ⦃n : Num F⦄ (world : World F) (get_template : ℕ → Option MonsterTemplate)
    (opts : EngineOptions F) where
  -- A tick always returns, whatever the world, the trainer and the rolls. It catches a monster exactly
  -- if its action says so, and only in a battle; it counts at most one battle, uses at most one ball
  -- and adds at most one badge, which the trainer did not have.
  pub tick_total :
      (e : Engine F)
      → (result : TickResult F) × (e' : Engine F) × (tick world get_template opts e
          ≡ some (result, e'))
        × Progress result.action e.trainer e'.trainer
  tick_total e =
      let (result, e', returns, step) =
        Outcome-some Healthy _ e.trainer
          (tick-Outcome world get_template opts (Healthy-Keeps get_template) e) in
      (result, e', returns, step.progress)

  -- Every tick keeps the party at most 4 and the box at most 6 strong.
  pub tick-IsRoster :
      (e : Engine F)
      → IsRoster e.trainer
      → (result : TickResult F) × (e' : Engine F) × (tick world get_template opts e
          ≡ some (result, e'))
        × IsRoster e'.trainer
  tick-IsRoster e h =
      let (result, e', returns, step) =
        Outcome-some Healthy _ e.trainer
          (tick-Outcome world get_template opts (Healthy-Keeps get_template) e) in
      (result, e', returns, step.roster h)

  -- Every tick leaves everybody in the party and the box with at most the maximum of hit points.
  pub tick-IsFit :
      (e : Engine F)
      → IsFit e.trainer
      → (result : TickResult F) × (e' : Engine F) × (tick world get_template opts e
          ≡ some (result, e'))
        × IsFit e'.trainer
  tick-IsFit = tick-Everybody world get_template opts (Healthy-Keeps get_template)
