-- ===== src/Engine/Turn.antt =====
-- src/engine.ts: the five ways of a tick.
use pokeage.Prelude.{
  ℕ, ◌≡◌, refl, ap, sym, subst, inl, inr, arith, Bool, true, false, Option, none, some,
  if◌then◌else◌, Bool-cases, Option-cases,
}
use mathlib.Core.Option.{some-injective}
use pokeage.Num.{Num}
use pokeage.Types.{MonsterTemplate, Gym, Town, Action}
use pokeage.Team.{is_off}
use pokeage.Engine.State.{
  has_badge, World, Engine, EngineOptions, TickResult, heal_team, move_to_town, town_by_id,
}
use pokeage.Engine.Challenge.{gym_locked, should_challenge_gym, do_gym_challenge}
use pokeage.Engine.Tick.{plain, next_stop, hunt_tick, travel_tick, tell_gym, gym_tick, tick}
use pokeage.Engine.Travel.{tired}

-- The engine after the test for a challenge: its pause may have become shorter.
pub record Passes {F : Type 0} (e e' : Engine F) : Type 0 where
  pub trainer : e'.trainer ≡ e.trainer
  pub rng : e'.rng ≡ e.rng

at_gym :
    {R : Type 0} (f : Gym → R) (d : R) (o : Option Gym) {gym : Gym}
    → o ≡ some gym
    → elim o [ none ↦ d | some g ↦ f g ] ≡ f gym
at_gym f d none e = absurd (cc (e))
at_gym f d (some g) e = ap f (some-injective _ _ e)

module _ {F : Type 0} (world : World F) where
  -- The test for a challenge, which is not made while the strategy has gyms off.
  abbrev pub wants_gym : Town → Engine F → Bool
  wants_gym town e =
      if is_off e.trainer.strategy.auto_gym then false else (should_challenge_gym world town e).0

  abbrev pub after_test : Town → Engine F → Engine F
  after_test town e =
      if is_off e.trainer.strategy.auto_gym then e else (should_challenge_gym world town e).1

  should_challenge_gym-Passes :
      (town : Town) (e : Engine F) → Passes e (should_challenge_gym world town e).1
  unfolding should_challenge_gym
  should_challenge_gym-Passes town e = record { trainer = ground arith; rng = ground arith }

  pub after_test-Passes : (town : Town) (e : Engine F) → Passes e (after_test town e)
  after_test-Passes town e = elim (Bool-cases (is_off e.trainer.strategy.auto_gym)) [
    | inl off ↦ rw off (record { trainer = refl; rng = refl })
    | inr on ↦ rw on (should_challenge_gym-Passes town e)
  ]

  -- An agent that challenges a gym has not its badge, and the gym is not locked.
  pub wants_gym-open :
      (town : Town) (gym : Gym) (e : Engine F)
      → town.gym ≡ some gym
      → wants_gym town e ≡ true
      → (has_badge gym.badge e.trainer.badges ≡ false)
        × (gym_locked world town e.trainer.badges ≡ false)
  unfolding should_challenge_gym
  wants_gym-open town gym e has wants = ground arith

  -- Without a gym there is no challenge.
  no_gym-wants_gym : (town : Town) (e : Engine F) → town.gym ≡ none → wants_gym town e ≡ false
  unfolding should_challenge_gym
  no_gym-wants_gym town e no_gym = ground arith

module _ {F : Type 0} ⦃n : Num F⦄ (world : World F) (get_template : ℕ → Option MonsterTemplate)
    (opts : EngineOptions F) where
  -- What a tick of `e` comes to, by the branch that it takes.
  pub data Turn (e : Engine F) : Option (TickResult F × Engine F) → Type 0 where
    nowhere :
        town_by_id world e.trainer.location ≡ none → Turn e (some (plain e.state Action.idle, e))
    heals :
        (town : Town)
        → town_by_id world e.trainer.location ≡ some town
        → tired e ≡ true
        → Turn e (some (plain (heal_team e).state Action.heal, heal_team e))
    hunts :
        (town : Town)
        → town_by_id world e.trainer.location ≡ some town
        → tired e ≡ false
        → wants_gym world town e ≡ false
        → next_stop world town e.trainer ≡ none
        → Turn e (some (hunt_tick world get_template opts town (after_test world town e)))
    moves :
        (town stop : Town)
        → town_by_id world e.trainer.location ≡ some town
        → tired e ≡ false
        → wants_gym world town e ≡ false
        → next_stop world town e.trainer ≡ some stop
        → Turn e (
            some (
              record {
                state = (move_to_town stop (after_test world town e)).state;
                action = Action.move;
                detail = some stop.name;
                encounter = none;
              },
              move_to_town stop (after_test world town e),
            ))
    challenges :
        (town : Town) (gym : Gym)
        → town_by_id world e.trainer.location ≡ some town
        → tired e ≡ false
        → wants_gym world town e ≡ true
        → town.gym ≡ some gym
        → Turn e (tell_gym (do_gym_challenge get_template opts gym (after_test world town e)))

  travel_tick-Turn :
      (town : Town) (e : Engine F)
      → town_by_id world e.trainer.location ≡ some town
      → tired e ≡ false
      → wants_gym world town e ≡ false
      → Turn e (some (travel_tick world get_template opts town (after_test world town e)))
  unfolding travel_tick
  travel_tick-Turn town e here fit skips =
      let p = after_test-Passes world town e in
      elim (Option-cases (next_stop world town (after_test world town e).trainer)) [
        | inl stay ↦
            rw (stay, travel_tick)
              (hunts town here fit skips
                (subst (λ t. next_stop world town t ≡ none) p.trainer stay))
        | inr (stop, go) ↦
            rw (go, travel_tick)
              (moves town stop here fit skips
                (subst (λ t. next_stop world town t ≡ some stop) p.trainer go))
      ]

  -- The tick in a town, by the test for a challenge.
  gym_tick-travel_tick :
      (town : Town) (e : Engine F)
      → wants_gym world town e ≡ false
      → gym_tick world get_template opts town e
        ≡ some (travel_tick world get_template opts town (after_test world town e))
  unfolding gym_tick
  gym_tick-travel_tick town e skips = elim (Bool-cases (is_off e.trainer.strategy.auto_gym)) [
    | inl off ↦ rw (off, gym_tick) refl
    | inr on ↦ rw (on, gym_tick) (rw (rw on at skips) refl)
  ]

  gym_tick-tell_gym :
      (town : Town) (gym : Gym) (e : Engine F)
      → wants_gym world town e ≡ true
      → town.gym ≡ some gym
      → gym_tick world get_template opts town e
        ≡ tell_gym (do_gym_challenge get_template opts gym (after_test world town e))
  unfolding gym_tick
  gym_tick-tell_gym town gym e wants has = elim (Bool-cases (is_off e.trainer.strategy.auto_gym)) [
    | inl off ↦ absurd (cc (rw off at wants))
    | inr on ↦
        let e' = (should_challenge_gym world town e).1 in
        rw (on, gym_tick)
          (rw (rw on at wants)
            (at_gym (λ g. tell_gym (do_gym_challenge get_template opts g e')) _ town.gym has))
  ]

  gym_tick-Turn :
      (town : Town) (e : Engine F)
      → town_by_id world e.trainer.location ≡ some town
      → tired e ≡ false
      → Turn e (gym_tick world get_template opts town e)
  gym_tick-Turn town e here fit = elim (Bool-cases (wants_gym world town e)) [
    | inr skips ↦
        subst (Turn e) (sym (gym_tick-travel_tick town e skips))
          (travel_tick-Turn town e here fit skips)
    | inl wants ↦ elim (Option-cases town.gym) [
      | inl no_gym ↦ absurd (cc (wants, no_gym-wants_gym world town e no_gym))
      | inr (gym, has) ↦
          subst (Turn e) (sym (gym_tick-tell_gym town gym e wants has))
            (challenges town gym here fit wants has)
    ]
  ]

  -- A tick does exactly one of five things, each under its condition: it does nothing in no town,
  -- heals a tired team, challenges the town's gym, moves to the next town or hunts.
  pub tick-Turn : (e : Engine F) → Turn e (tick world get_template opts e)
  unfolding tick
  tick-Turn e = elim (Option-cases (town_by_id world e.trainer.location)) [
    | inl missing ↦ rw (missing, tick) (nowhere missing)
    | inr (town, here) ↦
        rw (here, tick)
          (elim (Bool-cases (tired e)) [
            | inl is_tired ↦ rw is_tired (heals town here is_tired)
            | inr fit ↦ rw fit (gym_tick-Turn town e here fit)
          ])
  ]
