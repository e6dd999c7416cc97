-- ===== src/Engine/Badges.antt =====
-- src/engine.ts: where a new badge comes from.
use pokeage.Prelude.{
  ℕ, ◌≡◌, ◌⊎◌, ◌∙◌, inl, inr, refl, ap, subst, Bool, false, Option, none, some, List, [], ◌∷◌, ◌++◌,
  String, take, keep_if, Memᴰ, find?-Memᴰ, Bool-cases, Option-cases,
}
use pokeage.Num.{Num}
use pokeage.Types.{MonsterTemplate, Gym, Town}
use pokeage.Battle.{simulate_gym}
use pokeage.Engine.State.{
  World, Engine, EngineOptions, TickResult, has_badge, is_up, heal_team, move_to_town, same,
}
use pokeage.Engine.Challenge.{gym_locked, do_gym_challenge}
use pokeage.Engine.Hunt.{do_wild_encounter-Hunts}
use pokeage.Engine.Tick.{hunt_tick, tell_gym, tick}
use pokeage.Engine.Turn.{
  after_test, after_test-Passes, wants_gym-open, Turn, nowhere, heals, hunts, moves, challenges,
  tick-Turn,
}

-- The badge of a gym of the world that was missing and whose gym was not locked.
pub record IsWon {F : Type 0} (world : World F) (before after : List String) : Type 0 where
  pub town : Town
  pub gym : Gym
  pub of_world : Memᴰ town world.towns
  pub has : town.gym ≡ some gym
  pub new : has_badge gym.badge before ≡ false
  pub unlocked : gym_locked world town before ≡ false
  pub added : after ≡ before ++ (gym.badge ∷ [])

module _ {F : Type 0} ⦃n : Num F⦄ (world : World F) (get_template : ℕ → Option MonsterTemplate)
    (opts : EngineOptions F) where
  hunt_tick-badges :
      (town : Town) (e : Engine F)
      → (hunt_tick world get_template opts town e).1.trainer.badges ≡ e.trainer.badges
  unfolding hunt_tick
  hunt_tick-badges town e = (do_wild_encounter-Hunts get_template opts world town false e).badges

  -- The badges after an outcome, if it is there: as before, or with one more that was won.
  abbrev Earns : List String → Option (TickResult F × Engine F) → Type 0
  Earns before none = Unit
  Earns before (some (result, e')) =
      (e'.trainer.badges ≡ before) ⊎ IsWon world before e'.trainer.badges

  -- The badges after a challenge, if it returns.
  abbrev Gains : Gym → List String → Option (Bool × Engine F) → Type 0
  Gains gym before none = Unit
  Gains gym before (some (won, e')) =
      (e'.trainer.badges ≡ before) ⊎ (e'.trainer.badges ≡ before ++ (gym.badge ∷ []))

  do_gym_challenge-Gains :
      (gym : Gym) (e : Engine F)
      → Gains gym e.trainer.badges (do_gym_challenge get_template opts gym e)
  unfolding do_gym_challenge
  do_gym_challenge-Gains gym e =
      elim (Option-cases
        (simulate_gym (take 4 (keep_if is_up e.trainer.team)) gym.team get_template e.rng)) [
          | inl stuck ↦ rw (stuck, do_gym_challenge) tt
          | inr (ended, returns) ↦
              rw (returns, do_gym_challenge)
                (elim (Bool-cases ended.0.won) [
                  | inl won ↦ rw won (inr refl)
                  | inr lost ↦ rw lost (inl refl)
                ])
        ]

  -- The tick's result for the challenge's.
  Gains-Earns :
      (town : Town) (gym : Gym) (before : List String) (o : Option (Bool × Engine F))
      → Memᴰ town world.towns
      → town.gym ≡ some gym
      → has_badge gym.badge before ≡ false
      → gym_locked world town before ≡ false
      → Gains gym before o
      → Earns before (tell_gym o)
  Gains-Earns town gym before none m has new unlocked h = tt
  Gains-Earns town gym before (some (won, e'')) m has new unlocked (inl same) = inl same
  Gains-Earns town gym before (some (won, e'')) m has new unlocked (inr added) = inr (record {
    town = town;
    gym = gym;
    of_world = m;
    has = has;
    new = new;
    unlocked = unlocked;
    added = added;
  })

  Turn-Earns :
      (e : Engine F) {o : Option (TickResult F × Engine F)}
      → Turn world get_template opts e o
      → Earns e.trainer.badges o
  unfolding heal_team move_to_town
  Turn-Earns e (nowhere missing) = inl refl
  Turn-Earns e (heals town here is_tired) = inl refl
  Turn-Earns e (hunts town here fit skips stay) =
      let e' = after_test world town e in
      let p = after_test-Passes world town e in
      inl (hunt_tick-badges town e' ∙ ap (λ t. t.badges) p.trainer)
  Turn-Earns e (moves town stop here fit skips go) =
      let e' = after_test world town e in
      let p = after_test-Passes world town e in inl (ap (λ t. t.badges) p.trainer)
  Turn-Earns e (challenges town gym here fit wants has) =
      let e' = after_test world town e in
      let p = after_test-Passes world town e in
      let (new, unlocked) = wants_gym-open world town gym e has wants in
      Gains-Earns town gym e.trainer.badges (do_gym_challenge get_template opts gym e')
        (find?-Memᴰ (λ t. same t.id e.trainer.location) world.towns here) has new unlocked
        (subst (λ t. Gains gym t.badges (do_gym_challenge get_template opts gym e')) p.trainer
          (do_gym_challenge-Gains gym e'))

  -- A tick either leaves the badges as they were, or adds the badge of a gym of the world, which was
  -- missing and whose gym was not locked: the badge of the gym before it was held.
  pub tick-IsWon :
      (e e' : Engine F) (result : TickResult F)
      → tick world get_template opts e ≡ some (result, e')
      → (e'.trainer.badges ≡ e.trainer.badges) ⊎ IsWon world e.trainer.badges e'.trainer.badges
  tick-IsWon e e' result returns =
      subst (Earns e.trainer.badges) returns (Turn-Earns e (tick-Turn world get_template opts e))
