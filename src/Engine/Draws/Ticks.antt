-- ===== src/Engine/Draws/Ticks.antt =====
-- src/engine.ts: the generator after a tick, and after many.
use pokeage.Prelude.{
  ℕ, zero, suc, ◌≡◌, subst, inl, inr, Bool, false, Option, none, some, Option-cases,
}
use mathlib.Core.Option.{some-injective}
use pokeage.Num.{Num}
use pokeage.Types.{MonsterTemplate, Town}
use pokeage.Rng.{Rng}
use pokeage.Rng.Drawn.{IsDrawn, IsDrawn-refl, IsDrawn-trans}
use pokeage.Engine.State.{World, Engine, EngineOptions, TickResult, heal_team, move_to_town}
use pokeage.Engine.Challenge.{do_gym_challenge}
use pokeage.Engine.Tick.{hunt_tick, tell_gym, tick}
use pokeage.Offline.{run_ticks}
use pokeage.Engine.Turn.{
  after_test, after_test-Passes, Turn, nowhere, heals, hunts, moves, challenges, tick-Turn,
}
use pokeage.Engine.Draws.{Draws, do_wild_encounter-IsDrawn, do_gym_challenge-Draws}

module _ {F : Type 0} ⦃n : Num F⦄ (world : World F) (get_template : ℕ → Option MonsterTemplate)
    (opts : EngineOptions F) where
  hunt_tick-IsDrawn :
      (town : Town) (e : Engine F) → IsDrawn e.rng (hunt_tick world get_template opts town e).1.rng
  unfolding hunt_tick
  hunt_tick-IsDrawn town e = do_wild_encounter-IsDrawn get_template opts world town false e

  tell_gym-Draws : (r : Rng) (o : Option (Bool × Engine F)) → Draws r o → Draws r (tell_gym o)
  tell_gym-Draws r none h = tt
  tell_gym-Draws r (some (won, e')) h = h

  Turn-Draws :
      (e : Engine F) {o : Option (TickResult F × Engine F)}
      → Turn world get_template opts e o
      → Draws e.rng o
  unfolding heal_team move_to_town
  Turn-Draws e (nowhere missing) = IsDrawn-refl e.rng
  Turn-Draws e (heals town here is_tired) = IsDrawn-refl e.rng
  Turn-Draws e (hunts town here fit skips stay) =
      let e' = after_test world town e in
      let p = after_test-Passes world town e in
      subst (λ r. IsDrawn r (hunt_tick world get_template opts town e').1.rng) p.rng
        (hunt_tick-IsDrawn town e')
  Turn-Draws e (moves town stop here fit skips go) =
      let e' = after_test world town e in
      let p = after_test-Passes world town e in
      subst (λ r. IsDrawn r e'.rng) p.rng (IsDrawn-refl e'.rng)
  Turn-Draws e (challenges town gym here fit wants has) =
      let e' = after_test world town e in
      let p = after_test-Passes world town e in
      let challenged = do_gym_challenge get_template opts gym e' in
      tell_gym-Draws e.rng challenged
        (subst (λ r. Draws r challenged) p.rng (do_gym_challenge-Draws get_template opts gym e'))

  -- All chance comes from the one generator: after any number of ticks that returned, the generator
  -- is the one before after a number of calls of `next`.
  pub run_ticks-IsDrawn :
      (k : ℕ) (e e' : Engine F)
      → run_ticks world get_template opts k e ≡ some e'
      → IsDrawn e.rng e'.rng
  unfolding run_ticks
  run_ticks-IsDrawn zero e e' =
      λ returns. subst (λ x. IsDrawn e.rng x.rng) (some-injective _ _ returns) (IsDrawn-refl e.rng)
  run_ticks-IsDrawn (suc k) e e' = elim (Option-cases (tick world get_template opts e)) [
    | inl stuck ↦ rw (stuck, run_ticks) (λ returns. absurd (cc (returns)))
    | inr ((result, next_e), goes) ↦
        let drawn = subst (Draws e.rng) goes (Turn-Draws e (tick-Turn world get_template opts e)) in
        rw (goes, run_ticks)
          (λ returns. IsDrawn-trans _ _ _ drawn (run_ticks-IsDrawn k next_e e' returns))
  ]
