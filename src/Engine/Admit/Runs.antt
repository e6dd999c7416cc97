-- ===== src/Engine/Admit/Runs.antt =====
-- src/engine.ts: the town that the agent is in, after a tick and after many.
use pokeage.Prelude.{
  ℕ, zero, suc, ◌≡◌, ◌∙◌, inl, inr, refl, sym, subst, Bool, true, false, Option, none, some, List,
  [], ◌∷◌, ◌++◌, String, take, keep_if, Bool-cases, Option-cases,
}
use mathlib.Core.List.{append-nil}
use pokeage.Num.{Num}
use pokeage.Types.{MonsterTemplate, Gym, Town, Trainer}
use pokeage.Battle.{simulate_gym}
use pokeage.Engine.State.{
  World, Engine, EngineOptions, TickResult, is_up, heal_team, move_to_town, town_by_id,
}
use pokeage.Engine.Challenge.{do_gym_challenge}
use pokeage.Engine.Hunt.{do_wild_encounter-Hunts}
use pokeage.Engine.Tick.{hunt_tick, tell_gym}
use pokeage.Engine.Turn.{
  after_test, after_test-Passes, Turn, nowhere, heals, hunts, moves, challenges, tick-Turn,
}
use pokeage.Engine.Total.{tick_total}
use pokeage.Engine.Travel.{may_enter}
use pokeage.Offline.{run_ticks}
use pokeage.Engine.Admit.{IsAdmitted, may_enter-append, next_stop-admits}

module _ {F : Type 0} ⦃n : Num F⦄ (world : World F) (get_template : ℕ → Option MonsterTemplate)
    (opts : EngineOptions F) where
  -- The place is kept when the location stays and no badge is lost.
  stays-IsAdmitted :
      (t t' : Trainer F) (more : List String)
      → t'.location ≡ t.location
      → t'.badges ≡ t.badges ++ more
      → IsAdmitted world t
      → IsAdmitted world t'
  stays-IsAdmitted t t' more there held a = record {
    town = a.town;
    here = subst (λ l. town_by_id world l ≡ some a.town) (sym there) a.here;
    admitted =
        subst (λ b. may_enter a.town b ≡ true) (sym held)
          (may_enter-append a.town t.badges more a.admitted);
  }

  hunt_tick-IsAdmitted :
      (town : Town) (e : Engine F)
      → IsAdmitted world e.trainer
      → IsAdmitted world (hunt_tick world get_template opts town e).1.trainer
  unfolding hunt_tick
  hunt_tick-IsAdmitted town e a =
      let hunts = do_wild_encounter-Hunts get_template opts world town false e in
      let t' = (hunt_tick world get_template opts town e).1.trainer in
      stays-IsAdmitted e.trainer t' [] hunts.location
        (hunts.badges ∙ sym (append-nil e.trainer.badges)) a

  -- The trainer of an outcome, if it is there, is in a town that it may enter.
  abbrev Admits : {A : Type 0} → Option (A × Engine F) → Type 0
  Admits none = Unit
  Admits (some (result, e')) = IsAdmitted world e'.trainer

  do_gym_challenge-Admits :
      (gym : Gym) (e : Engine F)
      → IsAdmitted world e.trainer
      → Admits (do_gym_challenge get_template opts gym e)
  unfolding do_gym_challenge
  do_gym_challenge-Admits gym e a =
      elim (Option-cases
        (simulate_gym (take 4 (keep_if is_up e.trainer.team)) gym.team get_template e.rng)) [
          | inl stuck ↦ rw (stuck, do_gym_challenge) tt
          | inr (ended, returns) ↦
              rw (returns, do_gym_challenge)
                (elim (Bool-cases ended.0.won) [
                  | inl won ↦ rw won (stays-IsAdmitted e.trainer _ (gym.badge ∷ []) refl refl a)
                  | inr lost ↦
                      rw lost
                        (stays-IsAdmitted e.trainer _ [] refl (sym (append-nil e.trainer.badges)) a)
                ])
        ]

  tell_gym-Admits : (o : Option (Bool × Engine F)) → Admits o → Admits (tell_gym o)
  tell_gym-Admits none a = tt
  tell_gym-Admits (some (won, e')) a = a

  Turn-Admits :
      (e : Engine F) {o : Option (TickResult F × Engine F)}
      → IsAdmitted world e.trainer
      → Turn world get_template opts e o
      → Admits o
  unfolding heal_team move_to_town
  Turn-Admits e a (nowhere missing) = a
  Turn-Admits e a (heals town here is_tired) = record {
    town = a.town;
    here = a.here;
    admitted = a.admitted;
  }
  Turn-Admits e a (hunts town here fit skips stay) =
      let e' = after_test world town e in
      let p = after_test-Passes world town e in
      hunt_tick-IsAdmitted town e' (subst (λ t. IsAdmitted world t) (sym p.trainer) a)
  Turn-Admits e a (moves town stop here fit skips go) =
      let e' = after_test world town e in
      let p = after_test-Passes world town e in
      let (there, enters) = next_stop-admits world town stop e.trainer go in
      record {
        town = stop;
        here = there;
        admitted = subst (λ t. may_enter stop t.badges ≡ true) (sym p.trainer) enters;
      }
  Turn-Admits e a (challenges town gym here fit wants has) =
      let e' = after_test world town e in
      let p = after_test-Passes world town e in
      tell_gym-Admits (do_gym_challenge get_template opts gym e')
        (do_gym_challenge-Admits gym e' (subst (λ t. IsAdmitted world t) (sym p.trainer) a))

  -- In any world, the agent is only ever in a town whose badge it holds: any number of ticks return,
  -- and after them it is in a town of the world that asks for no badge or for one that it holds, if
  -- it was so before.
  pub run_ticks-IsAdmitted :
      (k : ℕ) (e : Engine F)
      → IsAdmitted world e.trainer
      → (e' : Engine F) × (run_ticks world get_template opts k e ≡ some e')
        × IsAdmitted world e'.trainer
  unfolding run_ticks
  run_ticks-IsAdmitted zero e a = (e, refl, a)
  run_ticks-IsAdmitted (suc k) e a =
      let (result, e', returns, progress) = tick_total world get_template opts e in
      let (e'', rest, a'') =
        run_ticks-IsAdmitted k e'
          (subst Admits returns (Turn-Admits e a (tick-Turn world get_template opts e))) in
      (e'', rw (returns, run_ticks) rest, a'')
