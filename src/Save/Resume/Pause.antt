-- ===== src/Save/Resume/Pause.antt =====
-- src/save.ts and src/engine.ts: the pause after a lost gym challenge, which a save does not keep.
use pokeage.Prelude.{ℕ, zero, suc, ◌≡◌, Option}
use pokeage.Num.{Num}
use pokeage.Types.{Town}
use pokeage.Rng.{Rng}
use pokeage.Engine.State.{World, Engine}
use pokeage.Engine.Challenge.{should_challenge_gym}

module _ {F : Type 0} (world : World F) (town : Town) where
  -- The engine after `k` tests for a challenge.
  abbrev pub tests : ℕ → Engine F → Engine F
  tests zero e = e
  tests (suc k) e = tests k (should_challenge_gym world town e).1

-- What a lost challenge leaves behind.
record Loses {F : Type 0} (e e' : Engine F) : Type 0 where
  pause : e'.gym_cooldown ≡ 5
  badges : e'.trainer.badges ≡ e.trainer.badges
  location : e'.trainer.location ≡ e.trainer.location
