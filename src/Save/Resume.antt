-- ===== src/Save/Resume.antt =====
-- src/save.ts and src/engine.ts: an agent that is saved and resumed by a new engine.
pub mod Pause
use pokeage.Prelude.{
  ℕ, ◌^◌, ◌<◌, ◌≡◌, ◌∙◌, refl, ap, sym, subst, arith, true, false, Option, none, some, inl, inr,
  Bool-cases, List, [], ◌∷◌, map, any, leb, All,
}
use text.Mathlib.TextEquality.{eq_iff}
use mathlib.Core.Option.{some-injective}
use pokeage.Num.{Num}
use pokeage.Types.{MonsterTemplate, MonsterInstance, Trainer, Town, Gym, AgentState}
use pokeage.Rng.{Rng, snapshot, restore}
use pokeage.Engine.State.{
  town_by_id, World, Engine, EngineOptions, same, has_badge, is_up, new_engine,
}
use pokeage.Engine.Challenge.{should_challenge_gym, gym_locked, max_level_of, lead_level}
use pokeage.Rng.Word.{IsWord}
use pokeage.Rng.Drawn.{IsDrawn-IsWord}
use pokeage.Engine.Admit.{IsAdmitted}
use pokeage.Engine.Admit.Runs.{run_ticks-IsAdmitted}
use pokeage.Engine.Draws.Ticks.{run_ticks-IsDrawn}
use pokeage.Engine.Health.{Everybody}
use pokeage.Engine.Specimen.{Bare, Bare-Keeps, run_ticks-Everybody}
use pokeage.Offline.{run_ticks}
use pokeage.Save.{SavedGame, loaded, deserialize_trainer, serialize_trainer}
use pokeage.Save.Load.{without_moves, deserialize_trainer-serialize_trainer}

module _ {F : Type 0} where
  without_moves-All : (ms : List (MonsterInstance F)) → All Bare ms → map without_moves ms ≡ ms
  without_moves-All [] h = refl
  without_moves-All (m ∷ ms) h = ground (arith, without_moves-All ms h.1, h.0)

  without_moves-Everybody :
      (t : Trainer F)
      → Everybody Bare t
      → (record t { team = map without_moves t.team; box = map without_moves t.box }) ≡ t
  without_moves-Everybody t h =
      ground (arith, without_moves-All t.team h.team, without_moves-All t.box h.box)

-- A generator with a 32-bit state is restored from its snapshot.
restore-snapshot : (r : Rng) → r.state < 2 ^ 32 → restore (snapshot r) ≡ r
restore-snapshot r h = ground arith

-- A town that was found has an id that is no empty string, if no town is called so.
IsAdmitted-named :
    {F : Type 0} (world : World F) (t : Trainer F)
    → town_by_id world "" ≡ none
    → IsAdmitted world t
    → same t.location "" ≡ false
IsAdmitted-named world t named a = elim (Bool-cases (same t.location "")) [
  | inr other ↦ other
  | inl empty ↦
      let here =
        subst (λ l. town_by_id world l ≡ some a.town) ((eq_iff t.location "").0 empty) a.here in
      absurd (cc (here, named))
]

module _ {F J : Type 0} ⦃n : Num F⦄ (stringify : SavedGame F → J)
    (parse : J → Option (Option (SavedGame F)))
    (json : (s : SavedGame F) → parse (stringify s) ≡ some (some s)) where
  -- An agent whose trainer was made by the engine's own constructors, so that no moves are cached, can
  -- be saved after any number of ticks, which all return: the text loads to the very same trainer, and
  -- a new engine for it that continues with the saved generator is the old engine, but for its state
  -- and for the pause between gym challenges, which are reset. Before the ticks the agent is in a town
  -- that it may enter and the generator's state is 32 bits wide; no town has the empty id.
  pub run_ticks-resume :
      (world : World F) (get_template : ℕ → Option MonsterTemplate) (opts : EngineOptions F) (k : ℕ)
      (e : Engine F)
      → Everybody Bare e.trainer
      → IsAdmitted world e.trainer
      → IsWord e.rng.state
      → town_by_id world "" ≡ none
      → (e' : Engine F) × (run_ticks world get_template opts k e ≡ some e')
        × (t : Trainer F) × (deserialize_trainer parse
              (serialize_trainer stringify e'.trainer (some (snapshot e'.rng)))
            ≡ loaded t)
        × (new_engine t (some (restore (snapshot e'.rng)))
            ≡ (record e' { state = AgentState.idle; gym_cooldown = 0 }))
  unfolding new_engine
  run_ticks-resume world get_template opts k e bare admitted word named =
      let (e', runs, bare') =
        run_ticks-Everybody world get_template opts (Bare-Keeps get_template) k e bare in
      let (e'', same_runs, admitted'') =
        run_ticks-IsAdmitted world get_template opts k e admitted in
      let admitted' : IsAdmitted world e'.trainer =
        subst (λ x. IsAdmitted world x.trainer) (some-injective _ _ (sym same_runs ∙ runs))
          admitted'' in
      let word' =
        IsDrawn-IsWord e.rng e'.rng (run_ticks-IsDrawn world get_template opts k e e' runs) word in
      (
        e',
        runs,
        e'.trainer,
        deserialize_trainer-serialize_trainer stringify parse e'.trainer (some (snapshot e'.rng))
              (json _) (IsAdmitted-named world e'.trainer named admitted')
            ∙ ap loaded (without_moves-Everybody e'.trainer bare'),
        ground (arith, restore-snapshot e'.rng word'),
      )
