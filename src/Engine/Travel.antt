-- ===== src/Engine/Travel.antt =====
-- src/engine.ts: an agent on its way from town to town.
use pokeage.Prelude.{
  ℕ, ◌≡◌, inl, inr, refl, ap, subst, arith, Bool, true, false, not, ◌&&◌, ◌||◌, Option, none, some,
  List, [], ◌∷◌, String, map, any, ltb, Bool-cases, Option-cases,
}
use pokeage.Num.{Num, ◌≼◌, ratio}
use pokeage.Num.Laws.{IsNum}
use pokeage.Types.{MonsterTemplate, MonsterInstance, Town, Gym, Trainer, Action}
use pokeage.Team.{is_off}
use pokeage.Engine.State.{
  World, Engine, EngineOptions, TickResult, has_badge, given, heal, heal_team, move_to_town,
  town_by_id, is_up,
}
use pokeage.Engine.Challenge.{should_challenge_gym}
use pokeage.Engine.Tick.{lead_needs_heal, next_stop, travel_tick, gym_tick, tick, plain}

-- The badge of the town's gym is held.
abbrev pub may_leave : Town → List String → Bool
may_leave t badges = elim t.gym [ none ↦ false | some g ↦ has_badge g.badge badges ]

-- The badge that the town asks for is held.
abbrev pub may_enter : Town → List String → Bool
may_enter t badges = elim (given t.required_badge) [ none ↦ true | some b ↦ has_badge b badges ]

module _ {F : Type 0} ⦃n : Num F⦄ where
  -- Somebody has hit points to be healed to.
  abbrev pub CanStand : Engine F → Type 0
  CanStand e = any (λ m. ltb 0 m.stats.hp) e.trainer.team ≡ true

  -- The test by which a tick heals the team.
  abbrev pub tired : Engine F → Bool
  tired e =
      let tr = e.trainer in
      not (any is_up tr.team) || (lead_needs_heal tr.team && not (is_off tr.strategy.auto_heal))

  any_up-heal :
      (ms : List (MonsterInstance F)) → any is_up (map heal ms) ≡ any (λ m. ltb 0 m.stats.hp) ms
  any_up-heal [] = refl
  any_up-heal (m ∷ ms) = ap (λ b. ltb 0 m.stats.hp || b) (any_up-heal ms)

  pub can_stand-heal :
      (ms : List (MonsterInstance F))
      → any (λ m. ltb 0 m.stats.hp) (map heal ms) ≡ any (λ m. ltb 0 m.stats.hp) ms
  can_stand-heal [] = refl
  can_stand-heal (m ∷ ms) = ap (λ b. ltb 0 m.stats.hp || b) (can_stand-heal ms)

  module _ (laws : IsNum F) where
    open laws use {le_trans, lt-eq-not-le, mul_mono, mul-one, div_le, div-one, of_ℕ_mono, le_refl}

    part_le : (hp : ℕ) → n.mul (n.of_ℕ hp) (ratio 15 100) ≼ n.of_ℕ hp
    part_le hp =
        let small : ratio 15 100 ≼ n.of_ℕ 1 =
          subst (λ x. ratio 15 100 ≼ x) (div-one 1)
            (div_le 15 100 1 1 (omega arith) (omega arith) (omega arith)) in
        let positive : n.of_ℕ 0 ≼ ratio 15 100 =
          subst (λ x. x ≼ ratio 15 100) (div-one 0)
            (div_le 0 1 15 100 (omega arith) (omega arith) (omega arith)) in
        subst (λ x. n.mul (n.of_ℕ hp) (ratio 15 100) ≼ x) (mul-one (n.of_ℕ hp))
          (mul_mono _ _ _ _ (of_ℕ_mono 0 hp (omega arith)) positive (le_refl _) small)

    lead_needs_heal-heal : (ms : List (MonsterInstance F)) → lead_needs_heal (map heal ms) ≡ false
    lead_needs_heal-heal [] = refl
    lead_needs_heal-heal (m ∷ ms) = rw (lt-eq-not-le, part_le m.stats.hp) (ground arith)

    -- After a healing the agent is not tired.
    pub tired-heal_team : (e : Engine F) → CanStand e → tired (heal_team e) ≡ false
    unfolding heal_team
    tired-heal_team e h =
        rw (any_up-heal e.trainer.team, lead_needs_heal-heal e.trainer.team, h) refl

    -- A move heals the team too.
    pub tired-move_to_town :
        (u : Town) (e : Engine F) → CanStand e → tired (move_to_town u e) ≡ false
    unfolding move_to_town heal_team
    tired-move_to_town u e h =
        rw (any_up-heal e.trainer.team, lead_needs_heal-heal e.trainer.team, h) refl

-- A town with a gym whose badge is held.
may_leave_gym :
    (t : Town) (badges : List String)
    → may_leave t badges ≡ true
    → (gym : Gym) × (t.gym ≡ some gym) × (has_badge gym.badge badges ≡ true)
may_leave_gym t badges h = elim (Option-cases t.gym) [
  | inl none_there ↦ absurd (leaves_nowhere (rw none_there at h))
  | inr (gym, has) ↦ (gym, has, rw has at h)
]
  where
    leaves_nowhere : false ≡ true → ⊥
    leaves_nowhere e = cc

module _ {F : Type 0} (world : World F) where
  next_stop-opens :
      (t u : Town) (trainer : Trainer F)
      → is_off trainer.strategy.auto_move ≡ false
      → may_leave t trainer.badges ≡ true
      → given t.next_town ≡ some u.id
      → town_by_id world u.id ≡ some u
      → may_enter u trainer.badges ≡ true
      → next_stop world t trainer ≡ some u
  next_stop-opens t u trainer moves leave next there enter =
      let (gym, has, held) = may_leave_gym t trainer.badges leave in
      rw (has, moves, held, next, there, enter) refl

  passes_gym :
      (t : Town) (e : Engine F)
      → may_leave t e.trainer.badges ≡ true
      → should_challenge_gym world t e ≡ (false, e)
  unfolding should_challenge_gym
  passes_gym t e leave =
      let (gym, has, held) = may_leave_gym t e.trainer.badges leave in
      rw (has, should_challenge_gym) (rw held refl)

module _ {F : Type 0} ⦃n : Num F⦄ (world : World F) (get_template : ℕ → Option MonsterTemplate)
    (opts : EngineOptions F) where
  -- An agent that is not tired and whose badges open the way moves on.
  pub tick_moves :
      (t u : Town) (e : Engine F)
      → town_by_id world e.trainer.location ≡ some t
      → tired e ≡ false
      → is_off e.trainer.strategy.auto_move ≡ false
      → may_leave t e.trainer.badges ≡ true
      → given t.next_town ≡ some u.id
      → town_by_id world u.id ≡ some u
      → may_enter u e.trainer.badges ≡ true
      → (result : TickResult F) × (tick world get_template opts e ≡ some (result, move_to_town u e))
  unfolding tick gym_tick travel_tick
  tick_moves t u e here fit moves leave next there enter =
      let stop = next_stop-opens world t u e.trainer moves leave next there enter in
      let passed = passes_gym world t e leave in
      (
        record {
          state = (move_to_town u e).state;
          action = Action.move;
          detail = some u.name;
          encounter = none;
        },
        rw (here, tick)
            (rw fit (elim (Bool-cases (is_off e.trainer.strategy.auto_gym)) [
              | inl off ↦ rw (off, gym_tick) (rw (stop, travel_tick) refl)
              | inr on ↦ rw (on, gym_tick) (rw passed (rw (stop, travel_tick) refl))
            ])),
      )

  -- A tired agent is healed, wherever it is.
  pub tick_heals :
      (t : Town) (e : Engine F)
      → town_by_id world e.trainer.location ≡ some t
      → tired e ≡ true
      → (result : TickResult F) × (tick world get_template opts e ≡ some (result, heal_team e))
  unfolding tick
  tick_heals t e here weary =
      (plain (heal_team e).state Action.heal, rw (here, tick) (rw weary refl))
