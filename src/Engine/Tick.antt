-- ===== src/Engine/Tick.antt =====
-- src/engine.ts: `tick`, the agent's decision.
use pokeage.Prelude.{
  ℕ, Bool, true, false, not, ◌&&◌, ◌||◌, Option, none, some, List, [], ◌∷◌, any, if◌then◌else◌,
}
use pokeage.Num.{Num, ratio}
use pokeage.Types.{MonsterTemplate, MonsterInstance, Town, Trainer, AgentState, Action}
use pokeage.Team.{is_off}
use pokeage.Engine.State.{
  has_badge, given, World, EngineOptions, Engine, TickResult, is_up, heal_team, move_to_town,
  town_by_id,
}
use pokeage.Engine.Challenge.{should_challenge_gym, do_gym_challenge}
use pokeage.Engine.Wild.{do_wild_encounter}

abbrev pub action_of : Option Bool → Action
action_of (some true) = Action.caught
action_of _ = Action.hunt

abbrev pub plain : {F : Type 0} → AgentState → Action → TickResult F
plain state action = record { state = state; action = action; detail = none; encounter = none }

module _ {F : Type 0} ⦃n : Num F⦄ where
  open n use {of_ℕ, mul, lt}

  -- The lead stands below 15% of its hit points.
  abbrev pub lead_needs_heal : List (MonsterInstance F) → Bool
  lead_needs_heal [] = false
  lead_needs_heal (lead ∷ ms) =
      is_up lead && lt (of_ℕ lead.current_hp) (mul (of_ℕ lead.stats.hp) (ratio 15 100))

module _ {F : Type 0} (world : World F) where
  -- The town to move on to, if the agent may.
  abbrev pub next_stop : Town → Trainer F → Option Town
  next_stop town t = elim town.gym [
    | none ↦ none
    | some gym ↦
        if is_off t.strategy.auto_move || not (has_badge gym.badge t.badges)
        then none
        else elim (given town.next_town) [
          | none ↦ none
          | some id ↦ elim (town_by_id world id) [
            | none ↦ none
            | some stop ↦
                if elim (given stop.required_badge) [ none ↦ true | some b ↦ has_badge b t.badges ]
                then some stop
                else none
          ]
        ]
  ]

-- What the tick returns for the challenge's `won`.
abbrev pub tell_gym : {F : Type 0} → Option (Bool × Engine F) → Option (TickResult F × Engine F)
tell_gym none = none
tell_gym (some (won, e)) = some (
  record {
    state = e.state;
    action = Action.gym;
    detail = some (if won then "won" else "lost");
    encounter = none;
  },
  e,
)

module _ {F : Type 0} ⦃n : Num F⦄ (world : World F) (get_template : ℕ → Option MonsterTemplate)
    (opts : EngineOptions F) where
  unfoldable pub hunt_tick : Town → Engine F → TickResult F × Engine F
  hunt_tick town e =
      let (enc, e') = do_wild_encounter get_template opts world town false e in
      (
        record {
          state = e'.state;
          action = action_of enc.caught;
          detail = none;
          encounter = some enc;
        },
        e',
      )

  -- After the gym has been passed by.
  unfoldable pub travel_tick : Town → Engine F → TickResult F × Engine F
  travel_tick town e = elim (next_stop world town e.trainer) [
    | none ↦ hunt_tick town e
    | some stop ↦
        let e' = move_to_town stop e in
        (
          record {
            state = e'.state;
            action = Action.move;
            detail = some stop.name;
            encounter = none;
          },
          e',
        )
  ]

  unfoldable pub gym_tick : Town → Engine F → Option (TickResult F × Engine F)
  gym_tick town e =
      let (challenge, e') = should_challenge_gym world town e in
      if is_off e.trainer.strategy.auto_gym
      then some (travel_tick town e)
      else if challenge
      then elim town.gym [
        | none ↦ some (travel_tick town e')
        | some gym ↦ tell_gym (do_gym_challenge get_template opts gym e')
      ]
      else some (travel_tick town e')

  unfoldable pub tick : Engine F → Option (TickResult F × Engine F)
  tick e = elim (town_by_id world e.trainer.location) [
    | none ↦ some (plain e.state Action.idle, e)
    | some town ↦
        let t = e.trainer in
        let healed = heal_team e in
        if not (any is_up t.team) || (lead_needs_heal t.team && not (is_off t.strategy.auto_heal))
        then some (plain healed.state Action.heal, healed)
        else gym_tick town e
  ]
