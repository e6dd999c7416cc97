-- ===== src/Engine/Wild.antt =====
-- src/engine.ts: `doWildEncounter`.
use pokeage.Prelude.{
  ℕ, ◌+◌, ◌-◌, Bool, true, false, Option, none, some, get_elem?, set, ltb, if◌then◌else◌,
}
use pokeage.Num.{Num}
use pokeage.Types.{MonsterTemplate, MonsterInstance, Town, Route, Trainer, AgentState}
use pokeage.Constants.{encounter_rate_mult, flee_level_gap}
use pokeage.Rng.{Rng, next}
use pokeage.Team.{place_new_monster, should_catch}
use pokeage.Catch.{attempt_catch}
use pokeage.Battle.{simulate_auto}
use pokeage.Encounter.{generate_wild_monster}
use pokeage.Engine.State.{
  World, EngineOptions, Engine, EncounterResult, heal_team, find_lead, route_by_id,
}
use pokeage.Engine.Rewards.{reward_lead}

abbrev pub no_encounter : {F : Type 0} → EncounterResult F
no_encounter = record {
  encountered = false;
  wild = none;
  won = none;
  caught = none;
  xp_gained = none;
}

module _ {F : Type 0} ⦃n : Num F⦄ where
  open n use {of_ℕ}

  -- The throw at a beaten wild: whether it is caught, and the trainer and generator afterwards.
  unfoldable pub throw_ball : Trainer F → MonsterInstance F → Rng → Bool × Trainer F × Rng
  throw_ball t wild rng =
      let (cr, rng') = attempt_catch wild (of_ℕ 1) rng in
      let t' : Trainer F = record t { ball = t.ball - cr.balls_used } in
      let placed = (place_new_monster t' wild).0 in
      if should_catch t wild
      then (if cr.caught
          then (true, record placed { total_caught = placed.total_caught + 1 }, rng')
          else (false, t', rng'))
      else (false, t, rng)

module _ {F : Type 0} ⦃n : Num F⦄ (get_template : ℕ → Option MonsterTemplate)
    (opts : EngineOptions F) where
  open n use {of_ℕ, mul, lt}

  -- The fight against a wild that the agent does not flee from; the lead is at index `i`.
  unfoldable pub fight_wild :
      ℕ → MonsterInstance F → MonsterInstance F → Engine F → EncounterResult F × Engine F
  fight_wild i lead wild e =
      let (result, rng) = simulate_auto lead wild e.rng in
      let hurt : MonsterInstance F = record lead { current_hp = result.hp_remaining } in
      let t : Trainer F = record e.trainer { total_battles = e.trainer.total_battles + 1 } in
      let (paid, xp) = reward_lead get_template opts hurt wild.level in
      let (caught, t', rng') = throw_ball (record t { team = set t.team i paid }) wild rng in
      if result.won
      then (
        record {
          encountered = true;
          wild = some wild;
          won = some true;
          caught = some caught;
          xp_gained = some xp;
        },
        record {
          state = AgentState.battling;
          gym_cooldown = e.gym_cooldown;
          trainer = t';
          rng = rng';
        },
      )
      else (
        record {
          encountered = true;
          wild = some wild;
          won = some false;
          caught = some false;
          xp_gained = some 0;
        },
        record {
          state = AgentState.battling;
          gym_cooldown = e.gym_cooldown;
          trainer = record t { team = set t.team i hurt };
          rng = rng;
        },
      )

  -- The encounter once a wild is there.
  unfoldable pub meet_wild : MonsterInstance F → Engine F → EncounterResult F × Engine F
  meet_wild wild e = elim (find_lead 0 e.trainer.team) [
    | none ↦ (no_encounter, heal_team e)
    | some (i, lead) ↦
        if ltb (lead.level + flee_level_gap) wild.level
        then (
          record {
            encountered = true;
            wild = some wild;
            won = none;
            caught = none;
            xp_gained = none;
          },
          record e { state = AgentState.idle },
        )
        else fight_wild i lead wild e
  ]

  -- The roll for an encounter has been passed.
  unfoldable pub search_route : Route F → Engine F → EncounterResult F × Engine F
  search_route route e =
      let (found, rng) = generate_wild_monster route get_template opts.buffs e.rng in
      elim found [
        | none ↦ (no_encounter, record e { rng = rng })
        | some wild ↦ meet_wild wild (record e { rng = rng })
      ]

  unfoldable pub do_wild_encounter : World F → Town → Bool → Engine F → EncounterResult F × Engine F
  do_wild_encounter world town forced e = elim (get_elem? town.routes 0) [
    | none ↦ (no_encounter, e)
    | some id ↦ elim (route_by_id world id) [
      | none ↦ (no_encounter, e)
      | some route ↦
          let hunting : Engine F = record e { state = AgentState.hunting } in
          let (u, rng) = next e.rng in
          let rolled : Engine F = record hunting { rng = rng } in
          if forced
          then search_route route hunting
          else if lt (mul route.encounter_rate (of_ℕ encounter_rate_mult)) u
          then (no_encounter, rolled)
          else search_route route rolled
    ]
  ]
