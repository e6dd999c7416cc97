-- ===== src/Engine/Hunt.antt =====
-- src/engine.ts: what an encounter does to the trainer.
use pokeage.Prelude.{
  ℕ, ◌+◌, inl, inr, Bool, Option, get_elem?, if◌then◌else◌, Bool-cases, Option-cases, ltb,
}
use pokeage.Num.{Num}
use pokeage.Types.{MonsterTemplate, MonsterInstance, Route, Town, AgentState}
use pokeage.Rng.{next}
use pokeage.Constants.{flee_level_gap, encounter_rate_mult}
use pokeage.Encounter.{generate_wild_monster}
use pokeage.Engine.State.{route_by_id, Engine, EngineOptions, World, find_lead}
use pokeage.Engine.Wild.{meet_wild, search_route, do_wild_encounter, no_encounter}
use pokeage.Engine.Roster.{Hunts, catches, stays, heal_team-Hunts, fight_wild-Hunts}

module _ {F : Type 0} ⦃n : Num F⦄ where
  meet_wild-Hunts :
      (get_template : ℕ → Option MonsterTemplate) (opts : EngineOptions F)
      (wild : MonsterInstance F) (e : Engine F)
      → let (enc, e') = meet_wild get_template opts wild e in
        Hunts (catches enc.caught) e.trainer e'.trainer
  unfolding meet_wild
  meet_wild-Hunts get_template opts wild e = elim (Option-cases (find_lead 0 e.trainer.team)) [
    | inl none_up ↦ rw (none_up, meet_wild) (heal_team-Hunts e)
    | inr (found, up) ↦
        rw (up, meet_wild)
          (elim (Bool-cases (ltb (found.1.level + flee_level_gap) wild.level)) [
            | inl strong ↦ rw (strong, meet_wild) (stays e.trainer)
            | inr weak ↦
                rw (weak, meet_wild) (fight_wild-Hunts get_template opts found.0 found.1 wild e)
          ])
  ]

  search_route-Hunts :
      (get_template : ℕ → Option MonsterTemplate) (opts : EngineOptions F) (route : Route F)
      (e : Engine F)
      → let (enc, e') = search_route get_template opts route e in
        Hunts (catches enc.caught) e.trainer e'.trainer
  unfolding search_route
  search_route-Hunts get_template opts route e =
      elim (Option-cases (generate_wild_monster route get_template opts.buffs e.rng).0) [
        | inl nobody ↦ rw (nobody, search_route) (stays e.trainer)
        | inr (wild, found) ↦
            rw (found, search_route)
              (meet_wild-Hunts get_template opts wild
                (record e { rng = (generate_wild_monster route get_template opts.buffs e.rng).1 }))
      ]

  pub do_wild_encounter-Hunts :
      (get_template : ℕ → Option MonsterTemplate) (opts : EngineOptions F) (world : World F)
      (town : Town) (forced : Bool) (e : Engine F)
      → let (enc, e') = do_wild_encounter get_template opts world town forced e in
        Hunts (catches enc.caught) e.trainer e'.trainer
  unfolding do_wild_encounter
  do_wild_encounter-Hunts get_template opts world town forced e =
      elim (Option-cases (get_elem? town.routes 0)) [
        | inl no_route ↦ rw (no_route, do_wild_encounter) (stays e.trainer)
        | inr (id, first) ↦
            rw (first, do_wild_encounter)
              (elim (Option-cases (route_by_id world id)) [
                | inl unknown ↦ rw (unknown, do_wild_encounter) (stays e.trainer)
                | inr (route, known) ↦ rw (known, do_wild_encounter) (roll route)
              ])
      ]
    where
      roll :
          (route : Route F)
          → let hunting : Engine F = record e { state = AgentState.hunting } in
            let rolled : Engine F = record hunting { rng = (next {F = F} e.rng).1 } in
            let (enc, e') =
              (if forced
                then search_route get_template opts route hunting
                else if n.lt
                    (n.mul route.encounter_rate (n.of_ℕ encounter_rate_mult))
                    (next e.rng).0
                then (no_encounter, rolled)
                else search_route get_template opts route rolled) in
            Hunts (catches enc.caught) e.trainer e'.trainer
      roll route =
          let hunting : Engine F = record e { state = AgentState.hunting } in
          let rolled : Engine F = record hunting { rng = (next {F = F} e.rng).1 } in
          elim (Bool-cases forced) [
            | inl now ↦ rw now (search_route-Hunts get_template opts route hunting)
            | inr later ↦
                rw later
                  (elim (Bool-cases (
                    n.lt (n.mul route.encounter_rate (n.of_ℕ encounter_rate_mult))
                      (next e.rng).0)) [
                        | inl no_luck ↦ rw no_luck (stays e.trainer)
                        | inr luck ↦ rw luck (search_route-Hunts get_template opts route rolled)
                      ])
          ]
