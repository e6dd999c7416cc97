-- ===== src/Engine/Draws.antt =====
-- src/engine.ts: the generator after an encounter and a challenge.
pub mod Ticks
use pokeage.Prelude.{
  ℕ, ◌+◌, inl, inr, Bool, Option, none, some, take, keep_if, get_elem?, ltb, if◌then◌else◌,
  Bool-cases, Option-cases,
}
use pokeage.Num.{Num}
use pokeage.Constants.{flee_level_gap, encounter_rate_mult}
use pokeage.Types.{MonsterTemplate, MonsterInstance, Route, Gym, Town, Trainer, AgentState}
use pokeage.Rng.{Rng, next, chance}
use pokeage.Rng.Drawn.{IsDrawn, IsDrawn-refl, IsDrawn-trans, chance-IsDrawn, next-IsDrawn}
use pokeage.Catch.{attempt_catch, catch_rate}
use pokeage.Team.{should_catch}
use pokeage.Battle.{simulate_auto, simulate_gym}
use pokeage.Battle.Draws.{simulate_auto-IsDrawn, simulate_gym-IsDrawn}
use pokeage.Encounter.{generate_wild_monster}
use pokeage.Encounter.Draws.{generate_wild_monster-IsDrawn}
use pokeage.Engine.State.{World, Engine, EngineOptions, is_up, find_lead, heal_team, route_by_id}
use pokeage.Engine.Wild.{throw_ball, fight_wild, meet_wild, search_route, do_wild_encounter}
use pokeage.Engine.Challenge.{do_gym_challenge}

-- The generator of an outcome, if it is there.
abbrev pub Draws : {F A : Type 0} → Rng → Option (A × Engine F) → Type 0
Draws r none = Unit
Draws r (some (result, e')) = IsDrawn r e'.rng

module _ {F : Type 0} ⦃n : Num F⦄ where
  throw_ball-IsDrawn :
      (t : Trainer F) (wild : MonsterInstance F) (r : Rng) → IsDrawn r (throw_ball t wild r).2
  unfolding throw_ball attempt_catch
  throw_ball-IsDrawn t wild r =
      let rate = catch_rate wild (n.of_ℕ 1) in
      elim (Bool-cases (should_catch t wild)) [
        | inr left ↦ rw left (IsDrawn-refl r)
        | inl wanted ↦ rw wanted (elim (Bool-cases (chance rate r).0) [
          | inl hit ↦ rw hit (chance-IsDrawn rate r)
          | inr miss ↦ rw miss (chance-IsDrawn rate r)
        ])
      ]

module _ {F : Type 0} ⦃n : Num F⦄ (get_template : ℕ → Option MonsterTemplate)
    (opts : EngineOptions F) where
  fight_wild-IsDrawn :
      (i : ℕ) (lead wild : MonsterInstance F) (e : Engine F)
      → IsDrawn e.rng (fight_wild get_template opts i lead wild e).1.rng
  unfolding fight_wild
  fight_wild-IsDrawn i lead wild e =
      let fought = simulate_auto-IsDrawn lead wild e.rng in
      elim (Bool-cases (simulate_auto lead wild e.rng).0.won) [
        | inl won ↦ rw won (
            IsDrawn-trans _ _ _ fought
              (throw_ball-IsDrawn _ wild (simulate_auto lead wild e.rng).1))
        | inr lost ↦ rw lost fought
      ]

  meet_wild-IsDrawn :
      (wild : MonsterInstance F) (e : Engine F)
      → IsDrawn e.rng (meet_wild get_template opts wild e).1.rng
  unfolding meet_wild heal_team
  meet_wild-IsDrawn wild e = elim (Option-cases (find_lead 0 e.trainer.team)) [
    | inl nobody ↦ rw (nobody, meet_wild) (IsDrawn-refl e.rng)
    | inr ((i, lead), found) ↦
        rw (found, meet_wild)
          (elim (Bool-cases (ltb (lead.level + flee_level_gap) wild.level)) [
            | inl flees ↦ rw flees (IsDrawn-refl e.rng)
            | inr fights ↦ rw fights (fight_wild-IsDrawn i lead wild e)
          ])
  ]

  search_route-IsDrawn :
      (route : Route F) (e : Engine F)
      → IsDrawn e.rng (search_route get_template opts route e).1.rng
  unfolding search_route
  search_route-IsDrawn route e =
      let (found, r) = generate_wild_monster route get_template opts.buffs e.rng in
      let searched = generate_wild_monster-IsDrawn route get_template opts.buffs e.rng in
      elim (Option-cases found) [
        | inl nothing ↦ rw (nothing, search_route) searched
        | inr (wild, there) ↦
            rw (there, search_route)
              (IsDrawn-trans _ _ _ searched (meet_wild-IsDrawn wild (record e { rng = r })))
      ]

  pub do_wild_encounter-IsDrawn :
      (world : World F) (town : Town) (forced : Bool) (e : Engine F)
      → IsDrawn e.rng (do_wild_encounter get_template opts world town forced e).1.rng
  unfolding do_wild_encounter
  do_wild_encounter-IsDrawn world town forced e =
      let hunting : Engine F = record e { state = AgentState.hunting } in
      let rolled : Engine F = record hunting { rng = (next {F = F} e.rng).1 } in
      let drawn = next-IsDrawn F e.rng in
      elim (Option-cases (get_elem? town.routes 0)) [
        | inl no_route ↦ rw (no_route, do_wild_encounter) (IsDrawn-refl e.rng)
        | inr (id, first) ↦
            rw (first, do_wild_encounter)
              (elim (Option-cases (route_by_id world id)) [
                | inl unknown ↦ rw unknown (IsDrawn-refl e.rng)
                | inr (route, known) ↦ rw known (elim (Bool-cases forced) [
                  | inl now ↦ rw now (search_route-IsDrawn route hunting)
                  | inr later ↦
                      rw later
                        (elim (Bool-cases (
                          n.lt (n.mul route.encounter_rate (n.of_ℕ encounter_rate_mult))
                            (next e.rng).0)) [
                              | inl no_luck ↦ rw no_luck drawn
                              | inr luck ↦
                                  rw luck
                                    (IsDrawn-trans _ _ _ drawn (search_route-IsDrawn route rolled))
                            ])
                ])
              ])
      ]

  pub do_gym_challenge-Draws :
      (gym : Gym) (e : Engine F) → Draws e.rng (do_gym_challenge get_template opts gym e)
  unfolding do_gym_challenge
  do_gym_challenge-Draws gym e =
      let party = take 4 (keep_if is_up e.trainer.team) in
      elim (Option-cases (simulate_gym party gym.team get_template e.rng)) [
        | inl stuck ↦ rw (stuck, do_gym_challenge) tt
        | inr ((result, r), returns) ↦
            let played = simulate_gym-IsDrawn party gym.team get_template e.rng r result returns in
            rw (returns, do_gym_challenge)
              (elim (Bool-cases result.won) [ inl won ↦ rw won played | inr lost ↦ rw lost played ])
      ]
