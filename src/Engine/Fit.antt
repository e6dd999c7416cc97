-- ===== src/Engine/Fit.antt =====
-- src/engine.ts: a predicate on every monster along the steps of a hunt.
use pokeage.Prelude.{
  ℕ, ◌+◌, ◌-◌, ◌<◌, ◌≡◌, some, inl, inr, arith, Bool, Option, List, [], ◌∷◌, map, set, get_elem?,
  All, Bool-cases, Option-cases, ltb,
}
use pokeage.Num.{Num}
use pokeage.Types.{MonsterTemplate, MonsterInstance, Trainer, Gym, Route, Town, AgentState}
use pokeage.Constants.{flee_level_gap, encounter_rate_mult}
use pokeage.Rng.{Rng, next, chance}
use pokeage.Catch.{attempt_catch, catch_rate}
use pokeage.Team.{should_catch}
use pokeage.Team.Place.{place_new_monster-Placement}
use pokeage.Affection.{add_affection}
use pokeage.Progression.{grant_xp}
use pokeage.Battle.{simulate_auto}
use pokeage.Battle.Auto.{simulate_auto_outcome}
use pokeage.Encounter.{EncounterBuffs, generate_wild_monster}
use pokeage.Engine.State.{Engine, EngineOptions, World, find_lead, route_by_id}
use pokeage.Engine.Rewards.{reward_lead, reward_member, grant_known}
use pokeage.Engine.Wild.{throw_ball, fight_wild, meet_wild, search_route, do_wild_encounter}
use pokeage.Engine.Health.{
  Lasts, Lasts-and, Everybody, All-set, Placement-Everybody, find_lead_lem, heal_team-Everybody,
}

-- A predicate on monsters that all of the agent's dealings with one keep, and that the wilds of the
-- routes have.
pub record Keeps {F : Type 0} ⦃n : Num F⦄ (get_template : ℕ → Option MonsterTemplate)
    (P : MonsterInstance F → Type 0) : Type 0 where
  pub lasts : Lasts P
  pub grows :
      (m : MonsterInstance F) (amount : ℕ) (template : MonsterTemplate)
      → get_template m.template_id ≡ some template
      → P m
      → P (grant_xp F m amount template).0
  pub bonds : (m : MonsterInstance F) (gain : F) → P m → P (add_affection m gain).0
  pub fresh :
      (route : Route F) (wild : MonsterInstance F) (buffs : EncounterBuffs F) (rng : Rng)
      → (generate_wild_monster route get_template buffs rng).0 ≡ some wild
      → P wild

pub Keeps-and :
    {F : Type 0} ⦃n : Num F⦄ {get_template : ℕ → Option MonsterTemplate}
    {P Q : MonsterInstance F → Type 0}
    → Keeps get_template P
    → Keeps get_template Q
    → Keeps get_template (λ m. P m × Q m)
Keeps-and p q = record {
  lasts = Lasts-and p.lasts q.lasts;
  grows = λ m amount template known h.
      (p.grows m amount template known h.0, q.grows m amount template known h.1);
  bonds = λ m gain h. (p.bonds m gain h.0, q.bonds m gain h.1);
  fresh = λ route wild buffs rng found.
      (p.fresh route wild buffs rng found, q.fresh route wild buffs rng found);
}

module _ {F : Type 0} ⦃n : Num F⦄ (get_template : ℕ → Option MonsterTemplate)
    (opts : EngineOptions F) {P : MonsterInstance F → Type 0} (keeps : Keeps get_template P) where
  grant_known-keeps :
      (amount : ℕ) (m : MonsterInstance F) → P m → P (grant_known get_template opts amount m)
  grant_known-keeps amount m h = elim (Option-cases (get_template m.template_id)) [
    | inl unknown ↦ rw (unknown, grant_known) h
    | inr (tpl, known) ↦ rw (known, grant_known) (keeps.grows m amount tpl known h)
  ]

  reward_lead-keeps :
      (lead : MonsterInstance F) (wild_level : ℕ)
      → P lead
      → P (reward_lead get_template opts lead wild_level).0
  unfolding reward_lead
  reward_lead-keeps lead wild_level h = grant_known-keeps _ _ (keeps.bonds lead _ h)

  pub All-reward :
      (gym : Gym) (ms : List (MonsterInstance F))
      → All P ms
      → All P (map (reward_member get_template opts gym) ms)
  All-reward gym [] h = tt
  All-reward gym (m ∷ ms) h = (grant_known-keeps _ m h.0, All-reward gym ms h.1)

  throw_ball-Everybody :
      (t : Trainer F) (wild : MonsterInstance F) (rng : Rng)
      → Everybody P t
      → P wild
      → Everybody P (throw_ball t wild rng).1
  unfolding throw_ball attempt_catch
  throw_ball-Everybody t wild rng f h =
      let used : Trainer F = record t { ball = t.ball - 1 } in
      let placed =
        Placement-Everybody (place_new_monster-Placement used wild)
          (record { team = f.team; box = f.box }) h in
      elim (Bool-cases (should_catch t wild)) [
        | inl wanted ↦ rw wanted (elim (Bool-cases (chance (catch_rate wild (n.of_ℕ 1)) rng).0) [
          | inl hit ↦ rw hit (record { team = placed.team; box = placed.box })
          | inr miss ↦ rw miss (record { team = f.team; box = f.box })
        ])
        | inr unwanted ↦ rw unwanted f
      ]

  fight_wild-Everybody :
      (i : ℕ) (lead wild : MonsterInstance F) (e : Engine F)
      → Everybody P e.trainer
      → 0 < lead.current_hp
      → P lead
      → P wild
      → Everybody P (fight_wild get_template opts i lead wild e).1.trainer
  unfolding fight_wild
  fight_wild-Everybody i lead wild e f up hl hw =
      let (result, rng) = simulate_auto lead wild e.rng in
      let (d, _, _, _, left, le, _, _) =
        simulate_auto_outcome lead wild e.rng (omega (arith, up)) in
      let hurt : MonsterInstance F = record lead { current_hp = result.hp_remaining } in
      let hh : P hurt = keeps.lasts.hurt lead result.hp_remaining (omega (arith, left, le)) hl in
      let paid = (reward_lead get_template opts hurt wild.level).0 in
      let won_t : Trainer F = record e.trainer {
        team = set e.trainer.team i paid;
        total_battles = e.trainer.total_battles + 1;
      } in
      elim (Bool-cases result.won) [
        | inl won ↦ rw won (
            throw_ball-Everybody won_t wild rng
              (record {
                team =
                    All-set P e.trainer.team i paid f.team (reward_lead-keeps hurt wild.level hh);
                box = f.box;
              })
              hw)
        | inr lost ↦
            rw lost (record { team = All-set P e.trainer.team i hurt f.team hh; box = f.box })
      ]

  meet_wild-Everybody :
      (wild : MonsterInstance F) (e : Engine F)
      → Everybody P e.trainer
      → P wild
      → Everybody P (meet_wild get_template opts wild e).1.trainer
  unfolding meet_wild
  meet_wild-Everybody wild e f h = elim (Option-cases (find_lead 0 e.trainer.team)) [
    | inl none_up ↦ rw (none_up, meet_wild) (heal_team-Everybody e keeps.lasts f)
    | inr (found, up) ↦
        rw (up, meet_wild)
          (elim (Bool-cases (ltb (found.1.level + flee_level_gap) wild.level)) [
            | inl strong ↦ rw strong f
            | inr weak ↦
                let (stands, fit) = find_lead_lem P 0 e.trainer.team found f.team up in
                rw weak (fight_wild-Everybody found.0 found.1 wild e f stands fit h)
          ])
  ]

  search_route-Everybody :
      (route : Route F) (e : Engine F)
      → Everybody P e.trainer
      → Everybody P (search_route get_template opts route e).1.trainer
  unfolding search_route
  search_route-Everybody route e f =
      let found = generate_wild_monster route get_template opts.buffs e.rng in
      elim (Option-cases found.0) [
        | inl nobody ↦ rw (nobody, search_route) f
        | inr (wild, there) ↦
            let fresh = keeps.fresh route wild opts.buffs e.rng there in
            rw (there, search_route) (meet_wild-Everybody wild (record e { rng = found.1 }) f fresh)
      ]

  pub do_wild_encounter-Everybody :
      (world : World F) (town : Town) (forced : Bool) (e : Engine F)
      → Everybody P e.trainer
      → Everybody P (do_wild_encounter get_template opts world town forced e).1.trainer
  unfolding do_wild_encounter
  do_wild_encounter-Everybody world town forced e f =
      let hunting : Engine F = record e { state = AgentState.hunting } in
      elim (Option-cases (get_elem? town.routes 0)) [
        | inl no_route ↦ rw (no_route, do_wild_encounter) f
        | inr (id, first) ↦
            rw (first, do_wild_encounter)
              (elim (Option-cases (route_by_id world id)) [
                | inl unknown ↦ rw (unknown, do_wild_encounter) f
                | inr (route, known) ↦
                    rw (known, do_wild_encounter)
                      (elim (Bool-cases forced) [
                        | inl now ↦ rw now (search_route-Everybody route hunting f)
                        | inr later ↦
                            rw later
                              (elim (Bool-cases (
                                n.lt (n.mul route.encounter_rate (n.of_ℕ encounter_rate_mult))
                                  (next {F = F} e.rng).0)) [
                                    | inl no_luck ↦ rw no_luck f
                                    | inr luck ↦ rw luck (
                                        search_route-Everybody route
                                          (record hunting { rng = (next {F = F} e.rng).1 }) f)
                                  ])
                      ])
              ])
      ]
