-- ===== src/Engine/State.antt =====
-- src/engine.ts: the engine's state, its look-ups and the moves that every decision shares.
use text.Mathlib.Text
use pokeage.Prelude.{
  ℕ, ◌+◌, Bool, Option, none, some, List, [], ◌∷◌, String, map, any, find?, ltb, if◌then◌else◌,
}
use pokeage.Types.{MonsterInstance, Town, Route, Trainer, AgentState, Action}
use pokeage.Rng.{Rng, default_rng}
use pokeage.Encounter.{EncounterBuffs}

-- `a === b` on strings.
abbrev pub same : String → String → Bool
same a b = Text.◌==◌ a b

abbrev pub has_badge : String → List String → Bool
has_badge badge = any (same badge)

-- An optional string that is empty is falsy.
abbrev pub given : Option String → Option String
given none = none
given (some s) = if same s "" then none else some s

pub record World (F : Type 0) : Type 0 where
  pub towns : List Town
  pub routes : List (Route F)

pub record EngineOptions (F : Type 0) : Type 0 where
  pub buffs : EncounterBuffs F
  pub xp_buff : Option F

pub record Engine (F : Type 0) : Type 0 where
  pub state : AgentState
  pub gym_cooldown : ℕ
  pub trainer : Trainer F
  pub rng : Rng

-- `new Engine(trainer, world, getTemplate, { rng })`.
unfoldable pub new_engine : {F : Type 0} → Trainer F → Option Rng → Engine F
new_engine trainer rng = record {
  state = AgentState.idle;
  gym_cooldown = 0;
  trainer = trainer;
  rng = elim rng [ none ↦ default_rng | some r ↦ r ];
}

pub record EncounterResult (F : Type 0) : Type 0 where
  pub encountered : Bool
  pub wild : Option (MonsterInstance F)
  pub won : Option Bool
  pub caught : Option Bool
  pub xp_gained : Option ℕ

pub record TickResult (F : Type 0) : Type 0 where
  pub state : AgentState
  pub action : Action
  pub detail : Option String
  pub encounter : Option (EncounterResult F)

module _ {F : Type 0} where
  abbrev pub is_up : MonsterInstance F → Bool
  is_up m = ltb 0 m.current_hp

  abbrev pub heal : MonsterInstance F → MonsterInstance F
  heal m = record m { current_hp = m.stats.hp }

  abbrev pub with_team : List (MonsterInstance F) → Engine F → Engine F
  with_team team e = record e { trainer = record e.trainer { team = team } }

  unfoldable pub heal_team : Engine F → Engine F
  heal_team e = record (with_team (map heal e.trainer.team) e) { state = AgentState.healing }

  unfoldable pub move_to_town : Town → Engine F → Engine F
  move_to_town town e =
      heal_team
        (record e { state = AgentState.moving; trainer = record e.trainer { location = town.id } })

  -- The standing members, which `party` aliases, take the party's new states in turn.
  unfoldable pub write_back :
      List (MonsterInstance F) → List (MonsterInstance F) → List (MonsterInstance F)
  write_back [] ps = []
  write_back (m ∷ ms) [] = m ∷ ms
  write_back (m ∷ ms) (p ∷ ps) =
      let used = write_back ms ps in
      let kept = write_back ms (p ∷ ps) in if is_up m then p ∷ used else m ∷ kept

  -- The first standing member with its index, counted from `i`.
  abbrev pub find_lead : ℕ → List (MonsterInstance F) → Option (ℕ × MonsterInstance F)
  find_lead i [] = none
  find_lead i (m ∷ ms) = let rest = find_lead (i + 1) ms in if is_up m then some (i, m) else rest

module _ {F : Type 0} (world : World F) where
  abbrev pub town_by_id : String → Option Town
  town_by_id id = find? (λ t. same t.id id) world.towns

  abbrev pub route_by_id : String → Option (Route F)
  route_by_id id = find? (λ r. same r.id id) world.routes
