-- ===== src/Team.antt =====
-- src/team.ts: team and box placement, and the catch decision.
pub mod Place
pub mod Conserve
pub mod Weakest
pub mod Decide
use pokeage.Prelude.{
  ℕ, ◌+◌, ◌-◌, ◌<◌, Bool, true, false, not, ◌&&◌, ◌||◌, Option, none, some, List, [], ◌∷◌, ◌++◌,
  length, get_elem?, remove_at, keep_if, any, ltb, leb, ◌==◌, if◌then◌else◌,
}
use pokeage.Types.{Rarity, MonsterInstance, Trainer}
use pokeage.Typechart.{type_eq}
use pokeage.Power.{get_monster_power, weakest_of}
use pokeage.Constants.{party_size, box_size, same_type_limit}

pub data Where : Type 0 where
  party box nowhere : Where

pub record PlacementResult (F : Type 0) : Type 0 where
  pub placed : Bool
  pub place : Where
  pub released : Option (MonsterInstance F)

abbrev pub is_off : Option Bool → Bool
is_off (some false) = true
is_off _ = false

abbrev pub is_rare_or_legend : Option Rarity → Bool
is_rare_or_legend (some Rarity.rare) = true
is_rare_or_legend (some Rarity.legendary) = true
is_rare_or_legend _ = false

module _ {F : Type 0} where
  -- The `forEach` that looks for the first weakest: the index and power found so far.
  unfoldable pub weak_loop : List (MonsterInstance F) → ℕ → ℕ → ℕ → ℕ × ℕ
  weak_loop [] i weak_idx weak_power = (weak_idx, weak_power)
  weak_loop (m ∷ ms) i weak_idx weak_power =
      let p = get_monster_power m in
      let lower = ltb p weak_power in
      weak_loop ms (i + 1) (if lower then i else weak_idx) (if lower then p else weak_power)

  -- `all` is never empty where it is called: the party is full.
  unfoldable pub weak_scan : List (MonsterInstance F) → ℕ × ℕ
  weak_scan [] = (0, 0)
  weak_scan (m ∷ ms) = weak_loop (m ∷ ms) 0 0 (get_monster_power m)

  abbrev pub placed_in : Where → Option (MonsterInstance F) → PlacementResult F
  placed_in place released = record { placed = true; place = place; released = released }

  unfoldable pub place_new_monster : Trainer F → MonsterInstance F → Trainer F × PlacementResult F
  place_new_monster trainer new_mon =
      let (weak_idx, weak_power) = weak_scan (trainer.team ++ trainer.box) in
      let box_idx = weak_idx - length trainer.team in
      if ltb (length trainer.team) party_size
      then (record trainer { team = trainer.team ++ (new_mon ∷ []) }, placed_in party none)
      else if ltb (length trainer.box) box_size
      then (record trainer { box = trainer.box ++ (new_mon ∷ []) }, placed_in box none)
      else if leb (get_monster_power new_mon) weak_power
      then (trainer, record { placed = false; place = nowhere; released = none })
      else if ltb weak_idx (length trainer.team)
      then (
        record trainer { team = remove_at trainer.team weak_idx ++ (new_mon ∷ []) },
        placed_in party (get_elem? trainer.team weak_idx),
      )
      else (
        record trainer { box = remove_at trainer.box box_idx ++ (new_mon ∷ []) },
        placed_in box (get_elem? trainer.box box_idx),
      )

  abbrev pub has_template : ℕ → List (MonsterInstance F) → Bool
  has_template id = any λ m. m.template_id == id

  abbrev pub is_upgrade : List (MonsterInstance F) → MonsterInstance F → Bool
  is_upgrade all wild = elim (weakest_of all) [
    | none ↦ true
    | some weakest ↦ ltb (get_monster_power weakest) (get_monster_power wild)
  ]

  unfoldable pub should_catch : Trainer F → MonsterInstance F → Bool
  should_catch trainer wild =
      let strat = trainer.strategy in
      let rare_override = is_rare_or_legend wild.rarity && not (is_off strat.prioritize_rare) in
      let type_allowed = not (is_off (strat.catch_types wild.type)) in
      let same_type_count = length (keep_if (λ m. type_eq m.type wild.type) trainer.team) in
      let type_slot_open = ltb same_type_count same_type_limit in
      let has_dup =
        has_template wild.template_id trainer.team || has_template wild.template_id trainer.box in
      let all = trainer.team ++ trainer.box in
      let roster_has_room = ltb (length all) (party_size + box_size) in
      if is_off strat.catch_enabled
      then false
      else if trainer.ball == 0
      then false
      else if has_dup
      then false
      else if not (rare_override || (type_allowed && type_slot_open))
      then false
      else roster_has_room || is_upgrade all wild
