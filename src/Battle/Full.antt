-- ===== src/Battle/Full.antt =====
-- src/battle.ts: `simulateBattle`, the fight with moves, critical hits, the per-hit cap and the log.
-- Multipliers of the type chart are in halves.
use pokeage.Prelude.{
  ℕ, zero, suc, ◌+◌, ◌-◌, max, min, Bool, true, false, ◌&&◌, ◌||◌, Option, none, some, List, [],
  ◌∷◌, ◌++◌, String, leb, ltb, ◌==◌, if◌then◌else◌,
}
use pokeage.Num.{Num, ratio}
use pokeage.Types.{MonsterType, Move, MonsterInstance}
use pokeage.Constants.{battle_turn_cap}
use pokeage.Rng.{Rng, next, chance}
use pokeage.Typechart.{type_eq, get_type_multiplier}
use pokeage.Damage.{DamageRoll, calc_damage}
use pokeage.Moves.{pick_move}
use pokeage.Status.{max_hp}

pub data Side : Type 0 where
  me foe : Side

pub record BattleEvent : Type 0 where
  pub who : Side
  pub atk_name : String
  pub move : String
  pub move_type : Option MonsterType
  pub dmg : ℕ
  pub type_mod : ℕ
  pub crit : Option Bool
  pub miss : Option Bool
  pub status : Option String
  pub my_hp : ℕ
  pub foe_hp : ℕ

-- The fighters, which `pickMove` gives their moves, the hit points, the log and the generator.
pub record BattleState (F : Type 0) : Type 0 where
  pub my_mon : MonsterInstance F
  pub foe_mon : MonsterInstance F
  pub my_hp : ℕ
  pub foe_hp : ℕ
  pub events : List BattleEvent
  pub rng : Rng

pub record BattleResult : Type 0 where
  pub won : Bool
  pub my_hp : ℕ
  pub foe_hp : ℕ
  pub turns_used : ℕ
  pub events : List BattleEvent

abbrev pub max_of : Side → ℕ → ℕ → ℕ
max_of me my_max foe_max = foe_max
max_of foe my_max foe_max = my_max

module _ (F : Type 0) ⦃n : Num F⦄ where
  open n use {of_ℕ, mul, lt, ceil}

  -- The most that one hit takes from a monster with these maximal hit points.
  abbrev pub hit_cap : ℕ → ℕ → ℕ
  hit_cap max_hp_def type_mod =
      ceil (mul (of_ℕ max_hp_def) (if leb 4 type_mod then ratio 4 10 else ratio 3 10))

  -- The status that a hit lands. Without one to land nothing is drawn.
  unfoldable pub landed_status : Move → Rng → Option String × Rng
  landed_status mv rng = elim mv.status [
    | none ↦ (none, rng)
    | some status ↦
        let (u, rng') = next {F = F} rng in
        if mv.eff_chance == 0
        then (none, rng)
        else if lt (mul u (of_ℕ 100)) (of_ℕ mv.eff_chance)
        then (some status, rng')
        else (none, rng')
  ]

module _ {F : Type 0} ⦃n : Num F⦄ where
  open n use {of_ℕ, mul, div, lt, le, floor}

  -- The damage of a hit after all multipliers and the cap.
  unfoldable pub capped_damage : MonsterInstance F → Move → DamageRoll → Bool → ℕ → ℕ
  capped_damage atk mv roll crit max_hp_def =
      let stab : F = if type_eq mv.type atk.type then ratio 15 10 else of_ℕ 1 in
      let crit_mult : F = if crit then ratio 15 10 else of_ℕ 1 in
      let dmg = floor (mul (mul (of_ℕ roll.dmg) stab) crit_mult) in
      max 1 (min dmg (hit_cap F max_hp_def roll.type_mod))

  abbrev pub attacker_of : Side → BattleState F → MonsterInstance F
  attacker_of me s = s.my_mon
  attacker_of foe s = s.foe_mon

  abbrev pub defender_of : Side → BattleState F → MonsterInstance F
  defender_of me s = s.foe_mon
  defender_of foe s = s.my_mon

  abbrev pub with_attacker : Side → MonsterInstance F → BattleState F → BattleState F
  with_attacker me m s = record s { my_mon = m }
  with_attacker foe m s = record s { foe_mon = m }

  abbrev pub hurt : Side → ℕ → BattleState F → BattleState F
  hurt me dmg s = record s { foe_hp = s.foe_hp - dmg }
  hurt foe dmg s = record s { my_hp = s.my_hp - dmg }

  -- A move that missed, in the log.
  abbrev pub missed : Side → MonsterInstance F → Move → ℕ → Rng → BattleState F → BattleState F
  missed who atk mv type_mod rng s = record s {
    rng = rng;
    events =
        s.events
        ++ (record {
          who = who;
          atk_name = atk.name;
          move = mv.name;
          move_type = none;
          dmg = 0;
          type_mod = type_mod;
          crit = none;
          miss = some true;
          status = none;
          my_hp = s.my_hp;
          foe_hp = s.foe_hp;
        }
            ∷ []);
  }

  -- A move that hits.
  unfoldable pub hit : ℕ → ℕ → Side → MonsterInstance F → Move → Rng → BattleState F → BattleState F
  hit my_max foe_max who atk mv rng s =
      let (roll, rng1) = calc_damage atk (defender_of who s) mv.power rng in
      let (crit, rng2) = chance (ratio {F = F} 625 10000) rng1 in
      let dmg = capped_damage atk mv roll crit (max_of who my_max foe_max) in
      let (status, rng3) = landed_status F mv rng2 in
      let s' = hurt who dmg s in
      record s' {
        rng = rng3;
        events =
            s'.events
            ++ (record {
              who = who;
              atk_name = atk.name;
              move = mv.name;
              move_type = some mv.type;
              dmg = dmg;
              type_mod = roll.type_mod;
              crit = some crit;
              miss = none;
              status = status;
              my_hp = s'.my_hp;
              foe_hp = s'.foe_hp;
            }
                ∷ []);
      }

  -- One side's go. The `break` on a fighter that is down leaves the rest of the turn out.
  unfoldable pub go : ℕ → ℕ → Side → BattleState F → BattleState F
  go my_max foe_max who s =
      let type_mod = get_type_multiplier (attacker_of who s).type (defender_of who s).type in
      let (mv, atk) = pick_move (attacker_of who s) type_mod in
      let s' = with_attacker who atk s in
      let (u, rng) = next {F = F} s.rng in
      if s.my_hp == 0 || s.foe_hp == 0
      then s
      else if lt (of_ℕ (if mv.acc == 0 then 100 else mv.acc)) (mul u (of_ℕ 100))
      then missed who atk mv type_mod rng s'
      else hit my_max foe_max who atk mv rng s'

  unfoldable pub turn : ℕ → ℕ → BattleState F → BattleState F
  turn my_max foe_max s =
      if leb s.foe_mon.stats.spd s.my_mon.stats.spd
      then go my_max foe_max foe (go my_max foe_max me s)
      else go my_max foe_max me (go my_max foe_max foe s)

  -- The state after the loop and the turns taken; `left` counts them up to 24.
  unfoldable pub battle_loop : ℕ → ℕ → ℕ → ℕ → BattleState F → BattleState F × ℕ
  battle_loop my_max foe_max zero turns s = (s, turns)
  battle_loop my_max foe_max (suc left) turns s =
      let rest = battle_loop my_max foe_max left (turns + 1) (turn my_max foe_max s) in
      if ltb 0 s.my_hp && ltb 0 s.foe_hp then rest else (s, turns)

  unfoldable pub battle_won : ℕ → ℕ → BattleState F → Bool
  battle_won my_max foe_max s =
      if s.foe_hp == 0
      then true
      else if s.my_hp == 0
      then false
      else le (div (of_ℕ s.foe_hp) (of_ℕ foe_max)) (div (of_ℕ s.my_hp) (of_ℕ my_max))

  -- The result, the two fighters with their moves, and the generator.
  unfoldable pub simulate_battle :
      MonsterInstance F
      → MonsterInstance F
      → Rng
      → BattleResult × MonsterInstance F × MonsterInstance F × Rng
  simulate_battle my_mon foe_mon rng =
      let start : BattleState F = record {
        my_mon = my_mon;
        foe_mon = foe_mon;
        my_hp = my_mon.current_hp;
        foe_hp = foe_mon.current_hp;
        events = [];
        rng = rng;
      } in
      let (s, turns) = battle_loop (max_hp my_mon) (max_hp foe_mon) battle_turn_cap 0 start in
      (
        record {
          won = battle_won (max_hp my_mon) (max_hp foe_mon) s;
          my_hp = s.my_hp;
          foe_hp = s.foe_hp;
          turns_used = turns;
          events = s.events;
        },
        s.my_mon,
        s.foe_mon,
        s.rng,
      )
