-- ===== src/Battle.antt =====
-- src/battle.ts: `simulateAuto` and `simulateGym`; `simulateBattle` is in `Full`. Hit points are read
-- only by `> 0`, `<= 0` and `Math.max(0, …)`, so that a subtraction is cut off at 0. `none` stands for
-- fuel that ran out.
pub mod Draws
pub mod Wins
pub mod Auto
pub mod Fight
pub mod Full
pub mod Log
pub mod Verdict
pub mod Wear
pub mod Leaders
use pokeage.Prelude.{
  ℕ, zero, suc, ◌+◌, ◌-◌, Bool, true, false, not, ◌&&◌, Option, none, some, List, [], ◌∷◌, ◌++◌,
  String, map, length, get_elem?, set, leb, ltb, ◌==◌, if◌then◌else◌,
}
use pokeage.Num.{Num}
use pokeage.Types.{MonsterTemplate, MonsterInstance, GymEntry}
use pokeage.Rng.{Rng}
use pokeage.Damage.{calc_damage_simple}
use pokeage.Stats.{make_combatant}

-- The two fighters' hit points and the generator.
pub record Duel : Type 0 where
  pub my_hp : ℕ
  pub foe_hp : ℕ
  pub rng : Rng

pub record AutoResult : Type 0 where
  pub won : Bool
  pub hp_remaining : ℕ
  pub turns_used : ℕ

-- A result of the loop: the duel at its end and the turns taken.
pub record AutoEnd : Type 0 where
  pub duel : Duel
  pub turns : ℕ

pub record GymWin : Type 0 where
  pub my_mon : String
  pub gym_mon : String
  pub gym_lv : ℕ

pub record GymState : Type 0 where
  pub party_idx : ℕ
  pub gym_idx : ℕ
  pub results : List GymWin
  pub party_hp : List ℕ
  pub rng : Rng

pub record GymResult (F : Type 0) : Type 0 where
  pub won : Bool
  pub gym_defeated : ℕ
  pub party_fainted : ℕ
  pub results : List GymWin
  pub party : List (MonsterInstance F)

abbrev pub both_up : Duel → Bool
both_up d = ltb 0 d.my_hp && ltb 0 d.foe_hp

-- `party.forEach((m, i) => m.currentHP = …)`
unfoldable pub write_hp :
    {F : Type 0} → List (MonsterInstance F) → List ℕ → List (MonsterInstance F)
write_hp [] hps = []
write_hp (m ∷ ms) [] = m ∷ ms
write_hp (m ∷ ms) (hp ∷ hps) = record m { current_hp = hp } ∷ write_hp ms hps

module _ {F : Type 0} ⦃n : Num F⦄ where
  -- `me` hits the foe, or is hit by it.
  abbrev my_hit : MonsterInstance F → MonsterInstance F → Duel → Duel
  my_hit me foe d =
      let (dmg, rng) = calc_damage_simple me foe d.rng in
      record { my_hp = d.my_hp; foe_hp = d.foe_hp - dmg; rng = rng }

  abbrev foe_hit : MonsterInstance F → MonsterInstance F → Duel → Duel
  foe_hit me foe d =
      let (dmg, rng) = calc_damage_simple foe me d.rng in
      record { my_hp = d.my_hp - dmg; foe_hp = d.foe_hp; rng = rng }

  -- One round of `simulateAuto` and of the inner loop of `simulateGym`: the faster fighter hits
  -- first, and the other hits back unless it went down (the `break`).
  unfoldable pub exchange : MonsterInstance F → MonsterInstance F → Duel → Duel
  exchange me foe d =
      if leb foe.stats.spd me.stats.spd
      then (let d' = my_hit me foe d in if d'.foe_hp == 0 then d' else foe_hit me foe d')
      else (let d' = foe_hit me foe d in if d'.my_hp == 0 then d' else my_hit me foe d')

  -- The loop of `simulateAuto`; `left` counts the turns up to 20.
  unfoldable pub auto_loop : MonsterInstance F → MonsterInstance F → ℕ → AutoEnd → AutoEnd
  auto_loop party wild zero s = s
  auto_loop party wild (suc left) s =
      let rest =
        auto_loop party wild left
          (record { duel = exchange party wild s.duel; turns = s.turns + 1 }) in
      if both_up s.duel then rest else s

  unfoldable pub simulate_auto : MonsterInstance F → MonsterInstance F → Rng → AutoResult × Rng
  simulate_auto party wild rng =
      let start : Duel = record { my_hp = party.current_hp; foe_hp = wild.current_hp; rng = rng } in
      let final : AutoEnd = auto_loop party wild 20 (record { duel = start; turns = 0 }) in
      (
        record {
          won = final.duel.foe_hp == 0;
          hp_remaining = final.duel.my_hp;
          turns_used = final.turns;
        },
        final.duel.rng,
      )

  -- The inner loop of `simulateGym`, which has no bound of its own.
  unfoldable pub fight : MonsterInstance F → MonsterInstance F → ℕ → Duel → Option Duel
  fight me foe zero d = none
  fight me foe (suc fuel) d =
      let rest = fight me foe fuel (exchange me foe d) in if both_up d then rest else some d

  module _ (party : List (MonsterInstance F)) (gym_team : List GymEntry)
      (get_template : ℕ → Option MonsterTemplate) where
    -- What a finished inner fight does to the state of the outer loop.
    abbrev after_fight : MonsterInstance F → MonsterTemplate → GymEntry → GymState → Duel → GymState
    after_fight my_mon tpl entry s d =
        let beaten = d.foe_hp == 0 in
        record {
          party_idx = if d.my_hp == 0 then s.party_idx + 1 else s.party_idx;
          gym_idx = if beaten then s.gym_idx + 1 else s.gym_idx;
          results =
              if beaten
              then s.results
                ++ (record { my_mon = my_mon.name; gym_mon = tpl.name; gym_lv = entry.level } ∷ [])
              else s.results;
          party_hp = set s.party_hp s.party_idx d.my_hp;
          rng = d.rng;
        }

    -- One round of the outer loop; `none` where an index is out of range or the inner loop runs out
    -- of fuel. A leader's monster with no species is skipped.
    unfoldable pub gym_round : GymState → Option GymState
    gym_round s = elim (get_elem? party s.party_idx) [
      | none ↦ none
      | some my_mon ↦ elim (get_elem? gym_team s.gym_idx) [
        | none ↦ none
        | some entry ↦ elim (get_template entry.monster_id) [
          | none ↦ some (record s { gym_idx = s.gym_idx + 1 })
          | some tpl ↦ elim (get_elem? s.party_hp s.party_idx) [
            | none ↦ none
            | some my_hp ↦
                let gym_mon = make_combatant F tpl entry.level in
                let start : Duel = record {
                  my_hp = my_hp;
                  foe_hp = gym_mon.stats.hp;
                  rng = s.rng;
                } in
                elim (fight my_mon gym_mon (my_hp + 1) start) [
                  | none ↦ none
                  | some d ↦ some (after_fight my_mon tpl entry s d)
                ]
          ]
        ]
      ]
    ]

    abbrev pub gym_open : GymState → Bool
    gym_open s = ltb s.party_idx (length party) && ltb s.gym_idx (length gym_team)

    unfoldable pub gym_loop : ℕ → GymState → Option GymState
    gym_loop zero s = none
    gym_loop (suc fuel) s =
        let rest : Option GymState = elim (gym_round s) [
          | none ↦ none
          | some s' ↦ gym_loop fuel s'
        ] in
        if gym_open s then rest else some s

    unfoldable pub simulate_gym : Rng → Option (GymResult F × Rng)
    simulate_gym rng =
        elim (gym_loop (length party + length gym_team + 1) (record {
          party_idx = 0;
          gym_idx = 0;
          results = [];
          party_hp = map (λ m. m.current_hp) party;
          rng = rng;
        })) [
          | none ↦ none
          | some s ↦ some (
            record {
              won = leb (length gym_team) s.gym_idx;
              gym_defeated = s.gym_idx;
              party_fainted = s.party_idx;
              results = s.results;
              party = write_hp party s.party_hp;
            },
            s.rng,
          )
        ]
