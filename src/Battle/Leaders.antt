-- ===== src/Battle/Leaders.antt =====
-- src/battle.ts: the outer loop of `simulateGym` and its result.
use pokeage.Prelude.{
  ℕ, zero, suc, ◌+◌, ◌-◌, ◌≤◌, ◌<◌, ◌≡◌, ◌⊎◌, ◌↔◌, inl, inr, refl, ◌∙◌, subst, arith, true, false,
  Option, some, List, [], map, length, set, length-set, get_elem?, get_elem?-lt, length-map, leb,
  ◌==◌, if◌then◌else◌, Bool-cases, Option-cases,
}
use pokeage.Num.{Num}
use pokeage.Types.{MonsterInstance, MonsterTemplate, GymEntry}
use pokeage.Rng.{Rng}
use pokeage.Stats.{make_combatant}
use pokeage.Battle.{
  Duel, GymState, GymResult, both_up, gym_round, gym_open, gym_loop, simulate_gym, write_hp,
  after_fight,
}
use pokeage.Battle.Wear.{
  DownBefore, DownBefore-set, DownBefore-down, Below, Below-set, Below-refl, caps_of, AllDown,
  DownBefore-AllDown, Worn, write_hp-Worn,
}
use pokeage.Battle.Fight.{OneUp, fight_total}

combatant_up :
    (F : Type 0) ⦃n : Num F⦄ (tpl : MonsterTemplate) (level : ℕ)
    → 0 < (make_combatant F tpl level).stats.hp
unfolding make_combatant
combatant_up F tpl level = ground arith

-- The outer loop's state, for a party of `members`, which came with the hit points `caps`, and
-- `leaders` to beat.
pub record IsGymState (members leaders : ℕ) (caps : List ℕ) (s : GymState) : Type 0 where
  pub party_le : s.party_idx ≤ members
  pub gym_le : s.gym_idx ≤ leaders
  pub same_length : length s.party_hp ≡ members
  pub down : DownBefore s.party_idx s.party_hp
  pub worn : Below s.party_hp caps

abbrev rounds_left : ℕ → ℕ → GymState → ℕ
rounds_left members leaders s = members - s.party_idx + (leaders - s.gym_idx)

-- A round that keeps the invariant and brings the end nearer.
record Advances (members leaders : ℕ) (caps : List ℕ) (s s' : GymState) : Type 0 where
  state : IsGymState members leaders caps s'
  fewer : rounds_left members leaders s' < rounds_left members leaders s

DownBefore-after :
    (s : GymState) (hp : ℕ)
    → DownBefore s.party_idx s.party_hp
    → DownBefore (if hp == 0 then s.party_idx + 1 else s.party_idx) (set s.party_hp s.party_idx hp)
DownBefore-after s zero h =
    let e : suc s.party_idx ≡ s.party_idx + 1 = omega arith in
    subst (λ k. DownBefore k (set s.party_hp s.party_idx 0)) e
      (DownBefore-down s.party_idx s.party_hp h)
DownBefore-after s (suc hp) h =
    let e : s.party_idx ≡ (if suc hp == 0 then s.party_idx + 1 else s.party_idx) = ground arith in
    subst (λ k. DownBefore k (set s.party_hp s.party_idx (suc hp))) e
      (DownBefore-set s.party_idx (suc hp) s.party_hp h)

module _ {F : Type 0} ⦃n : Num F⦄ (party : List (MonsterInstance F)) (gym_team : List GymEntry)
    (get_template : ℕ → Option MonsterTemplate) where
  Advances-after :
      (my_mon : MonsterInstance F) (tpl : MonsterTemplate) (entry : GymEntry) (s : GymState)
      (d : Duel) (hp : ℕ)
      → get_elem? s.party_hp s.party_idx ≡ some hp
      → d.my_hp ≤ hp
      → IsGymState (length party) (length gym_team) (caps_of party) s
      → gym_open party gym_team get_template s ≡ true
      → both_up d ≡ false
      → OneUp d
      → Advances
          (length party)
          (length gym_team)
          (caps_of party)
          s
          (after_fight party gym_team get_template my_mon tpl entry s d)
  Advances-after my_mon tpl entry s d hp at le inv is_open down up = record {
    state = record {
      party_le = ground arith;
      gym_le = ground arith;
      same_length = length-set s.party_hp s.party_idx d.my_hp ∙ inv.same_length;
      down = DownBefore-after s d.my_hp inv.down;
      worn = Below-set s.party_hp (caps_of party) s.party_idx hp d.my_hp at le inv.worn;
    };
    fewer = ground arith;
  }

  -- A round on an open state goes through, keeps the invariant and brings the end nearer.
  gym_round_lem :
      (s : GymState)
      → IsGymState (length party) (length gym_team) (caps_of party) s
      → gym_open party gym_team get_template s ≡ true
      → (s' : GymState) × (gym_round party gym_team get_template s ≡ some s')
        × Advances (length party) (length gym_team) (caps_of party) s s'
  unfolding gym_round
  gym_round_lem s inv is_open =
      let (my_mon, em) = get_elem?-lt party s.party_idx (ground arith) in
      let (entry, ee) = get_elem?-lt gym_team s.gym_idx (ground arith) in
      let (my_hp, eh) = get_elem?-lt s.party_hp s.party_idx (ground (arith, inv.same_length)) in
      elim (Option-cases (get_template entry.monster_id)) [
        | inl missing ↦ (
          record s { gym_idx = s.gym_idx + 1 },
          rw (em, gym_round) (rw (ee, gym_round) (rw (missing, gym_round) refl)),
          record {
            state = record {
              party_le = inv.party_le;
              gym_le = ground arith;
              same_length = inv.same_length;
              down = inv.down;
              worn = inv.worn;
            };
            fewer = ground arith;
          },
        )
        | inr (tpl, found) ↦
            let gym_mon = make_combatant F tpl entry.level in
            let start : Duel = record { my_hp = my_hp; foe_hp = gym_mon.stats.hp; rng = s.rng } in
            let (d, ef, down, up, le, _) =
              fight_total my_mon gym_mon (my_hp + 1) start (omega arith)
                (omega (arith, combatant_up F tpl entry.level)) in
            (
              after_fight party gym_team get_template my_mon tpl entry s d,
              rw (em, gym_round)
                  (rw (ee, gym_round)
                    (rw (found, gym_round) (rw (eh, gym_round) (rw (ef, gym_round) refl)))),
              Advances-after my_mon tpl entry s d my_hp eh le inv is_open down up,
            )
      ]

  gym_loop_lem :
      (fuel : ℕ) (s : GymState)
      → rounds_left (length party) (length gym_team) s < fuel
      → IsGymState (length party) (length gym_team) (caps_of party) s
      → (s' : GymState) × (gym_loop party gym_team get_template fuel s ≡ some s')
        × IsGymState (length party) (length gym_team) (caps_of party) s'
        × (gym_open party gym_team get_template s' ≡ false)
  unfolding gym_loop
  gym_loop_lem zero s h inv = absurd (omega arith)
  gym_loop_lem (suc fuel) s h inv = elim (Bool-cases (gym_open party gym_team get_template s)) [
    | inl is_open ↦
        let (next, e, adv) = gym_round_lem s inv is_open in
        let (s', e', inv', closed) = gym_loop_lem fuel next (omega (arith, adv.fewer)) adv.state in
        (s', rw (is_open, e) e', inv', closed)
    | inr closed ↦ (s, rw closed refl, inv, closed)
  ]

-- The battle against a leader always returns. It is won exactly when every monster of the leader has
-- been passed, and it ends unwon only with the whole party down; no count runs past its list, and nobody is healed.
pub simulate_gym_total :
    {F : Type 0} ⦃n : Num F⦄ (party : List (MonsterInstance F)) (gym_team : List GymEntry)
    (get_template : ℕ → Option MonsterTemplate) (rng : Rng)
    → (result : GymResult F) × (rng' : Rng) × (simulate_gym party gym_team get_template rng
        ≡ some (result, rng'))
      × (result.won ≡ true ↔ result.gym_defeated ≡ length gym_team)
      × (result.gym_defeated ≤ length gym_team)
      × (result.party_fainted ≤ length party)
      × ((result.won ≡ true) ⊎ AllDown result.party)
      × Worn party result.party
unfolding simulate_gym
simulate_gym_total party gym_team get_template rng =
    let start : GymState = record {
      party_idx = 0;
      gym_idx = 0;
      results = [];
      party_hp = map (λ m. m.current_hp) party;
      rng = rng;
    } in
    let (s, e, inv, closed) =
      gym_loop_lem party gym_team get_template (length party + length gym_team + 1) start
        (omega arith)
        (record {
          party_le = omega arith;
          gym_le = omega arith;
          same_length = length-map party (λ m. m.current_hp);
          down = tt;
          worn = Below-refl (caps_of party);
        }) in
    (
      record {
        won = leb (length gym_team) s.gym_idx;
        gym_defeated = s.gym_idx;
        party_fainted = s.party_idx;
        results = s.results;
        party = write_hp party s.party_hp;
      },
      s.rng,
      rw (e, simulate_gym) refl,
      (ground arith, ground arith),
      inv.gym_le,
      inv.party_le,
      elim (Bool-cases (leb (length gym_team) s.gym_idx)) [
        | inl won ↦ inl won
        | inr lost ↦
            let e : s.party_idx ≡ length party = ground arith in
            inr (
              DownBefore-AllDown party s.party_hp inv.same_length
                (subst (λ k. DownBefore k s.party_hp) e inv.down))
      ],
      write_hp-Worn party s.party_hp inv.same_length inv.worn,
    )
