-- ===== src/Battle/Verdict.antt =====
-- src/battle.ts: the loop and the result of `simulateBattle`.
use pokeage.Prelude.{
  ℕ, zero, suc, ◌+◌, ◌*◌, ◌≤◌, ◌<◌, ◌≡◌, ◌⊎◌, inl, inr, refl, arith, true, false, ◌&&◌, [], length,
  All, ltb, Bool-cases,
}
use pokeage.Num.{Num}
use pokeage.Types.{MonsterInstance}
use pokeage.Rng.{Rng}
use pokeage.Status.{max_hp}
use pokeage.Battle.Full.{BattleState, turn, battle_loop, battle_won, simulate_battle}
use pokeage.Battle.Log.{IsCapped, Fights, Fights-then, turn-Fights}

module _ {F : Type 0} ⦃n : Num F⦄ where
  -- Where the loop stops: the turns it took, and why.
  record Stops (my_max foe_max left turns : ℕ) (s : BattleState F) (out : BattleState F × ℕ)
      : Type 0 where
    rounds : ℕ
    turns_eq : out.1 ≡ turns + rounds
    most : rounds ≤ left
    fought : Fights my_max foe_max (2 * rounds) s out.0
    reason : (rounds ≡ left) ⊎ ((out.0.my_hp ≡ 0) ⊎ (out.0.foe_hp ≡ 0))

  battle_loop-Stops :
      (my_max foe_max left turns : ℕ) (s : BattleState F)
      → Stops my_max foe_max left turns s (battle_loop my_max foe_max left turns s)
  unfolding battle_loop
  battle_loop-Stops my_max foe_max zero turns s = record {
    rounds = 0;
    turns_eq = omega arith;
    most = omega arith;
    fought = record {
      capped = λ h. h;
      few = omega arith;
      my_le = omega arith;
      foe_le = omega arith;
      one_up = λ h. h;
    };
    reason = inl refl;
  }
  battle_loop-Stops my_max foe_max (suc left) turns s =
      elim (Bool-cases (ltb 0 s.my_hp && ltb 0 s.foe_hp)) [
        | inl on ↦
            let rest = battle_loop-Stops my_max foe_max left (turns + 1) (turn my_max foe_max s) in
            let all =
              Fights-then my_max foe_max 2 (2 * rest.rounds) _ _ _ (turn-Fights my_max foe_max s)
                rest.fought in
            rw on (record {
              rounds = suc rest.rounds;
              turns_eq = omega (arith, rest.turns_eq);
              most = omega (arith, rest.most);
              fought = record {
                capped = all.capped;
                few = omega (arith, all.few);
                my_le = all.my_le;
                foe_le = all.foe_le;
                one_up = all.one_up;
              };
              reason = elim rest.reason [ inl full ↦ inl (omega arith) | inr down ↦ inr down ];
            })
        | inr over ↦ rw over (record {
          rounds = 0;
          turns_eq = omega arith;
          most = omega arith;
          fought = record {
            capped = λ h. h;
            few = omega arith;
            my_le = omega arith;
            foe_le = omega arith;
            one_up = λ h. h;
          };
          reason = inr (ground arith);
        })
      ]

  -- A full fight between monsters of which one stands takes at most 24 turns with at most two logged
  -- actions each, and stops sooner only when one is down. Nobody is healed, both never go down, and no
  -- action takes more than 30% of the other side's maximal hit points, or 40% if it is very effective,
  -- rounded up, or one point. A fight whose foe is down is won, and
  -- one whose lead is down is lost.
  pub simulate_battle_lem :
      (my_mon foe_mon : MonsterInstance F) (rng : Rng)
      → 0 < my_mon.current_hp + foe_mon.current_hp
      → let result = (simulate_battle my_mon foe_mon rng).0 in
        (result.turns_used ≤ 24)
        × (length result.events ≤ 2 * result.turns_used)
        × All (IsCapped F (max_hp my_mon) (max_hp foe_mon)) result.events
        × (result.my_hp ≤ my_mon.current_hp)
        × (result.foe_hp ≤ foe_mon.current_hp)
        × (0 < result.my_hp + result.foe_hp)
        × ((result.turns_used ≡ 24) ⊎ ((result.my_hp ≡ 0) ⊎ (result.foe_hp ≡ 0)))
        × ((0 < result.foe_hp) ⊎ (result.won ≡ true))
        × ((0 < result.my_hp) ⊎ (result.won ≡ false))
  unfolding simulate_battle battle_won
  simulate_battle_lem my_mon foe_mon rng h =
      let start : BattleState F = record {
        my_mon = my_mon;
        foe_mon = foe_mon;
        my_hp = my_mon.current_hp;
        foe_hp = foe_mon.current_hp;
        events = [];
        rng = rng;
      } in
      let s = battle_loop-Stops (max_hp my_mon) (max_hp foe_mon) 24 0 start in
      let up = s.fought.one_up h in
      (
        omega (arith, s.turns_eq, s.most),
        omega (arith, s.turns_eq, s.fought.few),
        s.fought.capped tt,
        s.fought.my_le,
        s.fought.foe_le,
        up,
        elim s.reason [ inl full ↦ inl (omega (arith, s.turns_eq)) | inr down ↦ inr down ],
        ground arith,
        ground (arith, up),
      )
