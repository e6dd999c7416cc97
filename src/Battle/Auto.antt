-- ===== src/Battle/Auto.antt =====
-- src/battle.ts: the outcome of `simulateAuto`.
use pokeage.Prelude.{
  subst, refl, ◌↔◌, ℕ, zero, suc, ◌+◌, ◌≤◌, ◌<◌, ◌≡◌, ◌⊎◌, inl, inr, arith, true, false, Bool-cases,
}
use pokeage.Num.{Num}
use pokeage.Types.{MonsterInstance}
use pokeage.Rng.{Rng}
use pokeage.Battle.{Duel, AutoEnd, exchange, both_up, auto_loop, simulate_auto}
use pokeage.Battle.Fight.{OneUp, exchange-Wounds}

module _ {F : Type 0} ⦃n : Num F⦄ where
  -- The duel after a number of rounds, each of which both fighters entered standing.
  pub data Rounds (party wild : MonsterInstance F) : ℕ → Duel → Duel → Type 0 where
    over : {d : Duel} → Rounds party wild 0 d d
    round :
        {k : ℕ} {d d' : Duel}
        → both_up d ≡ true
        → Rounds party wild k (exchange party wild d) d'
        → Rounds party wild (suc k) d d'

  -- The loop stopped at `s'`, `k` rounds after `s`.
  record Stops (party wild : MonsterInstance F) (left : ℕ) (s s' : AutoEnd) : Type 0 where
    rounds : ℕ
    run : Rounds party wild rounds s.duel s'.duel
    turns : s'.turns ≡ s.turns + rounds
    most : rounds ≤ left
    reason : (both_up s'.duel ≡ false) ⊎ (rounds ≡ left)
    one_up : OneUp s'.duel
    my_le : s'.duel.my_hp ≤ s.duel.my_hp

  auto_loop_lem :
      (party wild : MonsterInstance F) (left : ℕ) (s : AutoEnd)
      → OneUp s.duel
      → Stops party wild left s (auto_loop party wild left s)
  unfolding auto_loop
  auto_loop_lem party wild zero s h = record {
    rounds = 0;
    run = over;
    turns = omega arith;
    most = omega arith;
    reason = inr refl;
    one_up = h;
    my_le = omega arith;
  }
  auto_loop_lem party wild (suc left) s h = elim (Bool-cases (both_up s.duel)) [
    | inl more ↦
        let w = exchange-Wounds party wild s.duel more in
        let next : AutoEnd = record { duel = exchange party wild s.duel; turns = s.turns + 1 } in
        let rest = auto_loop_lem party wild left next w.one_up in
        rw more (record {
          rounds = suc rest.rounds;
          run = round more rest.run;
          turns = omega (arith, rest.turns);
          most = omega (arith, rest.most);
          reason = elim rest.reason [ inl down ↦ inl down | inr all ↦ inr (omega arith) ];
          one_up = rest.one_up;
          my_le = omega (arith, rest.my_le, w.my_le);
        })
    | inr done ↦ rw done (record {
      rounds = 0;
      run = over;
      turns = omega arith;
      most = omega arith;
      reason = inl done;
      one_up = h;
      my_le = omega arith;
    })
  ]

  -- A fight against a standing wild, or by a standing lead, is a run of rounds that stops when one
  -- fighter is down or after 20 turns. The result counts the rounds, gives the hit points that the
  -- lead has left, which are no more than it had, and says won exactly when the wild is down; the
  -- lead then stands.
  pub simulate_auto_outcome :
      (party wild : MonsterInstance F) (rng : Rng)
      → 0 < party.current_hp + wild.current_hp
      → let result = (simulate_auto party wild rng).0 in
        (d : Duel) × Rounds party wild result.turns_used
          (record { my_hp = party.current_hp; foe_hp = wild.current_hp; rng = rng })
          d
        × (result.turns_used ≤ 20)
        × ((both_up d ≡ false) ⊎ (result.turns_used ≡ 20))
        × (result.hp_remaining ≡ d.my_hp)
        × (d.my_hp ≤ party.current_hp)
        × (result.won ≡ true ↔ d.foe_hp ≡ 0)
        × ((result.won ≡ false) ⊎ (0 < d.my_hp))
  unfolding simulate_auto
  simulate_auto_outcome party wild rng h =
      let start : Duel = record { my_hp = party.current_hp; foe_hp = wild.current_hp; rng = rng } in
      let stop = auto_loop_lem party wild 20 (record { duel = start; turns = 0 }) h in
      let final : AutoEnd = auto_loop party wild 20 (record { duel = start; turns = 0 }) in
      let e : stop.rounds ≡ final.turns = omega (arith, stop.turns) in
      (
        final.duel,
        subst (λ k. Rounds party wild k start final.duel) e stop.run,
        omega (arith, stop.turns, stop.most),
        elim stop.reason [ inl down ↦ inl down | inr all ↦ inr (omega (arith, stop.turns)) ],
        refl,
        stop.my_le,
        (ground arith, ground arith),
        ground (arith, stop.one_up),
      )
