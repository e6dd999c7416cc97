-- ===== src/Battle/Log.antt =====
-- src/battle.ts: the log of `simulateBattle`, action by action.
use pokeage.Prelude.{
  ℕ, ◌+◌, ◌≤◌, ◌<◌, inl, inr, arith, max, Bool, ◌||◌, length, length-append, All, All-append, leb,
  ◌==◌, if◌then◌else◌, Bool-cases,
}
use pokeage.Num.{Num, ratio}
use pokeage.Types.{MonsterInstance, Move}
use pokeage.Rng.{Rng, next}
use pokeage.Typechart.{get_type_multiplier}
use pokeage.Damage.{DamageRoll}
use pokeage.Moves.{pick_move}
use pokeage.Battle.Full.{
  Side, me, foe, BattleEvent, BattleState, attacker_of, defender_of, with_attacker, missed, hit,
  capped_damage, go, turn,
}

-- The most that an action may take from a side with these maximal hit points: 30% of them, or 40% for
-- a move that is very effective, rounded up, but at least one point.
abbrev pub limit : (F : Type 0) ⦃n : Num F⦄ → ℕ → ℕ → ℕ
limit F ⦃n⦄ full type_mod =
    max 1 (n.ceil (n.mul (n.of_ℕ full) (if leb 4 type_mod then ratio 4 10 else ratio 3 10)))

-- A logged action takes at most that from the other side.
abbrev pub IsCapped : (F : Type 0) ⦃n : Num F⦄ → ℕ → ℕ → BattleEvent → Type 0
IsCapped F my_max foe_max ev =
    ev.dmg ≤ limit F (elim ev.who [ me ↦ foe_max | foe ↦ my_max ]) ev.type_mod

module _ {F : Type 0} ⦃n : Num F⦄ where
  -- From `s` to `s'` with at most `k` more actions in the log.
  pub record Fights (my_max foe_max k : ℕ) (s s' : BattleState F) : Type 0 where
    pub capped :
        All (IsCapped F my_max foe_max) s.events → All (IsCapped F my_max foe_max) s'.events
    pub few : length s'.events ≤ length s.events + k
    pub my_le : s'.my_hp ≤ s.my_hp
    pub foe_le : s'.foe_hp ≤ s.foe_hp
    pub one_up : 0 < s.my_hp + s.foe_hp → 0 < s'.my_hp + s'.foe_hp

  -- A fight that goes on from where one stopped.
  pub Fights-then :
      (my_max foe_max k l : ℕ) (s s' s'' : BattleState F)
      → Fights my_max foe_max k s s'
      → Fights my_max foe_max l s' s''
      → Fights my_max foe_max (k + l) s s''
  Fights-then my_max foe_max k l s s' s'' a b = record {
    capped = λ h. b.capped (a.capped h);
    few = omega (arith, a.few, b.few);
    my_le = omega (arith, a.my_le, b.my_le);
    foe_le = omega (arith, a.foe_le, b.foe_le);
    one_up = λ h. b.one_up (a.one_up h);
  }

  capped_damage-le :
      (atk : MonsterInstance F) (mv : Move) (roll : DamageRoll) (crit : Bool) (cap : ℕ)
      → capped_damage atk mv roll crit cap ≤ limit F cap roll.type_mod
  unfolding capped_damage
  capped_damage-le atk mv roll crit cap = omega arith

  hit-Fights :
      (my_max foe_max : ℕ) (who : Side) (atk : MonsterInstance F) (mv : Move) (rng : Rng)
      (s : BattleState F)
      → 0 < s.my_hp
      → 0 < s.foe_hp
      → Fights my_max foe_max 1 s (hit my_max foe_max who atk mv rng s)
  unfolding hit
  hit-Fights my_max foe_max me atk mv rng s up up' = record {
    capped = λ h. All-append _ s.events _ h (capped_damage-le atk mv _ _ _, tt);
    few = omega (arith, length-append s.events _);
    my_le = omega arith;
    foe_le = omega arith;
    one_up = λ _. omega arith;
  }
  hit-Fights my_max foe_max foe atk mv rng s up up' = record {
    capped = λ h. All-append _ s.events _ h (capped_damage-le atk mv _ _ _, tt);
    few = omega (arith, length-append s.events _);
    my_le = omega arith;
    foe_le = omega arith;
    one_up = λ _. omega arith;
  }

  missed-Fights :
      (my_max foe_max : ℕ) (who : Side) (atk : MonsterInstance F) (mv : Move) (type_mod : ℕ)
      (rng : Rng) (s : BattleState F)
      → Fights my_max foe_max 1 s (missed who atk mv type_mod rng s)
  missed-Fights my_max foe_max who atk mv type_mod rng s = record {
    capped = λ h. All-append _ s.events _ h (omega arith, tt);
    few = omega (arith, length-append s.events _);
    my_le = omega arith;
    foe_le = omega arith;
    one_up = λ h. h;
  }

  -- Giving a side its moves changes nothing else.
  with_attacker-Fights :
      (my_max foe_max k : ℕ) (who : Side) (m : MonsterInstance F) (s s' : BattleState F)
      → Fights my_max foe_max k (with_attacker who m s) s'
      → Fights my_max foe_max k s s'
  with_attacker-Fights my_max foe_max k me m s s' a = record {
    capped = a.capped;
    few = a.few;
    my_le = a.my_le;
    foe_le = a.foe_le;
    one_up = a.one_up;
  }
  with_attacker-Fights my_max foe_max k foe m s s' a = record {
    capped = a.capped;
    few = a.few;
    my_le = a.my_le;
    foe_le = a.foe_le;
    one_up = a.one_up;
  }

  stays : (my_max foe_max : ℕ) (s : BattleState F) → Fights my_max foe_max 1 s s
  stays my_max foe_max s = record {
    capped = λ h. h;
    few = omega arith;
    my_le = omega arith;
    foe_le = omega arith;
    one_up = λ h. h;
  }

  hit_after :
      (my_max foe_max : ℕ) (who : Side) (atk : MonsterInstance F) (mv : Move) (rng : Rng)
      (s : BattleState F)
      → 0 < s.my_hp
      → 0 < s.foe_hp
      → Fights my_max foe_max 1 s (hit my_max foe_max who atk mv rng (with_attacker who atk s))
  hit_after my_max foe_max me atk mv rng s up up' =
      with_attacker-Fights my_max foe_max 1 me atk s _
        (hit-Fights my_max foe_max me atk mv rng _ up up')
  hit_after my_max foe_max foe atk mv rng s up up' =
      with_attacker-Fights my_max foe_max 1 foe atk s _
        (hit-Fights my_max foe_max foe atk mv rng _ up up')

  go-Fights :
      (my_max foe_max : ℕ) (who : Side) (s : BattleState F)
      → Fights my_max foe_max 1 s (go my_max foe_max who s)
  unfolding go
  go-Fights my_max foe_max who s =
      let type_mod = get_type_multiplier (attacker_of who s).type (defender_of who s).type in
      let (mv, atk) = pick_move (attacker_of who s) type_mod in
      let (u, rng) = next {F = F} s.rng in
      elim (Bool-cases (s.my_hp == 0 || s.foe_hp == 0)) [
        | inl over ↦ rw over (stays my_max foe_max s)
        | inr on ↦
            rw on
              (elim (Bool-cases
                (n.lt (n.of_ℕ (if mv.acc == 0 then 100 else mv.acc)) (n.mul u (n.of_ℕ 100)))) [
                  | inl miss ↦ rw miss (
                      with_attacker-Fights my_max foe_max 1 who atk s _
                        (missed-Fights my_max foe_max who atk mv type_mod rng _))
                  | inr lands ↦
                      rw lands
                        (hit_after my_max foe_max who atk mv rng s (ground arith) (ground arith))
                ])
      ]

  pub turn-Fights :
      (my_max foe_max : ℕ) (s : BattleState F) → Fights my_max foe_max 2 s (turn my_max foe_max s)
  unfolding turn
  turn-Fights my_max foe_max s = elim (Bool-cases (leb s.foe_mon.stats.spd s.my_mon.stats.spd)) [
    | inl faster ↦ rw faster (
        Fights-then my_max foe_max 1 1 _ _ _ (go-Fights my_max foe_max me s)
          (go-Fights my_max foe_max foe _))
    | inr slower ↦ rw slower (
        Fights-then my_max foe_max 1 1 _ _ _ (go-Fights my_max foe_max foe s)
          (go-Fights my_max foe_max me _))
  ]
