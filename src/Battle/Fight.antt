-- ===== src/Battle/Fight.antt =====
-- src/battle.ts: one exchange of blows, and the inner loop of `simulateGym`.
use pokeage.Prelude.{
  ℕ, zero, suc, ◌+◌, ◌≤◌, ◌<◌, ◌≡◌, ◌⊎◌, inl, inr, refl, arith, true, false, Option, some,
  Bool-cases,
}
use pokeage.Num.{Num}
use pokeage.Types.{MonsterInstance}
use pokeage.Damage.{calc_damage_simple}
use pokeage.Damage.Bounds.{calc_damage_simple_pos}
use pokeage.Battle.{Duel, exchange, both_up, fight}

-- At least one fighter stands.
abbrev pub OneUp : Duel → Type 0
OneUp d = 0 < d.my_hp + d.foe_hp

-- An exchange between two standing fighters never takes both down, heals nobody, and either ends the
-- duel or wounds both.
pub record Wounds (d d' : Duel) : Type 0 where
  pub one_up : OneUp d'
  pub my_le : d'.my_hp ≤ d.my_hp
  pub foe_le : d'.foe_hp ≤ d.foe_hp
  pub progress : (both_up d' ≡ false) ⊎ ((d'.my_hp < d.my_hp) × (d'.foe_hp < d.foe_hp))

-- The loop ends at `d'`, reached from `d`: one fighter is down, one stands, nobody was healed.
abbrev pub Ends : Option Duel → Duel → Type 0
Ends result d =
    (d' : Duel) × (result ≡ some d')
    × (both_up d' ≡ false)
    × OneUp d'
    × (d'.my_hp ≤ d.my_hp)
    × (d'.foe_hp ≤ d.foe_hp)

Ends-after :
    (result : Option Duel) (d next : Duel) → Wounds d next → Ends result next → Ends result d
Ends-after result d next w (d', e, down, up, my_le, foe_le) =
    (d', e, down, up, omega (arith, w.my_le), omega (arith, w.foe_le))

module _ {F : Type 0} ⦃n : Num F⦄ where
  pub exchange-Wounds :
      (me foe : MonsterInstance F) (d : Duel) → both_up d ≡ true → Wounds d (exchange me foe d)
  unfolding exchange
  exchange-Wounds me foe d up =
      let mine = calc_damage_simple me foe d.rng in
      let theirs = calc_damage_simple foe me d.rng in
      ground (
        arith,
        calc_damage_simple_pos me foe d.rng,
        calc_damage_simple_pos foe me d.rng,
        calc_damage_simple_pos foe me mine.1,
        calc_damage_simple_pos me foe theirs.1,
      )

  fight_done :
      (me foe : MonsterInstance F) (fuel : ℕ) (d : Duel)
      → 0 < fuel
      → both_up d ≡ false
      → fight me foe fuel d ≡ some d
  unfolding fight
  fight_done me foe zero d h done = absurd (omega arith)
  fight_done me foe (suc fuel) d h done = rw done

  -- The inner loop of `simulateGym` ends for every pair of fighters and every roll, within as many
  -- rounds as the first has hit points. If one fighter stood at the start, exactly one stands at
  -- the end, and nobody was healed.
  pub fight_total :
      (me foe : MonsterInstance F) (fuel : ℕ) (d : Duel)
      → d.my_hp < fuel
      → OneUp d
      → Ends (fight me foe fuel d) d
  unfolding fight
  fight_total me foe zero d h up = absurd (omega arith)
  fight_total me foe (suc fuel) d h up = elim (Bool-cases (both_up d)) [
    | inl more ↦
        let next = exchange me foe d in
        let w = exchange-Wounds me foe d more in
        rw more (
          Ends-after (fight me foe fuel next) d next w (elim w.progress [
            | inl over ↦ (
              next,
              fight_done me foe fuel next (ground arith) over,
              over,
              w.one_up,
              omega arith,
              omega arith,
            )
            | inr (less, _) ↦ fight_total me foe fuel next (omega arith) w.one_up
          ]))
    | inr done ↦ rw done (d, refl, done, up, omega arith, omega arith)
  ]
