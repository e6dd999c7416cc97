-- ===== src/Battle/Draws.antt =====
-- src/damage.ts and src/battle.ts: the generator after a battle.
use pokeage.Prelude.{
  ℕ, zero, suc, ◌+◌, ◌-◌, ◌≡◌, ◌==◌, ap, subst, inl, inr, Option, none, some, List, [], map, length,
  get_elem?, leb, Bool-cases, Option-cases,
}
use mathlib.Core.Option.{some-injective}
use pokeage.Num.{Num}
use pokeage.Types.{MonsterTemplate, MonsterInstance, GymEntry}
use pokeage.Stats.{make_combatant}
use pokeage.Rng.{Rng}
use pokeage.Rng.Drawn.{IsDrawn, IsDrawn-refl, IsDrawn-trans, float-IsDrawn}
use pokeage.Damage.{calc_damage_simple}
use pokeage.Battle.{
  Duel, AutoEnd, GymState, GymResult, exchange, both_up, auto_loop, simulate_auto, fight, gym_round,
  gym_loop, gym_open, simulate_gym,
}

-- The generator of a fight that ended.
abbrev Fought : Rng → Option Duel → Type 0
Fought r none = Unit
Fought r (some d) = IsDrawn r d.rng

Fought-after : (r s : Rng) (o : Option Duel) → IsDrawn r s → Fought s o → Fought r o
Fought-after r s none before h = tt
Fought-after r s (some d) before h = IsDrawn-trans r s d.rng before h

module _ {F : Type 0} ⦃n : Num F⦄ where
  calc_damage_simple-IsDrawn :
      (a d : MonsterInstance F) (r : Rng) → IsDrawn r (calc_damage_simple a d r).1
  unfolding calc_damage_simple
  calc_damage_simple-IsDrawn a d r = float-IsDrawn {F = F} _ _ r

  exchange-IsDrawn : (me foe : MonsterInstance F) (d : Duel) → IsDrawn d.rng (exchange me foe d).rng
  unfolding exchange
  exchange-IsDrawn me foe d =
      let mine = calc_damage_simple me foe d.rng in
      let theirs = calc_damage_simple foe me d.rng in
      let by_me = calc_damage_simple-IsDrawn me foe d.rng in
      let by_foe = calc_damage_simple-IsDrawn foe me d.rng in
      elim (Bool-cases (leb foe.stats.spd me.stats.spd)) [
        | inl first ↦
            rw (first, exchange)
              (elim (Bool-cases (d.foe_hp - mine.0 == 0)) [
                | inl down ↦ rw down by_me
                | inr up ↦
                    rw up (IsDrawn-trans _ _ _ by_me (calc_damage_simple-IsDrawn foe me mine.1))
              ])
        | inr second ↦
            rw (second, exchange)
              (elim (Bool-cases (d.my_hp - theirs.0 == 0)) [
                | inl down ↦ rw down by_foe
                | inr up ↦
                    rw up (IsDrawn-trans _ _ _ by_foe (calc_damage_simple-IsDrawn me foe theirs.1))
              ])
      ]

  auto_loop-IsDrawn :
      (party wild : MonsterInstance F) (left : ℕ) (s : AutoEnd)
      → IsDrawn s.duel.rng (auto_loop party wild left s).duel.rng
  unfolding auto_loop
  auto_loop-IsDrawn party wild zero s = IsDrawn-refl s.duel.rng
  auto_loop-IsDrawn party wild (suc left) s = elim (Bool-cases (both_up s.duel)) [
    | inl more ↦
        let next : AutoEnd = record { duel = exchange party wild s.duel; turns = s.turns + 1 } in
        rw more (
          IsDrawn-trans _ _ _ (exchange-IsDrawn party wild s.duel)
            (auto_loop-IsDrawn party wild left next))
    | inr done ↦ rw done (IsDrawn-refl s.duel.rng)
  ]

  pub simulate_auto-IsDrawn :
      (party wild : MonsterInstance F) (r : Rng) → IsDrawn r (simulate_auto party wild r).1
  unfolding simulate_auto
  simulate_auto-IsDrawn party wild r = auto_loop-IsDrawn party wild 20 _

  fight-Fought :
      (me foe : MonsterInstance F) (fuel : ℕ) (d : Duel) → Fought d.rng (fight me foe fuel d)
  unfolding fight
  fight-Fought me foe zero d = tt
  fight-Fought me foe (suc fuel) d = elim (Bool-cases (both_up d)) [
    | inl more ↦
        let d' = exchange me foe d in
        rw more (
          Fought-after d.rng d'.rng (fight me foe fuel d') (exchange-IsDrawn me foe d)
            (fight-Fought me foe fuel d'))
    | inr done ↦ rw done (IsDrawn-refl d.rng)
  ]

module _ {F : Type 0} ⦃n : Num F⦄ (party : List (MonsterInstance F)) (gym_team : List GymEntry)
    (get_template : ℕ → Option MonsterTemplate) where
  -- The generator of a gym battle that goes on.
  abbrev Played : Rng → Option GymState → Type 0
  Played r none = Unit
  Played r (some s) = IsDrawn r s.rng

  gym_round-Played : (s : GymState) → Played s.rng (gym_round party gym_team get_template s)
  unfolding gym_round
  gym_round-Played s = elim (Option-cases (get_elem? party s.party_idx)) [
    | inl e ↦ rw (e, gym_round) tt
    | inr (me, em) ↦
        rw (em, gym_round)
          (elim (Option-cases (get_elem? gym_team s.gym_idx)) [
            | inl e ↦ rw e tt
            | inr (entry, ee) ↦ rw ee (elim (Option-cases (get_template entry.monster_id)) [
              | inl e ↦ rw e (IsDrawn-refl s.rng)
              | inr (tpl, et) ↦ rw et (elim (Option-cases (get_elem? s.party_hp s.party_idx)) [
                | inl e ↦ rw e tt
                | inr (hp, eh) ↦
                    let foe = make_combatant F tpl entry.level in
                    let start : Duel = record { my_hp = hp; foe_hp = foe.stats.hp; rng = s.rng } in
                    let fought = fight-Fought me foe (hp + 1) start in
                    rw eh (elim (Option-cases (fight me foe (hp + 1) start)) [
                      | inl e ↦ rw e tt
                      | inr (d, ed) ↦ rw ed (subst (Fought s.rng) ed fought)
                    ])
              ])
            ])
          ])
  ]

  gym_loop-Played :
      (fuel : ℕ) (r : Rng) (s : GymState)
      → IsDrawn r s.rng
      → Played r (gym_loop party gym_team get_template fuel s)
  unfolding gym_loop
  gym_loop-Played zero r s h = tt
  gym_loop-Played (suc fuel) r s h = elim (Bool-cases (gym_open party gym_team get_template s)) [
    | inr closed ↦ rw closed h
    | inl more ↦ rw more (elim (Option-cases (gym_round party gym_team get_template s)) [
      | inl stuck ↦ rw stuck tt
      | inr (s', goes) ↦
          let round = subst (Played s.rng) goes (gym_round-Played s) in
          rw goes (gym_loop-Played fuel r s' (IsDrawn-trans r s.rng s'.rng h round))
    ])
  ]

  pub simulate_gym-IsDrawn :
      (r r' : Rng) (result : GymResult F)
      → simulate_gym party gym_team get_template r ≡ some (result, r')
      → IsDrawn r r'
  unfolding simulate_gym
  simulate_gym-IsDrawn r r' result =
      let start : GymState = record {
        party_idx = 0;
        gym_idx = 0;
        results = [];
        party_hp = map (λ m. m.current_hp) party;
        rng = r;
      } in
      let fuel = length party + length gym_team + 1 in
      let played = gym_loop-Played fuel r start (IsDrawn-refl r) in
      elim (Option-cases (gym_loop party gym_team get_template fuel start)) [
        | inl stuck ↦ rw (stuck, simulate_gym) (λ e. absurd (cc (e)))
        | inr (s, ends) ↦
            rw (ends, simulate_gym)
              (λ e.
                subst (IsDrawn r) (ap (λ p. p.1) (some-injective _ _ e))
                  (subst (Played r) ends played))
      ]
