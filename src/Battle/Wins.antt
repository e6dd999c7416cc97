-- ===== src/Battle/Wins.antt =====
-- src/battle.ts: the wins that `simulateGym` reports.
use mathlib.Core.Option.{some-injective}
use pokeage.Prelude.{
  ℕ, zero, suc, ◌+◌, ◌≡◌, ◌∙◌, refl, ap, sym, subst, inl, inr, arith, Option, none, some, List, [],
  ◌∷◌, ◌++◌, String, map, map-snoc, take, take-snoc, length, get_elem?, get_elem?-Memᴰ, All,
  All-Memᴰ, ◌==◌, Bool-cases, Option-cases,
}
use pokeage.Num.{Num}
use pokeage.Types.{MonsterTemplate, MonsterInstance, GymEntry}
use pokeage.Stats.{make_combatant}
use pokeage.Rng.{Rng}
use pokeage.Battle.{
  Duel, GymWin, GymState, GymResult, fight, after_fight, gym_round, gym_loop, gym_open,
  simulate_gym,
}
use pokeage.Encounter.Found.{Known}

-- The monster and the level of a win, and those of an entry of a leader's team.
abbrev pub beaten_monster : GymWin → String × ℕ
beaten_monster w = (w.gym_mon, w.gym_lv)

abbrev pub sent_monster : (ℕ → Option MonsterTemplate) → GymEntry → String × ℕ
sent_monster get_template e =
    (elim (get_template e.monster_id) [ none ↦ "" | some tpl ↦ tpl.name ], e.level)

module _ {F : Type 0} ⦃n : Num F⦄ (party : List (MonsterInstance F)) (gym_team : List GymEntry)
    (get_template : ℕ → Option MonsterTemplate) where
  -- The wins so far are those over the first entries of the team, in order, none left out.
  abbrev Logged : GymState → Type 0
  Logged s =
      map beaten_monster s.results ≡ map (sent_monster get_template) (take s.gym_idx gym_team)

  abbrev StillLogged : Option GymState → Type 0
  StillLogged none = Unit
  StillLogged (some s) = Logged s

  after_fight-Logged :
      (me : MonsterInstance F) (tpl : MonsterTemplate) (entry : GymEntry) (s : GymState) (d : Duel)
      → get_elem? gym_team s.gym_idx ≡ some entry
      → get_template entry.monster_id ≡ some tpl
      → Logged s
      → Logged (after_fight party gym_team get_template me tpl entry s d)
  after_fight-Logged me tpl entry s d at known h = elim (Bool-cases (d.foe_hp == 0)) [
    | inr stands ↦ rw stands h
    | inl beaten ↦
        let sent : sent_monster get_template entry ≡ (tpl.name, entry.level) = rw known refl in
        let next : suc s.gym_idx ≡ s.gym_idx + 1 = omega arith in
        let win : GymWin = record { my_mon = me.name; gym_mon = tpl.name; gym_lv = entry.level } in
        rw beaten (
          map-snoc beaten_monster s.results win
          ∙ ap (λ ws. ws ++ ((tpl.name, entry.level) ∷ [])) h
          ∙ ap (λ w. map (sent_monster get_template) (take s.gym_idx gym_team) ++ (w ∷ []))
              (sym sent)
          ∙ sym (map-snoc (sent_monster get_template) (take s.gym_idx gym_team) entry)
          ∙ ap (map (sent_monster get_template)) (take-snoc gym_team s.gym_idx at)
          ∙ ap (λ k. map (sent_monster get_template) (take k gym_team)) next)
  ]

  module _ (all_known : All (λ e. Known get_template e.monster_id) gym_team) where
    gym_round-Logged :
        (s : GymState) → Logged s → StillLogged (gym_round party gym_team get_template s)
    unfolding gym_round
    gym_round-Logged s h = elim (Option-cases (get_elem? party s.party_idx)) [
      | inl e ↦ rw (e, gym_round) tt
      | inr (me, em) ↦
          rw (em, gym_round)
            (elim (Option-cases (get_elem? gym_team s.gym_idx)) [
              | inl e ↦ rw e tt
              | inr (entry, at) ↦ rw at (elim (Option-cases (get_template entry.monster_id)) [
                | inl e ↦
                    let (tpl, known) =
                      All-Memᴰ (λ e. Known get_template e.monster_id) gym_team all_known
                        (get_elem?-Memᴰ gym_team s.gym_idx at) in
                    absurd (cc (e, known))
                | inr (tpl, known) ↦
                    rw known (elim (Option-cases (get_elem? s.party_hp s.party_idx)) [
                      | inl e ↦ rw e tt
                      | inr (hp, eh) ↦
                          let foe = make_combatant F tpl entry.level in
                          let start : Duel = record {
                            my_hp = hp;
                            foe_hp = foe.stats.hp;
                            rng = s.rng;
                          } in
                          rw eh (elim (Option-cases (fight me foe (hp + 1) start)) [
                            | inl e ↦ rw e tt
                            | inr (d, ed) ↦ rw ed (after_fight-Logged me tpl entry s d at known h)
                          ])
                    ])
              ])
            ])
    ]

    gym_loop-Logged :
        (fuel : ℕ) (s : GymState)
        → Logged s
        → StillLogged (gym_loop party gym_team get_template fuel s)
    unfolding gym_loop
    gym_loop-Logged zero s h = tt
    gym_loop-Logged (suc fuel) s h = elim (Bool-cases (gym_open party gym_team get_template s)) [
      | inr closed ↦ rw closed h
      | inl more ↦ rw more (elim (Option-cases (gym_round party gym_team get_template s)) [
        | inl stuck ↦ rw stuck tt
        | inr (s', goes) ↦
            rw goes (gym_loop-Logged fuel s' (subst StillLogged goes (gym_round-Logged s h)))
      ])
    ]

    pub simulate_gym-Logged :
        (r r' : Rng) (result : GymResult F)
        → simulate_gym party gym_team get_template r ≡ some (result, r')
        → map beaten_monster result.results
          ≡ map (sent_monster get_template) (take result.gym_defeated gym_team)
    unfolding simulate_gym
    simulate_gym-Logged r r' result =
        let start : GymState = record {
          party_idx = 0;
          gym_idx = 0;
          results = [];
          party_hp = map (λ m. m.current_hp) party;
          rng = r;
        } in
        let fuel = length party + length gym_team + 1 in
        elim (Option-cases (gym_loop party gym_team get_template fuel start)) [
          | inl stuck ↦ rw (stuck, simulate_gym) (λ e. absurd (cc (e)))
          | inr (s, ends) ↦
              rw (ends, simulate_gym)
                (λ e.
                  subst
                    (λ q.
                      map beaten_monster q.results
                      ≡ map (sent_monster get_template) (take q.gym_defeated gym_team))
                    (ap (λ p. p.0) (some-injective _ _ e))
                    (subst StillLogged ends (gym_loop-Logged fuel start refl)))
        ]
