-- ===== src/Encounter/Draws.antt =====
-- src/encounter.ts: the generator after a search.
use pokeage.Prelude.{
  ℕ, inl, inr, Bool, true, false, Option, List, [], ◌∷◌, Bool-cases, Option-cases,
}
use pokeage.Num.{Num}
use pokeage.Types.{MonsterTemplate, Route}
use pokeage.Rng.{Rng, chance}
use pokeage.Rng.Drawn.{IsDrawn, IsDrawn-trans, chance-IsDrawn, pick-IsDrawn, int-IsDrawn}
use pokeage.Encounter.{EncounterBuffs, pool_chance, roll_species, roll_level, generate_wild_monster}

module _ {F : Type 0} ⦃n : Num F⦄ where
  roll_species-IsDrawn :
      (rare wild : List ℕ) (get_template : ℕ → Option MonsterTemplate) (buffs : EncounterBuffs F)
      (r : Rng)
      → IsDrawn r (roll_species rare wild get_template buffs r).1
  unfolding roll_species
  roll_species-IsDrawn [] wild get_template buffs r = pick-IsDrawn wild r
  roll_species-IsDrawn (x ∷ xs) wild get_template buffs r =
      let p = pool_chance buffs (get_template x) in
      let rolled = chance-IsDrawn p r in
      elim (Bool-cases (chance p r).0) [
        | inl hit ↦ rw hit (IsDrawn-trans _ _ _ rolled (pick-IsDrawn (x ∷ xs) (chance p r).1))
        | inr miss ↦ rw miss (IsDrawn-trans _ _ _ rolled (pick-IsDrawn wild (chance p r).1))
      ]

  roll_level-IsDrawn :
      (route : Route F) (rare : Bool) (r : Rng) → IsDrawn r (roll_level route rare r).1
  unfolding roll_level
  roll_level-IsDrawn route true r = int-IsDrawn 0 4 r
  roll_level-IsDrawn route false r = int-IsDrawn route.level_lo route.level_hi r

  pub generate_wild_monster-IsDrawn :
      (route : Route F) (get_template : ℕ → Option MonsterTemplate) (buffs : EncounterBuffs F)
      (r : Rng)
      → IsDrawn r (generate_wild_monster route get_template buffs r).1
  unfolding generate_wild_monster
  generate_wild_monster-IsDrawn route get_template buffs r =
      let ((species, is_rare), r') =
        roll_species route.rare_pool route.wild_pool get_template buffs r in
      let rolled = roll_species-IsDrawn route.rare_pool route.wild_pool get_template buffs r in
      elim (Option-cases species) [
        | inl e ↦ rw (e, generate_wild_monster) rolled
        | inr (id, known) ↦
            rw (known, generate_wild_monster)
              (elim (Option-cases (get_template id)) [
                | inl e ↦ rw e rolled
                | inr (template, e) ↦
                    rw e (IsDrawn-trans _ _ _ rolled (roll_level-IsDrawn route is_rare r'))
              ])
      ]
