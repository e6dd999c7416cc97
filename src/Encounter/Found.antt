-- ===== src/Encounter/Found.antt =====
-- src/encounter.ts: routes on which a search always finds a wild.
use pokeage.Prelude.{
  ℕ, ◌<◌, ◌≡◌, inl, inr, refl, arith, Option, some, List, [], ◌∷◌, length, All, All-get_elem?,
  Bool-cases,
}
use pokeage.Num.{Num}
use pokeage.Types.{MonsterTemplate, MonsterInstance, Route}
use pokeage.Power.{rarity_or_common}
use pokeage.Rng.{Rng, pick, chance}
use pokeage.Rng.Range.{pick-some}
use pokeage.Stats.{create_monster_instance}
use pokeage.Encounter.{EncounterBuffs, roll_species, roll_level, generate_wild_monster, pool_chance}
use pokeage.Encounter.Levels.{IsWild, generate_wild_monster-IsWild}

-- The registry has the species.
abbrev pub Known : (ℕ → Option MonsterTemplate) → ℕ → Type 0
Known get_template id = (template : MonsterTemplate) × (get_template id ≡ some template)

module _ {F : Type 0} ⦃n : Num F⦄ (get_template : ℕ → Option MonsterTemplate)
    (buffs : EncounterBuffs F) where
  pick-Known :
      (pool : List ℕ) (rng : Rng)
      → 0 < length pool
      → All (Known get_template) pool
      → (id : ℕ) × ((pick pool rng).0 ≡ some id) × Known get_template id
  pick-Known pool rng h known =
      let (id, i, lt, at, picked) = pick-some pool rng h in
      (id, picked, All-get_elem? (Known get_template) pool i known lt at)

  roll_species-Known :
      (rare_pool wild_pool : List ℕ) (rng : Rng)
      → 0 < length wild_pool
      → All (Known get_template) wild_pool
      → All (Known get_template) rare_pool
      → (id : ℕ) × ((roll_species rare_pool wild_pool get_template buffs rng).0.0 ≡ some id)
        × Known get_template id
  unfolding roll_species
  roll_species-Known [] wild_pool rng h wild rare = pick-Known wild_pool rng h wild
  roll_species-Known (r ∷ rs) wild_pool rng h wild rare =
      let roll = chance (pool_chance buffs (get_template r)) rng in
      elim (Bool-cases roll.0) [
        | inl hit ↦ rw hit (pick-Known (r ∷ rs) roll.1 (omega arith) rare)
        | inr miss ↦ rw miss (pick-Known wild_pool roll.1 h wild)
      ]

  -- Where the common pool of a route is not empty and the registry knows the species of both pools,
  -- every search finds a wild, and it is one of the route's.
  pub generate_wild_monster_found :
      (route : Route F) (rng : Rng)
      → 0 < length route.wild_pool
      → All (Known get_template) route.wild_pool
      → All (Known get_template) route.rare_pool
      → (wild : MonsterInstance F) × ((generate_wild_monster route get_template buffs rng).0
          ≡ some wild)
        × IsWild route get_template wild
  unfolding generate_wild_monster
  generate_wild_monster_found route rng h common rare =
      let rolled = roll_species route.rare_pool route.wild_pool get_template buffs rng in
      let (id, species, (template, known)) =
        roll_species-Known route.rare_pool route.wild_pool rng h common rare in
      let level = (roll_level route rolled.0.1 rolled.1).0 in
      let wild : MonsterInstance F = record (create_monster_instance F template level) {
        rarity = some (rarity_or_common template.rarity);
      } in
      let e : (generate_wild_monster route get_template buffs rng).0 ≡ some wild =
        rw (species, generate_wild_monster) (rw known refl) in
      (wild, e, generate_wild_monster-IsWild route get_template buffs rng wild e)
