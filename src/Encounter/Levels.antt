-- ===== src/Encounter/Levels.antt =====
-- src/encounter.ts: the species, the level and the condition of a wild monster.
use pokeage.Prelude.{
  ℕ, ◌+◌, ◌*◌, ◌/◌, ◌^◌, ◌≤◌, ◌≡◌, inl, inr, refl, subst, arith, min, max, Bool, true, false,
  Option, some, List, [], ◌∷◌, length, get_elem?, Bool-cases, Option-cases,
}
use mathlib.Core.Option.{some-injective}
use pokeage.Num.{Num}
use pokeage.Types.{MonsterTemplate, MonsterInstance, Route}
use pokeage.Power.{rarity_or_common}
use pokeage.Rng.{Rng, chance, pick, next_word}
use pokeage.Rng.Range.{int_bounds}
use pokeage.Stats.{create_monster_instance, stats_at_level, stage_for_level}
use pokeage.Encounter.{EncounterBuffs, roll_species, roll_level, generate_wild_monster, pool_chance}

-- `id` stands in the pool.
abbrev pub IsIn : ℕ → List ℕ → Type 0
IsIn id pool = (i : ℕ) × (get_elem? pool i ≡ some id)

-- The pool and the level band of a wild: the common pool within the route's levels, or the rare pool
-- 3 to 7 levels above them.
abbrev pub IsBand : {F : Type 0} → Route F → Bool → ℕ → ℕ → Type 0
IsBand route true id level =
    IsIn id route.rare_pool × (route.level_hi + 3 ≤ level) × (level ≤ route.level_hi + 7)
IsBand route false id level =
    IsIn id route.wild_pool
    × (min route.level_lo route.level_hi ≤ level)
    × (level ≤ max route.level_lo route.level_hi)

-- A fresh wild of a species of the route.
pub record IsWild {F : Type 0} ⦃n : Num F⦄ (route : Route F)
    (get_template : ℕ → Option MonsterTemplate) (wild : MonsterInstance F) : Type 0 where
  pub id : ℕ
  pub template : MonsterTemplate
  pub is_rare : Bool
  pub known : get_template id ≡ some template
  pub band : IsBand route is_rare id wild.level
  pub full : wild.current_hp ≡ wild.stats.hp
  pub stats : wild.stats ≡ stats_at_level F template wild.level
  pub stage : wild.stage ≡ stage_for_level template wild.level
  pub rarity : wild.rarity ≡ some (rarity_or_common template.rarity)

pick-IsIn : (pool : List ℕ) (rng : Rng) (id : ℕ) → (pick pool rng).0 ≡ some id → IsIn id pool
unfolding pick
pick-IsIn pool rng id e = ((next_word rng).0 * length pool / 2 ^ 32, e)

abbrev IsFrom : List ℕ → List ℕ → Bool → ℕ → Type 0
IsFrom rare_pool wild_pool true id = IsIn id rare_pool
IsFrom rare_pool wild_pool false id = IsIn id wild_pool

module _ {F : Type 0} ⦃n : Num F⦄ where
  roll_species-IsFrom :
      (rare_pool wild_pool : List ℕ) (get_template : ℕ → Option MonsterTemplate)
      (buffs : EncounterBuffs F) (rng : Rng) (id : ℕ)
      → let ((mon_id, is_rare), rng') = roll_species rare_pool wild_pool get_template buffs rng in
        mon_id ≡ some id → IsFrom rare_pool wild_pool is_rare id
  unfolding roll_species
  roll_species-IsFrom [] wild_pool get_template buffs rng id = pick-IsIn wild_pool rng id
  roll_species-IsFrom (r ∷ rs) wild_pool get_template buffs rng id =
      let roll = chance (pool_chance buffs (get_template r)) rng in
      elim (Bool-cases roll.0) [
        | inl hit ↦ rw hit (pick-IsIn (r ∷ rs) roll.1 id)
        | inr miss ↦ rw miss (pick-IsIn wild_pool roll.1 id)
      ]

  roll_level-IsBand :
      (route : Route F) (is_rare : Bool) (rng : Rng) (id : ℕ)
      → IsFrom route.rare_pool route.wild_pool is_rare id
      → IsBand route is_rare id (roll_level route is_rare rng).0
  unfolding roll_level
  roll_level-IsBand route true rng id h =
      (h, omega (arith, int_bounds 0 4 rng), omega (arith, int_bounds 0 4 rng))
  roll_level-IsBand route false rng id h =
      let (lo, hi) = int_bounds route.level_lo route.level_hi rng in (h, lo, hi)

  -- A wild, if there is one, is of a species of the route's common pool at a level of the route's band,
  -- or of its rare pool 3 to 7 levels above the band. It has the stats and the stage of its level, all
  -- its hit points, and a rarity.
  pub generate_wild_monster-IsWild :
      (route : Route F) (get_template : ℕ → Option MonsterTemplate) (buffs : EncounterBuffs F)
      (rng : Rng) (wild : MonsterInstance F)
      → (generate_wild_monster route get_template buffs rng).0 ≡ some wild
      → IsWild route get_template wild
  unfolding generate_wild_monster create_monster_instance
  generate_wild_monster-IsWild route get_template buffs rng wild =
      let rolled = roll_species route.rare_pool route.wild_pool get_template buffs rng in
      elim (Option-cases rolled.0.0) [
        | inl nothing ↦ rw (nothing, generate_wild_monster) (λ e. cc)
        | inr (id, species) ↦
            rw (species, generate_wild_monster)
              (elim (Option-cases (get_template id)) [
                | inl unknown ↦ rw unknown (λ e. cc)
                | inr (template, known) ↦ rw known (λ e.
                    subst (IsWild route get_template) (some-injective _ _ e) (record {
                      id = id;
                      template = template;
                      is_rare = rolled.0.1;
                      known = known;
                      band = roll_level-IsBand route rolled.0.1 rolled.1 id (
                          roll_species-IsFrom route.rare_pool route.wild_pool get_template buffs rng
                            id species);
                      full = refl;
                      stats = refl;
                      stage = refl;
                      rarity = refl;
                    }))
              ])
      ]
