-- ===== src/Encounter.antt =====
-- src/encounter.ts: the wild monster of a route. The route's lists are always there.
pub mod Draws
pub mod Levels
pub mod Found
use pokeage.Prelude.{ℕ, ◌+◌, Bool, true, false, Option, none, some, List, [], ◌∷◌, if◌then◌else◌}
use pokeage.Num.{Num, ratio}
use pokeage.Types.{MonsterTemplate, MonsterInstance, Rarity, Route}
use pokeage.Power.{rarity_or_common}
use pokeage.Rng.{Rng, chance, pick, int}
use pokeage.Stats.{create_monster_instance}

-- The multipliers on the rolls for the rare pool.
pub record EncounterBuffs (F : Type 0) : Type 0 where
  pub rare : Option F
  pub legend : Option F

abbrev pub is_legendary : Option MonsterTemplate → Bool
is_legendary (some tpl) = elim (rarity_or_common tpl.rarity) [ Rarity.legendary ↦ true | _ ↦ false ]
is_legendary none = false

module _ {F : Type 0} ⦃n : Num F⦄ where
  open n use {of_ℕ, mul}

  abbrev pub buff_or_one : Option F → F
  buff_or_one none = of_ℕ 1
  buff_or_one (some x) = x

  -- `RARE_ZONE_CHANCE` and `LEGEND_ZONE_CHANCE`, times the buff.
  abbrev pub pool_chance : EncounterBuffs F → Option MonsterTemplate → F
  pool_chance buffs sample_tpl =
      if is_legendary sample_tpl
      then mul (ratio 8 1000) (buff_or_one buffs.legend)
      else mul (ratio 2 100) (buff_or_one buffs.rare)

  -- The species, and whether it is from the rare pool.
  unfoldable pub roll_species :
      List ℕ
      → List ℕ
      → (ℕ → Option MonsterTemplate)
      → EncounterBuffs F
      → Rng
      → (Option ℕ × Bool) × Rng
  roll_species [] wild_pool get_template buffs rng =
      let (mon_id, rng') = pick wild_pool rng in ((mon_id, false), rng')
  roll_species (r ∷ rs) wild_pool get_template buffs rng =
      let (hit, rng') = chance (pool_chance buffs (get_template r)) rng in
      let (rare_id, rng_rare) = pick (r ∷ rs) rng' in
      let (wild_id, rng_wild) = pick wild_pool rng' in
      if hit then ((rare_id, true), rng_rare) else ((wild_id, false), rng_wild)

  unfoldable pub roll_level : Route F → Bool → Rng → ℕ × Rng
  roll_level route true rng = let (extra, rng') = int 0 4 rng in (route.level_hi + extra + 3, rng')
  roll_level route false rng = int route.level_lo route.level_hi rng

  unfoldable pub generate_wild_monster :
      Route F
      → (ℕ → Option MonsterTemplate)
      → EncounterBuffs F
      → Rng
      → Option (MonsterInstance F) × Rng
  generate_wild_monster route get_template buffs rng =
      let ((mon_id, is_rare), rng') =
        roll_species route.rare_pool route.wild_pool get_template buffs rng in
      elim mon_id [
        | none ↦ (none, rng')
        | some id ↦ elim (get_template id) [
          | none ↦ (none, rng')
          | some template ↦
              let (level, rng'') = roll_level route is_rare rng' in
              (
                some (record (create_monster_instance F template level) {
                  rarity = some (rarity_or_common template.rarity);
                }),
                rng'',
              )
        ]
      ]
