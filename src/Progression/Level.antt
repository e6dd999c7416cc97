-- ===== src/Progression/Level.antt =====
-- src/progression.ts: what `grantXp` does to level, experience, hit points and stage.
use pokeage.Prelude.{
  ℕ, zero, suc, ◌+◌, ◌-◌, ◌≤◌, ◌<◌, ◌≡◌, ◌⊎◌, inl, inr, arith, max, true, false, Bool-cases,
}
use pokeage.Num.{Num}
use pokeage.Types.{MonsterTemplate, MonsterInstance}
use pokeage.Constants.{max_level}
use pokeage.Progression.{get_xp_for_level, evolve_at, level_up, can_level, grant_loop, grant_xp}

module _ (F : Type 0) ⦃n : Num F⦄ where
  -- An invariant of one level is an invariant of the loop.
  pub grant_loop_inv {ℓ} :
      (P : MonsterInstance F → Type ℓ) (template : MonsterTemplate)
      → ((m : MonsterInstance F)
          → can_level F m ≡ true
          → P m
          → P (evolve_at F (level_up F template m)).0)
      → (fuel : ℕ) (m : MonsterInstance F) → P m
      → P (grant_loop F fuel template m).0
  unfolding grant_loop
  grant_loop_inv P template keep zero m h = h
  grant_loop_inv P template keep (suc fuel) m h = elim (Bool-cases (can_level F m)) [
    | inl more ↦ rw more (
        grant_loop_inv P template keep fuel (evolve_at F (level_up F template m)).0 (keep m more h))
    | inr done ↦ rw done h
  ]

  -- What one round leaves behind, read off `evolve_at` and `level_up`.
  pub round_level :
      (template : MonsterTemplate) (m : MonsterInstance F)
      → (evolve_at F (level_up F template m)).0.level ≡ m.level + 1
  unfolding evolve_at level_up
  round_level template m = ground arith

  pub round_xp :
      (template : MonsterTemplate) (m : MonsterInstance F)
      → (evolve_at F (level_up F template m)).0.xp ≡ m.xp - get_xp_for_level F m.level
  unfolding evolve_at level_up
  round_xp template m = ground arith

  grant_loop-stops :
      (template : MonsterTemplate) (fuel : ℕ) (m : MonsterInstance F)
      → max_level ≤ fuel + m.level
      → can_level F (grant_loop F fuel template m).0 ≡ false
  unfolding grant_loop
  grant_loop-stops template zero m h = ground arith
  grant_loop-stops template (suc fuel) m h = elim (Bool-cases (can_level F m)) [
    | inl more ↦ rw more (
        grant_loop-stops template fuel (evolve_at F (level_up F template m)).0
          (omega (arith, round_level template m)))
    | inr done ↦ rw done done
  ]

  -- The loop of `grantXp` ends by its own test: afterwards the experience is below the next threshold
  -- or the level is at its maximum, and the level has not fallen nor passed 55 on the way.
  pub grant_xp_stops :
      (mon : MonsterInstance F) (amount : ℕ) (template : MonsterTemplate)
      → let mon' = (grant_xp F mon amount template).0 in
        ((mon'.xp < get_xp_for_level F mon'.level) ⊎ (max_level ≤ mon'.level))
        × (mon.level ≤ mon'.level)
        × (mon'.level ≤ max mon.level max_level)
  unfolding grant_xp
  grant_xp_stops mon amount template =
      let start : MonsterInstance F = record mon { xp = mon.xp + amount } in
      (
        ground (arith, grant_loop-stops template max_level start),
        (grant_loop_inv (λ m. (mon.level ≤ m.level) × (m.level ≤ max mon.level max_level)) template
            (λ m more h. ground (arith, round_level template m)) max_level start (omega arith)).0,
        (grant_loop_inv (λ m. (mon.level ≤ m.level) × (m.level ≤ max mon.level max_level)) template
            (λ m more h. ground (arith, round_level template m)) max_level start (omega arith)).1,
      )

  -- Hit points stay within the maximum.
  pub grant_xp_hp :
      (mon : MonsterInstance F) (amount : ℕ) (template : MonsterTemplate)
      → mon.current_hp ≤ mon.stats.hp
      → let mon' = (grant_xp F mon amount template).0 in mon'.current_hp ≤ mon'.stats.hp
  unfolding grant_xp evolve_at level_up
  grant_xp_hp mon amount template h =
      grant_loop_inv (λ m. m.current_hp ≤ m.stats.hp) template (λ m more k. ground arith) max_level
        (record mon { xp = mon.xp + amount }) h
