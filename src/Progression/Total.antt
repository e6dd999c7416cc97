-- ===== src/Progression/Total.antt =====
-- src/progression.ts: the sum of the experience, and the events.
use pokeage.Prelude.{ℕ, zero, suc, ◌+◌, ◌-◌, ◌≤◌, ◌≡◌, ◌∙◌, arith, ap, List, [], ◌∷◌, ◌++◌}
use native.Mathlib.Nat.{add-zero}
use pokeage.Num.{Num}
use pokeage.Types.{MonsterTemplate, MonsterInstance}
use pokeage.Constants.{max_level}
use pokeage.Progression.{
  ProgressEvent, levelup, evolve, get_xp_for_level, evolve_at, level_up, grant_loop, grant_xp,
  cumulative_xp, cumulative_loop,
}
use pokeage.Progression.Level.{grant_loop_inv, round_level, round_xp}

module _ (F : Type 0) ⦃n : Num F⦄ where
  cumulative_loop-suc :
      (l k t : ℕ)
      → cumulative_loop F l (suc k) t ≡ cumulative_loop F l k t + get_xp_for_level F (l + k)
  unfolding cumulative_loop
  cumulative_loop-suc l zero t = rw add-zero
  cumulative_loop-suc l (suc k) t =
      let e : l + 1 + k ≡ l + suc k = omega arith in
      cumulative_loop-suc (l + 1) k (t + get_xp_for_level F l)
      ∙ ap (λ x. cumulative_loop F (l + 1) k (t + get_xp_for_level F l) + get_xp_for_level F x) e

  -- The total of the thresholds grows by the threshold of the level that is passed.
  cumulative_xp-suc :
      (l : ℕ) → 1 ≤ l → cumulative_xp F (l + 1) ≡ cumulative_xp F l + get_xp_for_level F l
  unfolding cumulative_xp
  cumulative_xp-suc zero h = absurd (omega arith)
  cumulative_xp-suc (suc k) h =
      let up : suc k + 1 - 1 ≡ suc k = omega arith in
      let down : suc k - 1 ≡ k = omega arith in
      let same : 1 + k ≡ suc k = omega arith in
      omega (
        arith,
        ap (λ x. cumulative_loop F 1 x 0) up,
        ap (λ x. cumulative_loop F 1 x 0) down,
        cumulative_loop-suc 1 k 0,
        ap (get_xp_for_level F) same,
      )

  -- Nothing of the experience is lost: the thresholds passed and what is left add up to what the
  -- monster had and was granted.
  pub grant_xp-total :
      (mon : MonsterInstance F) (amount : ℕ) (template : MonsterTemplate)
      → 1 ≤ mon.level
      → let mon' = (grant_xp F mon amount template).0 in
        cumulative_xp F mon'.level + mon'.xp ≡ cumulative_xp F mon.level + mon.xp + amount
  unfolding grant_xp
  grant_xp-total mon amount template h =
      (grant_loop_inv F
        (λ m.
          (1 ≤ m.level)
          × (cumulative_xp F m.level + m.xp ≡ cumulative_xp F mon.level + mon.xp + amount))
        template
        (λ m more k. ground (
          arith,
          round_level F template m,
          round_xp F template m,
          cumulative_xp-suc m.level,
          ap (cumulative_xp F) (round_level F template m),
        ))
        max_level (record mon { xp = mon.xp + amount }) (omega arith)).1

  -- The number of level-up events.
  abbrev pub levelups : List ProgressEvent → ℕ
  levelups [] = 0
  levelups (levelup l ∷ es) = suc (levelups es)
  levelups (evolve s ∷ es) = levelups es

  levelups-append : (xs ys : List ProgressEvent) → levelups (xs ++ ys) ≡ levelups xs + levelups ys
  levelups-append [] ys = omega arith
  levelups-append (levelup l ∷ xs) ys = omega (arith, levelups-append xs ys)
  levelups-append (evolve s ∷ xs) ys = levelups-append xs ys

  levelups-evolve_at : (m : MonsterInstance F) → levelups (evolve_at F m).1 ≡ 0
  unfolding evolve_at
  levelups-evolve_at m = ground arith

  grant_loop-levelups :
      (template : MonsterTemplate) (fuel : ℕ) (m : MonsterInstance F)
      → m.level + levelups (grant_loop F fuel template m).1 ≡ (grant_loop F fuel template m).0.level
  unfolding grant_loop
  grant_loop-levelups template zero m = omega arith
  grant_loop-levelups template (suc fuel) m =
      let next = evolve_at F (level_up F template m) in
      ground (
        arith,
        grant_loop-levelups template fuel next.0,
        round_level F template m,
        levelups-append next.1 (grant_loop F fuel template next.0).1,
        levelups-evolve_at (level_up F template m),
      )

  -- `grantXp` reports exactly one level-up for each level gained.
  pub grant_xp-levelups :
      (mon : MonsterInstance F) (amount : ℕ) (template : MonsterTemplate)
      → let (mon', events) = grant_xp F mon amount template in
        mon.level + levelups events ≡ mon'.level
  unfolding grant_xp
  grant_xp-levelups mon amount template =
      grant_loop-levelups template max_level (record mon { xp = mon.xp + amount })
