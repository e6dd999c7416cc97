-- ===== src/Stats/Growth.antt =====
-- src/stats.ts: the linear growth of a stat, from the base at level 1 to the target at level 50.
use native.Mathlib.Decide.{dec_le}
use pokeage.Prelude.{ℕ, ◌+◌, ◌-◌, ◌^◌, ◌≤◌, ◌<◌, ◌≡◌, ◌⊎◌, inl, inr, arith, ap, ◌∙◌}
use pokeage.Num.{Num, ◌≼◌, ratio, clamp}
use pokeage.Num.Laws.{IsNum}
use pokeage.Num.Order.{whole-le-ratio, zero-le-ratio, clamp_bounds, clamp_mono}
use pokeage.Constants.{growth_span}
use pokeage.Stats.{growth_at, interp_stat}

module _ {F : Type 0} ⦃n : Num F⦄ (laws : IsNum F) where
  open n use {of_ℕ, add, sub, mul, div, floor, le}
  open laws use {
    le_refl, le_trans, le_total, of_ℕ_mono, of_ℕ_lt, add_mono, sub_mono, mul_mono, div_le, add-zero,
    mul-one, mul-zero, zero-div, sub-of_ℕ, add-of_ℕ, floor_mono, floor-of_ℕ,
  }

  growth_bounds : (level : ℕ) → (of_ℕ 0 ≼ growth_at F level) × (growth_at F level ≼ of_ℕ 1)
  unfolding growth_at
  growth_bounds level = clamp_bounds laws (of_ℕ 0) (of_ℕ 1) _ (of_ℕ_mono 0 1 (omega arith))

  growth_ratio :
      (level : ℕ)
      → 1 ≤ level
      → level ≤ 2 ^ 53
      → growth_at F level ≡ clamp (of_ℕ 0) (of_ℕ 1) (ratio (level - 1) growth_span)
  unfolding growth_at
  growth_ratio level h k = rw (sub-of_ℕ level 1 h k)

  growth_start : growth_at F 1 ≡ of_ℕ 0
  growth_start =
      growth_ratio 1 (omega arith) (omega arith)
      ∙ ap (clamp (of_ℕ 0) (of_ℕ 1)) (zero-div growth_span (omega arith))
      ∙ ground (arith, le_refl (of_ℕ 0), of_ℕ_lt 0 1)

  growth_end : (level : ℕ) → 50 ≤ level → level ≤ 2 ^ 53 → growth_at F level ≡ of_ℕ 1
  growth_end level h k =
      growth_ratio level (omega arith) k
      ∙ ground (
        arith,
        whole-le-ratio laws 1 (level - 1) growth_span,
        zero-le-ratio laws (level - 1) growth_span,
      )

  growth_mono : (l l' : ℕ) → 1 ≤ l → l ≤ l' → l' ≤ 2 ^ 53 → growth_at F l ≼ growth_at F l'
  growth_mono l l' h k b =
      rw (growth_ratio l h (omega arith), growth_ratio l' (omega arith) b)
        (clamp_mono laws (of_ℕ 0) (of_ℕ 1) _ _ (
          div_le (l - 1) growth_span (l' - 1) growth_span (omega arith) (omega arith)
            (omega arith)))

  gain_nonneg :
      (base target : ℕ) → base ≤ target → target ≤ 2 ^ 53 → of_ℕ 0 ≼ sub (of_ℕ target) (of_ℕ base)
  gain_nonneg base target h k =
      rw (sub-of_ℕ target base h k) (of_ℕ_mono 0 (target - base) (omega arith))

  -- A species whose target is not below its base grows: a stat never falls from one level to a later
  -- one, is the base at level 1, and stays at the target from level 50 on.
  pub interp_stat_mono :
      (base target l l' : ℕ)
      → base ≤ target
      → target ≤ 2 ^ 53
      → 1 ≤ l
      → l ≤ l'
      → l' ≤ 2 ^ 53
      → interp_stat F base target l ≤ interp_stat F base target l'
  unfolding interp_stat
  interp_stat_mono base target l l' h b p q c = floor_mono _ _ (
      add_mono _ _ _ _ (le_refl (of_ℕ base)) (
        mul_mono _ _ _ _ (gain_nonneg base target h b) (growth_bounds l).0 (le_refl _)
          (growth_mono l l' p q c)))

  -- The stat at a level whose progress is known.
  interp_at :
      (base target level : ℕ) (g : F)
      → growth_at F level ≡ g
      → interp_stat F base target level
        ≡ floor (add (of_ℕ base) (mul (sub (of_ℕ target) (of_ℕ base)) g))
  unfolding interp_stat
  interp_at base target level g e =
      ap (λ x. floor (add (of_ℕ base) (mul (sub (of_ℕ target) (of_ℕ base)) x))) e

  interp_start :
      (base target : ℕ) → base ≤ target → target ≤ 2 ^ 53 → interp_stat F base target 1 ≡ base
  interp_start base target h b =
      interp_at base target 1 _ growth_start
      ∙ rw (mul-zero _ (gain_nonneg base target h b), add-zero (of_ℕ base))
          (floor-of_ℕ base (omega arith))

  interp_end :
      (base target level : ℕ)
      → base ≤ target
      → target ≤ 2 ^ 53
      → 50 ≤ level
      → level ≤ 2 ^ 53
      → interp_stat F base target level ≡ target
  interp_end base target level h b p q =
      interp_at base target level _ (growth_end level p q)
      ∙ rw (mul-one, sub-of_ℕ target base h b, add-of_ℕ base (target - base) (omega arith))
          (floor-of_ℕ (base + (target - base)) (omega arith) ∙ omega arith)

  -- At every level from 1 on a stat lies between its base and its target. It is the base at level 1
  -- and the target from level 50 on.
  pub interp_stat_bounds :
      (base target level : ℕ)
      → base ≤ target
      → target ≤ 2 ^ 53
      → 1 ≤ level
      → level ≤ 2 ^ 53
      → (base ≤ interp_stat F base target level)
        × (interp_stat F base target level ≤ target)
        × (interp_stat F base target 1 ≡ base)
        × ((level < 50) ⊎ (interp_stat F base target level ≡ target))
  interp_stat_bounds base target level h b p q =
      let first = interp_start base target h b in
      (
        omega (arith, first, interp_stat_mono base target 1 level h b (omega arith) p q),
        elim (dec_le 50 level) [
          | yes late ↦ omega (arith, interp_end base target level h b late q)
          | no early ↦ omega (
            arith,
            interp_end base target 50 h b (omega arith) (omega arith),
            interp_stat_mono base target level 50 h b p (omega arith) (omega arith),
          )
        ],
        first,
        elim (dec_le 50 level) [
          | yes late ↦ inr (interp_end base target level h b late q)
          | no early ↦ inl (omega arith)
        ],
      )
