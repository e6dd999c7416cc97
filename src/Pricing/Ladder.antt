-- ===== src/Pricing/Ladder.antt =====
-- src/pricing.ts: the order of the card prices.
use pokeage.Prelude.{
  ℕ, zero, suc, ◌≤◌, ◌≡◌, ◌∙◌, ap, refl, subst, inl, inr, arith, false, List, [], ◌∷◌, leb,
  Bool-cases,
}
use pokeage.Num.{Num, ◌≼◌}
use pokeage.Num.Laws.{IsNum}
use pokeage.Num.Order.{ratio-le-whole, whole-le-ratio, zero-le-ratio}
use pokeage.Types.{RarityTier}
use pokeage.Pricing.{
  Band, level_price_mult, band_loop, level_multiplier, stage_multiplier, tier_base_price_sol,
  apply_stage, card_price_sol,
}

module _ {F : Type 0} ⦃n : Num F⦄ (laws : IsNum F) where
  open n use {of_ℕ, mul}
  open laws use {le_refl, le_trans, of_ℕ_mono, mul_mono, div_le}

  -- The multipliers rise from `last` on.
  abbrev Rising : F → List (Band F) → Type 0
  Rising last [] = Unit
  Rising last (band ∷ bands) = (last ≼ band.mult) × Rising band.mult bands

  last_le-band_loop :
      (bands : List (Band F)) (last : F) (level : ℕ)
      → Rising last bands
      → last ≼ band_loop F bands last level
  unfolding band_loop
  last_le-band_loop [] last level h = le_refl last
  last_le-band_loop (band ∷ bands) last level h = elim (Bool-cases (leb level band.max)) [
    | inl within ↦ rw within h.0
    | inr above ↦
        rw above (le_trans last band.mult _ h.0 (last_le-band_loop bands band.mult level h.1))
  ]

  band_loop_mono :
      (bands : List (Band F)) (last : F) (l l' : ℕ)
      → l ≤ l'
      → Rising last bands
      → band_loop F bands last l ≼ band_loop F bands last l'
  unfolding band_loop
  band_loop_mono [] last l l' le h = le_refl last
  band_loop_mono (band ∷ bands) last l l' le h = elim (Bool-cases (leb l band.max)) [
    | inr above ↦
        let above' : leb l' band.max ≡ false = ground arith in
        rw (above, above') (band_loop_mono bands band.mult l l' le h.1)
    | inl within ↦ rw within (elim (Bool-cases (leb l' band.max)) [
      | inl within' ↦ rw within' (le_refl band.mult)
      | inr above' ↦ rw above' (last_le-band_loop bands band.mult l' h.1)
    ])
  ]

  level_price_mult-Rising : Rising (of_ℕ 1) (level_price_mult F)
  level_price_mult-Rising = (
    le_refl _,
    (
      whole-le-ratio laws 1 15 10 (omega arith) (omega arith),
      (
        div_le 15 10 25 10 (omega arith) (omega arith) (omega arith),
        (
          ratio-le-whole laws 25 10 4 (omega arith) (omega arith),
          (of_ℕ_mono 4 6 (omega arith), (of_ℕ_mono 6 10 (omega arith), tt)),
        ),
      ),
    ),
  )

  stage_multiplier_mono : (s s' : ℕ) → s ≤ s' → stage_multiplier F s ≼ stage_multiplier F s'
  stage_multiplier_mono zero zero h = le_refl _
  stage_multiplier_mono zero (suc zero) h = of_ℕ_mono 1 2 (omega arith)
  stage_multiplier_mono zero (suc (suc s')) h = of_ℕ_mono 1 4 (omega arith)
  stage_multiplier_mono (suc zero) zero h = absurd (omega arith)
  stage_multiplier_mono (suc zero) (suc zero) h = le_refl _
  stage_multiplier_mono (suc zero) (suc (suc s')) h = of_ℕ_mono 2 4 (omega arith)
  stage_multiplier_mono (suc (suc s)) zero h = absurd (omega arith)
  stage_multiplier_mono (suc (suc s)) (suc zero) h = absurd (omega arith)
  stage_multiplier_mono (suc (suc s)) (suc (suc s')) h = le_refl _

  apply_stage_mono :
      (tier : RarityTier) (s s' : ℕ) → s ≤ s' → apply_stage F tier s ≼ apply_stage F tier s'
  apply_stage_mono RarityTier.common s s' h = stage_multiplier_mono s s' h
  apply_stage_mono RarityTier.uncommon s s' h = stage_multiplier_mono s s' h
  apply_stage_mono RarityTier.rare s s' h = stage_multiplier_mono s s' h
  apply_stage_mono RarityTier.holo s s' h = stage_multiplier_mono s s' h
  apply_stage_mono RarityTier.ultra s s' h = le_refl _
  apply_stage_mono RarityTier.secret s s' h = le_refl _

  apply_stage-zero : (tier : RarityTier) → apply_stage F tier 0 ≡ of_ℕ 1
  apply_stage-zero RarityTier.common = refl
  apply_stage-zero RarityTier.uncommon = refl
  apply_stage-zero RarityTier.rare = refl
  apply_stage-zero RarityTier.holo = refl
  apply_stage-zero RarityTier.ultra = refl
  apply_stage-zero RarityTier.secret = refl

  zero-le-base : (tier : RarityTier) → of_ℕ 0 ≼ tier_base_price_sol F tier
  zero-le-base RarityTier.common = zero-le-ratio laws 1 1000 (omega arith)
  zero-le-base RarityTier.uncommon = zero-le-ratio laws 5 1000 (omega arith)
  zero-le-base RarityTier.rare = zero-le-ratio laws 5 100 (omega arith)
  zero-le-base RarityTier.holo = zero-le-ratio laws 3 10 (omega arith)
  zero-le-base RarityTier.ultra = of_ℕ_mono 0 3 (omega arith)
  zero-le-base RarityTier.secret = of_ℕ_mono 0 30 (omega arith)

  one-le-level : (level : ℕ) → of_ℕ 1 ≼ level_multiplier F level
  one-le-level level = last_le-band_loop (level_price_mult F) (of_ℕ 1) level level_price_mult-Rising

  zero-le-product : (x y : F) → of_ℕ 0 ≼ x → of_ℕ 0 ≼ y → of_ℕ 0 ≼ mul x y
  zero-le-product x y hx hy =
      subst (λ z. z ≼ mul x y) (laws.mul-zero x hx)
        (mul_mono x x (of_ℕ 0) y hx (le_refl _) (le_refl x) hy)

  positive : (x : F) → of_ℕ 1 ≼ x → of_ℕ 0 ≼ x
  positive x h = le_trans (of_ℕ 0) (of_ℕ 1) x (of_ℕ_mono 0 1 (omega arith)) h

  price_mono :
      (tier : RarityTier) (l l' s s' : ℕ)
      → l ≤ l'
      → s ≤ s'
      → card_price_sol F tier l s ≼ card_price_sol F tier l' s'
  unfolding card_price_sol
  price_mono tier l l' s s' hl hs =
      let base = zero-le-base tier in
      let level = positive _ (one-le-level l) in
      let stage_one : of_ℕ 1 ≼ apply_stage F tier s =
        subst (λ x. x ≼ apply_stage F tier s) (apply_stage-zero tier)
          (apply_stage_mono tier 0 s (omega arith)) in
      mul_mono _ _ _ _ (zero-le-product _ _ base level) (positive _ stage_one)
        (mul_mono _ _ _ _ base level (le_refl _)
          (band_loop_mono (level_price_mult F) (of_ℕ 1) l l' hl level_price_mult-Rising))
        (apply_stage_mono tier s s' hs)

  first_price : (tier : RarityTier) → card_price_sol F tier 0 0 ≡ tier_base_price_sol F tier
  unfolding card_price_sol band_loop
  first_price tier =
      let base = tier_base_price_sol F tier in
      ap (λ x. mul (mul base (of_ℕ 1)) x) (apply_stage-zero tier)
      ∙ (laws.mul-one (mul base (of_ℕ 1)) ∙ laws.mul-one base)

  -- A card is never priced below the base price of its tier, and never loses value as it grows: at a
  -- higher level or stage its price is at least as high.
  pub card_price_sol_mono :
      (tier : RarityTier) (l l' s s' : ℕ)
      → l ≤ l'
      → s ≤ s'
      → (tier_base_price_sol F tier ≼ card_price_sol F tier l s)
        × (card_price_sol F tier l s ≼ card_price_sol F tier l' s')
  card_price_sol_mono tier l l' s s' hl hs = (
    subst (λ x. x ≼ card_price_sol F tier l s) (first_price tier)
        (price_mono tier 0 l 0 s (omega arith) (omega arith)),
    price_mono tier l l' s s' hl hs,
  )
