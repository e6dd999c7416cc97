-- ===== src/Pricing.antt =====
-- src/pricing.ts: card prices and tier codes.
pub mod Codes
pub mod Ladder
use pokeage.Prelude.{
  List, [], ◌∷◌, ℕ, zero, suc, ◌*◌, ◌/◌, leb, ◌==◌, if◌then◌else◌, ℤ, pos, negsuc,
}
use pokeage.Num.{Num, ratio}
use pokeage.Types.{RarityTier}
use pokeage.Constants.{instant_sell_bps, bps_denom}

module _ (F : Type 0) ⦃n : Num F⦄ where
  open n use {of_ℕ, mul}

  -- An entry of `LEVEL_PRICE_MULT`.
  pub record Band : Type 0 where
    pub max : ℕ
    pub mult : F

  abbrev pub level_price_mult : List Band
  level_price_mult =
      record { max = 20; mult = of_ℕ 1 }
      ∷ record { max = 40; mult = ratio 15 10 }
      ∷ record { max = 60; mult = ratio 25 10 }
      ∷ record { max = 80; mult = of_ℕ 4 }
      ∷ record { max = 99; mult = of_ℕ 6 }
      ∷ record { max = 100; mult = of_ℕ 10 }
      ∷ []

  -- The loop over the bands, which falls back on the last one's multiplier; `last` is that of the band
  -- before.
  unfoldable pub band_loop : List Band → F → ℕ → F
  band_loop [] last level = last
  band_loop (band ∷ bands) last level =
      if leb level band.max then band.mult else band_loop bands band.mult level

  -- The table is not empty, so that the 1 is never returned for want of a band.
  abbrev pub level_multiplier : ℕ → F
  level_multiplier level = band_loop level_price_mult (of_ℕ 1) level

  -- Entry `min(stage, 2)` of `STAGE_PRICE_MULT`, which has no 0.
  abbrev pub stage_multiplier : ℕ → F
  stage_multiplier zero = of_ℕ 1
  stage_multiplier (suc zero) = of_ℕ 2
  stage_multiplier (suc (suc stage)) = of_ℕ 4

  abbrev pub tier_base_price_sol : RarityTier → F
  tier_base_price_sol RarityTier.common = ratio 1 1000
  tier_base_price_sol RarityTier.uncommon = ratio 5 1000
  tier_base_price_sol RarityTier.rare = ratio 5 100
  tier_base_price_sol RarityTier.holo = ratio 3 10
  tier_base_price_sol RarityTier.ultra = of_ℕ 3
  tier_base_price_sol RarityTier.secret = of_ℕ 30

  abbrev pub apply_stage : RarityTier → ℕ → F
  apply_stage RarityTier.ultra stage = of_ℕ 1
  apply_stage RarityTier.secret stage = of_ℕ 1
  apply_stage _ stage = stage_multiplier stage

  unfoldable pub card_price_sol : RarityTier → ℕ → ℕ → F
  card_price_sol tier level stage =
      mul (mul (tier_base_price_sol tier) (level_multiplier level)) (apply_stage tier stage)

abbrev pub mint_fee_lamports : RarityTier → ℕ
mint_fee_lamports RarityTier.common = 1_000_000
mint_fee_lamports RarityTier.uncommon = 3_000_000
mint_fee_lamports RarityTier.rare = 10_000_000
mint_fee_lamports RarityTier.holo = 50_000_000
mint_fee_lamports RarityTier.ultra = 200_000_000
mint_fee_lamports RarityTier.secret = 1_000_000_000

-- The product is exact for floors below 2^53 / 5000.
unfoldable pub instant_sell_quote : ℕ → ℕ
instant_sell_quote floor_lamports = floor_lamports * instant_sell_bps / bps_denom

abbrev pub tier_at : ℕ → RarityTier
tier_at code =
    if code == 0
    then RarityTier.common
    else if code == 1
    then RarityTier.uncommon
    else if code == 2
    then RarityTier.rare
    else if code == 3
    then RarityTier.holo
    else if code == 4
    then RarityTier.ultra
    else RarityTier.secret

-- The entry of `TIER_ORDER` at the code, which is cut to 0..5.
unfoldable pub tier_from_code : ℤ → RarityTier
tier_from_code (pos code) = tier_at code
tier_from_code (negsuc code) = tier_at 0

unfoldable pub tier_to_code : RarityTier → ℕ
tier_to_code RarityTier.common = 0
tier_to_code RarityTier.uncommon = 1
tier_to_code RarityTier.rare = 2
tier_to_code RarityTier.holo = 3
tier_to_code RarityTier.ultra = 4
tier_to_code RarityTier.secret = 5
