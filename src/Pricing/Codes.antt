-- ===== src/Pricing/Codes.antt =====
-- src/pricing.ts: the tier codes and the instant sell.
use pokeage.Prelude.{ℕ, ◌+◌, ◌*◌, ◌≤◌, ◌<◌, ◌≡◌, refl, arith, min, pos, negsuc}
use pokeage.Types.{RarityTier}
use pokeage.Pricing.{tier_from_code, tier_to_code, instant_sell_quote}

tier_from_code-tier_to_code : (tier : RarityTier) → tier_from_code (pos (tier_to_code tier)) ≡ tier
unfolding tier_to_code tier_from_code
tier_from_code-tier_to_code RarityTier.common = refl
tier_from_code-tier_to_code RarityTier.uncommon = refl
tier_from_code-tier_to_code RarityTier.rare = refl
tier_from_code-tier_to_code RarityTier.holo = refl
tier_from_code-tier_to_code RarityTier.ultra = refl
tier_from_code-tier_to_code RarityTier.secret = refl

-- A tier's code gives the tier back. A code from 0 on gives the tier whose code it is, or is cut to 5,
-- and a code below 0 gives the lowest tier.
pub tier_codes_lem :
    (tier : RarityTier) (code : ℕ)
    → (tier_from_code (pos (tier_to_code tier)) ≡ tier)
      × (tier_to_code (tier_from_code (pos code)) ≡ min code 5)
      × (tier_to_code (tier_from_code (negsuc code)) ≡ 0)
unfolding tier_to_code tier_from_code
tier_codes_lem tier code = (tier_from_code-tier_to_code tier, ground arith, refl)

-- The instant sell pays half of the floor price, rounded down.
pub instant_sell_quote_lem :
    (floor_lamports : ℕ)
    → (2 * instant_sell_quote floor_lamports ≤ floor_lamports)
      × (floor_lamports < 2 * instant_sell_quote floor_lamports + 2)
unfolding instant_sell_quote
instant_sell_quote_lem floor_lamports = (omega arith, omega arith)
