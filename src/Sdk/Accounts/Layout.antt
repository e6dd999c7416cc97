-- ===== src/Sdk/Accounts/Layout.antt =====
-- The account layouts of the on-chain program (programs/pokeage/src/state): each struct's fields in
-- declaration order, little-endian, behind an 8-byte discriminator. This is the independent side of
-- the decoders' theorems.
use pokeage.Prelude.{ℕ, ◌^◌, ◌<◌, List, [], ◌∷◌}
use pokeage.Sdk.Borsh.{le_bytes, i64_word, magnitude}
use pokeage.Sdk.Borsh.Reads.{bool_byte}
use pokeage.Sdk.Keys.{Web3}
use pokeage.Sdk.Accounts.{ConfigAccount, PlayerAccount, PoolAccount, ListingAccount}

-- The integers of a struct are in the range of their Rust types.
pub record FitsPool (a : PoolAccount) : Type 0 where
  pub total_lamports_lt : a.total_lamports < 2 ^ 64
  pub lifetime_in_lt : a.lifetime_in < 2 ^ 64
  pub lifetime_out_lt : a.lifetime_out < 2 ^ 64
  pub floor_price_lt : a.floor_price < 2 ^ 64
  pub bump_lt : a.bump < 2 ^ 8

abbrev pub pool_layout : PoolAccount → List (List ℕ)
pool_layout a =
    le_bytes 8 a.total_lamports
    ∷ le_bytes 8 a.lifetime_in
    ∷ le_bytes 8 a.lifetime_out
    ∷ le_bytes 8 a.floor_price
    ∷ le_bytes 1 (bool_byte a.instant_sell_enabled)
    ∷ le_bytes 1 a.bump
    ∷ []

module _ {P : Type 0} ⦃web3 : Web3 P⦄ where
  open web3 use {to_bytes}

  abbrev pub config_layout : ConfigAccount P → List (List ℕ)
  config_layout a =
      to_bytes a.authority
      ∷ to_bytes a.page_mint
      ∷ to_bytes a.treasury
      ∷ to_bytes a.buyback_vault
      ∷ le_bytes 2 a.burn_bps
      ∷ le_bytes 2 a.pool_bps
      ∷ le_bytes 2 a.market_fee_bps
      ∷ le_bytes 2 a.instant_sell_bps
      ∷ le_bytes 8 a.listing_fee
      ∷ le_bytes 8 a.total_burned
      ∷ le_bytes 8 a.total_cards_minted
      ∷ le_bytes 1 a.paused
      ∷ le_bytes 1 a.bump
      ∷ []

  abbrev pub player_layout : PlayerAccount P → List (List ℕ)
  player_layout a =
      to_bytes a.owner
      ∷ le_bytes 1 (bool_byte a.agent_deployed)
      ∷ le_bytes 8 a.total_caught
      ∷ le_bytes 4 a.gym_wins
      ∷ le_bytes 2 a.badges
      ∷ le_bytes 8 (i64_word a.last_action)
      ∷ le_bytes 1 a.bump
      ∷ []

  abbrev pub listing_layout : ListingAccount P → List (List ℕ)
  listing_layout a =
      to_bytes a.seller
      ∷ to_bytes a.card_mint
      ∷ le_bytes 8 a.price
      ∷ le_bytes 1 a.tier
      ∷ le_bytes 1 a.level
      ∷ le_bytes 1 a.stage
      ∷ le_bytes 8 (i64_word a.created_at)
      ∷ le_bytes 1 (bool_byte a.active)
      ∷ le_bytes 1 a.bump
      ∷ []

pub record FitsConfig {P : Type 0} (a : ConfigAccount P) : Type 0 where
  pub burn_bps_lt : a.burn_bps < 2 ^ 16
  pub pool_bps_lt : a.pool_bps < 2 ^ 16
  pub market_fee_bps_lt : a.market_fee_bps < 2 ^ 16
  pub instant_sell_bps_lt : a.instant_sell_bps < 2 ^ 16
  pub listing_fee_lt : a.listing_fee < 2 ^ 64
  pub total_burned_lt : a.total_burned < 2 ^ 64
  pub total_cards_minted_lt : a.total_cards_minted < 2 ^ 64
  pub paused_lt : a.paused < 2 ^ 8
  pub bump_lt : a.bump < 2 ^ 8

pub record FitsPlayer {P : Type 0} (a : PlayerAccount P) : Type 0 where
  pub total_caught_lt : a.total_caught < 2 ^ 64
  pub gym_wins_lt : a.gym_wins < 2 ^ 32
  pub badges_lt : a.badges < 2 ^ 16
  pub last_action_lt : magnitude a.last_action < 2 ^ 63
  pub bump_lt : a.bump < 2 ^ 8

pub record FitsListing {P : Type 0} (a : ListingAccount P) : Type 0 where
  pub price_lt : a.price < 2 ^ 64
  pub tier_lt : a.tier < 2 ^ 8
  pub level_lt : a.level < 2 ^ 8
  pub stage_lt : a.stage < 2 ^ 8
  pub created_at_lt : magnitude a.created_at < 2 ^ 63
  pub bump_lt : a.bump < 2 ^ 8
