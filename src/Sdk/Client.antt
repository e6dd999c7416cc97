-- ===== src/Sdk/Client.antt =====
-- sdk/src/client.ts: the client. Its connection is the parameter `chain`, and each read is the answer
-- on the accounts as they stand.
pub mod Quotes
use pokeage.Prelude.{ℕ, ℤ, Option, none, some, List}
use pokeage.Num.{Num}
use pokeage.Pricing.{card_price_sol, mint_fee_lamports, instant_sell_quote, tier_from_code}
use pokeage.Save.{or_else}
use pokeage.Sdk.Keys.{Web3}
use pokeage.Sdk.Chain.{Chain, Spl}
use pokeage.Sdk.Pda.{config_pda, pool_pda, player_pda, listing_pda, card_pda}
use pokeage.Sdk.Accounts.{ConfigAccount, PoolAccount, PlayerAccount, ListingAccount}
use pokeage.Sdk.Fetch.{get_config, get_pool, get_player, get_listing}
use pokeage.Sdk.Token.{TokenBalance, get_token_balance}
use pokeage.Sdk.Instructions.{
  SinkAccounts, TransactionInstruction, deploy_agent_ix, catch_attempt_ix, gym_challenge_ix,
  force_evolve_ix,
}

pub record PokeageClient (P : Type 0) : Type 0 where
  pub connection : Chain P
  pub client_program : P

module _ {P : Type 0} ⦃web3 : Web3 P⦄ where
  unfoldable pub new_client : Chain P → Option P → PokeageClient P
  new_client connection program_id = record {
    connection = connection;
    client_program = or_else web3.program_id program_id;
  }

  module _ (client : PokeageClient P) where
    abbrev pub config : P
    config = config_pda.0

    abbrev pub pool : P
    pool = pool_pda.0

    abbrev pub player : P → P
    player owner = (player_pda owner).0

    abbrev pub listing : P → P
    listing card_mint = (listing_pda card_mint).0

    abbrev pub card : P → P
    card card_mint = (card_pda card_mint).0

    abbrev pub fetch_config : Option (Option (ConfigAccount P))
    fetch_config = get_config client.connection

    abbrev pub fetch_pool : Option (Option PoolAccount)
    fetch_pool = get_pool client.connection

    abbrev pub fetch_player : P → Option (Option (PlayerAccount P))
    fetch_player owner = get_player client.connection owner

    abbrev pub fetch_listing : P → Option (Option (ListingAccount P))
    fetch_listing card_mint = get_listing client.connection card_mint

    -- `Number(pool.floorPrice)` is exact for floors up to 2^53.
    unfoldable pub instant_sell_payout : Option ℕ
    instant_sell_payout = elim fetch_pool [
      | none ↦ none
      | some none ↦ some 0
      | some (some pool_account) ↦ some (instant_sell_quote pool_account.floor_price)
    ]

module _ (F : Type 0) ⦃n : Num F⦄ where
  abbrev pub market_price_sol : ℤ → ℕ → ℕ → F
  market_price_sol tier_code level stage = card_price_sol F (tier_from_code tier_code) level stage

abbrev pub mint_fee : ℤ → ℕ
mint_fee tier_code = mint_fee_lamports (tier_from_code tier_code)

module _ {P : Type 0} ⦃web3 : Web3 P⦄ ⦃spl : Spl P⦄ where
  abbrev pub page_ata : P → P → P
  page_ata owner mint = spl.associated_token_address mint owner web3.token_2022_program_id

  abbrev pub page_balance : (F : Type 0) ⦃n : Num F⦄ → PokeageClient P → P → P → TokenBalance F
  page_balance F client owner mint = get_token_balance F client.connection owner mint

  unfoldable pub sink : PokeageClient P → P → P → SinkAccounts P
  sink client authority mint = record {
    authority = authority;
    page_mint = mint;
    player_ata = page_ata authority mint;
    pool_ata = page_ata (pool client) mint;
  }

  module _ (client : PokeageClient P) (authority mint : P) where
    unfoldable pub client_deploy_agent : TransactionInstruction P
    unfolding sink
    client_deploy_agent = deploy_agent_ix (sink client authority mint)

    unfoldable pub client_catch_attempt : ℕ → TransactionInstruction P
    unfolding sink
    client_catch_attempt rarity = catch_attempt_ix (sink client authority mint) rarity

    unfoldable pub client_gym_challenge : ℕ → TransactionInstruction P
    unfolding sink
    client_gym_challenge badge_index = gym_challenge_ix (sink client authority mint) badge_index

    unfoldable pub client_force_evolve : TransactionInstruction P
    unfolding sink
    client_force_evolve = force_evolve_ix (sink client authority mint)
