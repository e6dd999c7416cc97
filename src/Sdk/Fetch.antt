-- ===== src/Sdk/Fetch.antt =====
-- sdk/src/accounts.ts: the accounts as they are read from the chain. `none` is a decoder that throws,
-- and `some none` an account that is not there.
use pokeage.Prelude.{ℕ, Option, none, some, List}
use pokeage.Sdk.Keys.{Web3}
use pokeage.Sdk.Chain.{Chain}
use pokeage.Sdk.Pda.{config_pda, pool_pda, player_pda, listing_pda}
use pokeage.Sdk.Accounts.{
  ConfigAccount, PoolAccount, PlayerAccount, ListingAccount, decode_config, decode_pool,
  decode_player, decode_listing,
}

module _ {P : Type 0} (chain : Chain P) where
  unfoldable pub fetch {ℓ} : {A : Type ℓ} → P → (List ℕ → Option A) → Option (Option A)
  fetch address decode = elim (chain.get_account_info address) [
    | none ↦ some none
    | some info ↦ elim (decode info.data_bytes) [ none ↦ none | some a ↦ some (some a) ]
  ]

  module _ ⦃web3 : Web3 P⦄ where
    unfoldable pub get_config : Option (Option (ConfigAccount P))
    get_config = fetch config_pda.0 decode_config

    unfoldable pub get_pool : Option (Option PoolAccount)
    get_pool = fetch pool_pda.0 decode_pool

    unfoldable pub get_player : P → Option (Option (PlayerAccount P))
    get_player owner = fetch (player_pda owner).0 decode_player

    unfoldable pub get_listing : P → Option (Option (ListingAccount P))
    get_listing card_mint = fetch (listing_pda card_mint).0 decode_listing
