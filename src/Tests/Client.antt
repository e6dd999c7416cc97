-- ===== src/Tests/Client.antt =====
-- Tests: the SDK's client on a chain of one pool account and two token accounts.
use pokeage.Prelude.{
  ℕ, ◌+◌, ◌-◌, ◌*◌, ◌/◌, ◌<◌, ◌≤◌, ◌≡◌, refl, arith, none, some, [], ◌∷◌, ◌++◌, ◌==◌,
}
use pokeage.Num.Fixed.{Fixed, fixed_num}
use pokeage.Sdk.Borsh.{concat}
use pokeage.Sdk.Chain.{Chain, IsChain, Spl}
use pokeage.Sdk.Accounts.Layout.{pool_layout}
use pokeage.Sdk.Token.{get_token_balance}
use pokeage.Sdk.Token.Sums.{get_token_balance_doubles}
use pokeage.Sdk.Client.{
  PokeageClient, new_client, instant_sell_payout, client_deploy_agent, client_catch_attempt,
  client_gym_challenge, client_force_evolve,
}
use pokeage.Sdk.Client.Quotes.{
  program_sell, instant_sell_payout-program_sell, client_program_ignored,
}
use pokeage.Tests.Program.{
  Key, key_byte, program, mint, player, key_web3, tag, tag-length, pool, fits_pool,
}

instance abbrev key_spl : Spl Key
key_spl = record {
  token_program_id = mint;
  equals = λ a b. key_byte a == key_byte b;
  associated_token_address = λ a b c. b;
}

-- Every account is the pool's, and the owner has two accounts of every mint.
abbrev chain : Chain Key
chain = record {
  get_account_info = λ address.
      some (record { owner = program; data_bytes = tag ++ (concat (pool_layout pool) ++ []) });
  get_token_accounts = λ owner filter. elim filter.mint [
    | none ↦ []
    | some m ↦ record { amount = 5; decimals = 6 } ∷ record { amount = 30; decimals = 6 } ∷ []
  ];
}

chain-IsChain : IsChain chain
chain-IsChain = record { mint_first = λ owner m p. refl }

abbrev client : PokeageClient Key
client = record { connection = chain; client_program = program }

-- The pool after a sale at its floor.
abbrev paid : ℕ
paid = pool.floor_price / 2

instant_sell_payout-program_sell_example :
    (instant_sell_payout client ≡ some paid)
    × (pool.total_lamports - paid + paid ≡ pool.total_lamports)
    × (2 * paid ≤ pool.floor_price)
    × (pool.floor_price < 2 * paid + 2)
unfolding program_sell
instant_sell_payout-program_sell_example =
    instant_sell_payout-program_sell client program 0 paid pool
      (record pool {
        total_lamports = pool.total_lamports - paid;
        lifetime_out = pool.lifetime_out + paid;
      })
      tag [] fits_pool (omega arith) tag-length refl refl

get_token_balance_doubles_example :
    ((get_token_balance Fixed chain player mint).amount ≡ 2 * 35)
    × ((get_token_balance Fixed chain player mint).decimals ≡ 6)
get_token_balance_doubles_example =
    get_token_balance_doubles Fixed chain chain-IsChain player mint 6 (refl, (refl, tt))

client_program_ignored_example :
    let special = new_client chain (some mint) in
    let other = new_client chain (some player) in
    (special.client_program ≡ mint)
    × ((client_deploy_agent special player mint).program ≡ program)
    × ((client_catch_attempt special player mint 1).program ≡ program)
    × ((client_gym_challenge special player mint 4).program ≡ program)
    × ((client_force_evolve special player mint).program ≡ program)
    × (client_deploy_agent special player mint ≡ client_deploy_agent other player mint)
    × (client_catch_attempt special player mint 1 ≡ client_catch_attempt other player mint 1)
    × (client_gym_challenge special player mint 4 ≡ client_gym_challenge other player mint 4)
    × (client_force_evolve special player mint ≡ client_force_evolve other player mint)
client_program_ignored_example = client_program_ignored chain chain mint player player mint 1 4
