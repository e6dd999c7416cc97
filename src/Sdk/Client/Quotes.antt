-- ===== src/Sdk/Client/Quotes.antt =====
-- sdk/src/client.ts: the payout of an instant sell, against `bps_of` and the handler of the program
-- (programs/pokeage/src/constants.rs and instructions/instant_sell.rs), and the program's id.
use pokeage.Prelude.{
  ℕ, ◌+◌, ◌-◌, ◌<◌, ◌||◌, ◌==◌, bit_and, ap, inl, inr, not, ltb, Bool-cases, ◌*◌, ◌/◌, ◌^◌, ◌≤◌,
  ◌≡◌, refl, arith, Option, none, some, List, ◌++◌, length, leb, if◌then◌else◌,
}
use mathlib.Core.Option.{some-injective}
use pokeage.Pricing.{instant_sell_quote}
use pokeage.Sdk.Borsh.{concat}
use pokeage.Sdk.Keys.{Web3}
use pokeage.Sdk.Chain.{Chain, Spl}
use pokeage.Sdk.Pda.{pool_pda}
use pokeage.Sdk.Accounts.{PoolAccount}
use pokeage.Sdk.Accounts.Layout.{FitsPool, pool_layout}
use pokeage.Sdk.Accounts.RoundTrip.{decode_pool-layout}
use pokeage.Sdk.Fetch.{fetch, get_pool}
use pokeage.Sdk.Instructions.{deploy_agent_ix, catch_attempt_ix, gym_challenge_ix, force_evolve_ix}
use pokeage.Sdk.Client.{
  PokeageClient, new_client, instant_sell_payout, client_deploy_agent, client_catch_attempt,
  client_gym_challenge, client_force_evolve,
}

-- The program's `bps_of(amount, bps)`: `none` is the overflow of a 64-bit result.
abbrev pub bps_of : ℕ → ℕ → Option ℕ
bps_of amount bps = let v = amount * bps / 10_000 in if leb (2 ^ 64) v then none else some v

-- The end of `instant_sell_handler`: the pool's account is debited, and the payout is moved.
abbrev pub debit : PoolAccount → ℕ → Option (ℕ × PoolAccount)
debit pool payout =
    if ltb pool.total_lamports payout || leb (2 ^ 64) (pool.lifetime_out + payout)
    then none
    else some (
      payout,
      record pool {
        total_lamports = pool.total_lamports - payout;
        lifetime_out = pool.lifetime_out + payout;
      },
    )

-- The program's `instant_sell_handler` with the config's pause bits: what it pays and the pool
-- afterwards, or `none` for a refusal. `INSTANT_SELL_BPS` is 5000 and `PAUSE_INSTANT_SELL` is 8. The
-- transfers are not part of it.
unfoldable pub program_sell : ℕ → PoolAccount → Option (ℕ × PoolAccount)
program_sell paused pool =
    if not (bit_and paused 8 == 0) || not pool.instant_sell_enabled || pool.floor_price == 0
    then none
    else elim (bps_of pool.floor_price 5000) [ none ↦ none | some payout ↦ debit pool payout ]

debit_pays :
    (pool after : PoolAccount) (payout paid : ℕ)
    → debit pool payout ≡ some (paid, after)
    → (paid ≡ payout) × (after.total_lamports + paid ≡ pool.total_lamports)
debit_pays pool after payout paid =
    elim (Bool-cases
      (ltb pool.total_lamports payout || leb (2 ^ 64) (pool.lifetime_out + payout))) [
        | inl refused ↦ rw refused (λ e. absurd (cc (e)))
        | inr goes ↦ rw goes (λ e.
            let same = some-injective _ _ e in
            let same_paid : payout ≡ paid = ap (λ x. x.0) same in
            let same_total : pool.total_lamports - payout ≡ after.total_lamports =
              ap (λ x. x.1.total_lamports) same in
            (omega (arith, same_paid), ground (arith, same_paid, same_total, goes)))
      ]

program_sell_pays :
    (paused paid : ℕ) (pool after : PoolAccount)
    → program_sell paused pool ≡ some (paid, after)
    → (paid ≡ pool.floor_price * 5000 / 10_000)
      × (after.total_lamports + paid ≡ pool.total_lamports)
unfolding program_sell
program_sell_pays paused paid pool after =
    let payout = pool.floor_price * 5000 / 10_000 in
    elim (Bool-cases
      (not (bit_and paused 8 == 0) || not pool.instant_sell_enabled || pool.floor_price == 0)) [
        | inl refused ↦ rw (refused, program_sell) (λ e. absurd (cc (e)))
        | inr goes ↦
            rw (goes, program_sell)
              (elim (Bool-cases (leb (2 ^ 64) payout)) [
                | inl over ↦ rw over (λ e. absurd (cc (e)))
                | inr fits ↦ rw fits (λ e. debit_pays pool after payout paid e)
              ])
      ]

module _ {P : Type 0} ⦃web3 : Web3 P⦄ (client : PokeageClient P) where
  get_pool-layout :
      (owner : P) (pool : PoolAccount) (disc rest : List ℕ)
      → FitsPool pool
      → length disc ≡ 8
      → client.connection.get_account_info pool_pda.0
        ≡ some (record { owner = owner; data_bytes = disc ++ (concat (pool_layout pool) ++ rest) })
      → get_pool client.connection ≡ some (some pool)
  unfolding get_pool fetch
  get_pool-layout owner pool disc rest fits e there =
      rw (there, fetch) (rw (decode_pool-layout pool disc rest fits e) refl)

  -- Where the pool's account holds a pool as the program lays it out and the program goes through with
  -- an instant sell, the client has quoted what the program pays: half of the floor price, rounded
  -- down, which the pool's lamports go down by. The floor times 5000 must be a number that a double
  -- holds exactly.
  pub instant_sell_payout-program_sell :
      (owner : P) (paused paid : ℕ) (pool after : PoolAccount) (disc rest : List ℕ)
      → FitsPool pool
      → pool.floor_price * 5000 ≤ 2 ^ 53
      → length disc ≡ 8
      → client.connection.get_account_info pool_pda.0
        ≡ some (record { owner = owner; data_bytes = disc ++ (concat (pool_layout pool) ++ rest) })
      → program_sell paused pool ≡ some (paid, after)
      → (instant_sell_payout client ≡ some paid)
        × (after.total_lamports + paid ≡ pool.total_lamports)
        × (2 * paid ≤ pool.floor_price)
        × (pool.floor_price < 2 * paid + 2)
  unfolding instant_sell_quote instant_sell_payout
  instant_sell_payout-program_sell owner paused paid pool after disc rest fits exact e there sold =
      let (pays, falls) = program_sell_pays paused paid pool after sold in
      (
        rw (get_pool-layout owner pool disc rest fits e there, instant_sell_payout)
            (ap some (omega (arith, pays))),
        falls,
        omega (arith, pays),
        omega (arith, pays),
      )

-- The id of a program that a client was given has no effect: the instructions of its four builders
-- are all for the default program, and two clients with any ids and connections build the same
-- instructions.
pub client_program_ignored :
    {P : Type 0} ⦃web3 : Web3 P⦄ ⦃spl : Spl P⦄ (chain other_chain : Chain P)
    (id other_id authority mint : P) (rarity badge_index : ℕ)
    → let client = new_client chain (some id) in
      let other = new_client other_chain (some other_id) in
      (client.client_program ≡ id)
      × ((client_deploy_agent client authority mint).program ≡ web3.program_id)
      × ((client_catch_attempt client authority mint rarity).program ≡ web3.program_id)
      × ((client_gym_challenge client authority mint badge_index).program ≡ web3.program_id)
      × ((client_force_evolve client authority mint).program ≡ web3.program_id)
      × (client_deploy_agent client authority mint ≡ client_deploy_agent other authority mint)
      × (client_catch_attempt client authority mint rarity
          ≡ client_catch_attempt other authority mint rarity)
      × (client_gym_challenge client authority mint badge_index
          ≡ client_gym_challenge other authority mint badge_index)
      × (client_force_evolve client authority mint ≡ client_force_evolve other authority mint)
unfolding new_client client_deploy_agent client_catch_attempt client_gym_challenge
    client_force_evolve deploy_agent_ix catch_attempt_ix gym_challenge_ix force_evolve_ix
client_program_ignored chain other_chain id other_id authority mint rarity badge_index =
    (refl, refl, refl, refl, refl, refl, refl, refl, refl)
