-- ===== src/Sdk/Token.antt =====
-- sdk/src/token.ts: token balances. Amounts are whole numbers without a bound, as bigint is.
pub mod Sums
use pokeage.Prelude.{ℕ, ◌+◌, ◌^◌, Option, none, some, List, [], ◌∷◌, ◌==◌, if◌then◌else◌}
use pokeage.Num.{Num}
use pokeage.Sdk.Keys.{Web3}
use pokeage.Sdk.Chain.{Chain, TokenAmount, Spl}

pub record TokenBalance (F : Type 0) : Type 0 where
  pub amount : ℕ
  pub ui_amount : F
  pub decimals : ℕ

-- The loop over the accounts, with the sum and the decimals so far.
unfoldable pub sum_accounts : List TokenAmount → ℕ → ℕ → ℕ × ℕ
sum_accounts [] amount decimals = (amount, decimals)
sum_accounts (info ∷ rest) amount decimals = sum_accounts rest (amount + info.amount) info.decimals

module _ {P : Type 0} (chain : Chain P) where
  -- The amount and the decimals over the accounts that the query for one program returns.
  unfoldable pub balance_for_program : P → P → P → ℕ × ℕ
  unfolding sum_accounts
  balance_for_program owner mint program_id =
      sum_accounts
        (chain.get_token_accounts owner (record { mint = some mint; program_id = some program_id }))
        0 0

module _ (F : Type 0) ⦃n : Num F⦄ {P : Type 0} ⦃web3 : Web3 P⦄ ⦃spl : Spl P⦄ (chain : Chain P) where
  unfoldable pub get_token_balance : P → P → TokenBalance F
  unfolding balance_for_program
  get_token_balance owner mint =
      let (legacy_amount, legacy_decimals) =
        balance_for_program chain owner mint spl.token_program_id in
      let (t22_amount, t22_decimals) =
        balance_for_program chain owner mint web3.token_2022_program_id in
      let decimals = if t22_decimals == 0 then legacy_decimals else t22_decimals in
      let amount = legacy_amount + t22_amount in
      record {
        amount = amount;
        decimals = decimals;
        ui_amount =
            if decimals == 0 then n.of_ℕ amount else n.div (n.of_ℕ amount) (n.of_ℕ (10 ^ decimals));
      }

module _ {P : Type 0} ⦃web3 : Web3 P⦄ ⦃spl : Spl P⦄ (chain : Chain P) where
  unfoldable pub detect_token_program : P → Option P
  detect_token_program mint = elim (chain.get_account_info mint) [
    | none ↦ none
    | some info ↦
        if spl.equals info.owner web3.token_2022_program_id
        then some web3.token_2022_program_id
        else if spl.equals info.owner spl.token_program_id
        then some spl.token_program_id
        else none
  ]
