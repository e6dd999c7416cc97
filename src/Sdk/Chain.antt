-- ===== src/Sdk/Chain.antt =====
-- What the SDK uses of a connection of @solana/web3.js and of @solana/spl-token: the accounts as they
-- stand when they are asked for. An answer that fails is not part of the model.
use pokeage.Prelude.{ℕ, ◌≡◌, ◌↔◌, Bool, true, Option, none, some, List}

pub record AccountInfo (P : Type 0) : Type 0 where
  pub owner : P
  pub data_bytes : List ℕ

-- `account.data.parsed.info.tokenAmount`
pub record TokenAmount : Type 0 where
  pub amount : ℕ
  pub decimals : ℕ

-- The filter of a query, with the fields that were given.
pub record TokenFilter (P : Type 0) : Type 0 where
  pub mint : Option P
  pub program_id : Option P

-- `connection.getAccountInfo(address)`, which may be null, and
-- `connection.getParsedTokenAccountsByOwner(owner, filter)`.
pub record Chain (P : Type 0) : Type 0 where
  pub get_account_info : P → Option (AccountInfo P)
  pub get_token_accounts : P → TokenFilter P → List TokenAmount

abbrev pub by_mint : {P : Type 0} → P → TokenFilter P
by_mint mint = record { mint = some mint; program_id = none }

-- The filter is a mint or a program: web3.js sends the mint where there is one, and the program
-- beside it is not looked at.
pub record IsChain {P : Type 0} (chain : Chain P) : Type 0 where
  pub mint_first :
      (owner mint program : P)
      → chain.get_token_accounts owner (record { mint = some mint; program_id = some program })
        ≡ chain.get_token_accounts owner (by_mint mint)

pub record Spl (P : Type 0) : Type 0 where
  pub token_program_id : P
  -- `a.equals(b)`
  pub equals : P → P → Bool
  -- `getAssociatedTokenAddressSync(mint, owner, true, programId)`
  pub associated_token_address : P → P → P → P

-- `equals` tells keys apart.
pub record IsSpl (P : Type 0) ⦃spl : Spl P⦄ : Type 0 where
  pub equals_iff : (a b : P) → (spl.equals a b ≡ true) ↔ (a ≡ b)
