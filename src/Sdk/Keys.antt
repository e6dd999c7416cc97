-- ===== src/Sdk/Keys.antt =====
-- What the SDK uses of @solana/web3.js: public keys and program-derived addresses. They are a
-- parameter of the model.
use pokeage.Prelude.{ℕ, ◌≡◌, List, length}

pub record Web3 (P : Type 0) : Type 0 where
  -- `new PublicKey(bytes)` and `key.toBytes()`
  pub new_public_key : List ℕ → P
  pub to_bytes : P → List ℕ
  -- `PublicKey.findProgramAddressSync(seeds, programId)`
  pub find_program_address : List (List ℕ) → P → P × ℕ
  -- The keys that the SDK spells in base 58, and the id of the system program.
  pub program_id : P
  pub token_2022_program_id : P
  pub system_program_id : P

-- A key is made of 32 bytes, and the constructor gives back the key whose bytes it is handed.
pub record IsWeb3 (P : Type 0) ⦃w : Web3 P⦄ : Type 0 where
  pub length-to_bytes : (k : P) → length (w.to_bytes k) ≡ 32
  pub new_public_key-to_bytes : (k : P) → w.new_public_key (w.to_bytes k) ≡ k
