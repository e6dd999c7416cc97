-- ===== src/Sdk/Pda.antt =====
-- sdk/src/pda.ts and the constants of sdk/src/constants.ts: seeds, discriminators, rarity codes and
-- pause flags. Seeds are the bytes of their ASCII texts.
use pokeage.Prelude.{ℕ, List, [], ◌∷◌}
use pokeage.Sdk.Keys.{Web3}

abbrev pub seed_config : List ℕ
seed_config = b'c' ∷ b'o' ∷ b'n' ∷ b'f' ∷ b'i' ∷ b'g' ∷ []

abbrev pub seed_player : List ℕ
seed_player = b'p' ∷ b'l' ∷ b'a' ∷ b'y' ∷ b'e' ∷ b'r' ∷ []

abbrev pub seed_listing : List ℕ
seed_listing = b'l' ∷ b'i' ∷ b's' ∷ b't' ∷ b'i' ∷ b'n' ∷ b'g' ∷ []

abbrev pub seed_pool : List ℕ
seed_pool = b'b' ∷ b'u' ∷ b'y' ∷ b'b' ∷ b'a' ∷ b'c' ∷ b'k' ∷ b'_' ∷ b'p' ∷ b'o' ∷ b'o' ∷ b'l' ∷ []

abbrev pub seed_card : List ℕ
seed_card = b'c' ∷ b'a' ∷ b'r' ∷ b'd' ∷ []

module _ {P : Type 0} ⦃web3 : Web3 P⦄ where
  open web3 use {find_program_address, program_id, to_bytes}

  abbrev pda : List (List ℕ) → P × ℕ
  pda seeds = find_program_address seeds program_id

  abbrev pub config_pda : P × ℕ
  config_pda = pda (seed_config ∷ [])

  abbrev pub pool_pda : P × ℕ
  pool_pda = pda (seed_pool ∷ [])

  abbrev pub player_pda : P → P × ℕ
  player_pda owner = pda (seed_player ∷ to_bytes owner ∷ [])

  abbrev pub listing_pda : P → P × ℕ
  listing_pda card_mint = pda (seed_listing ∷ to_bytes card_mint ∷ [])

  abbrev pub card_pda : P → P × ℕ
  card_pda card_mint = pda (seed_card ∷ to_bytes card_mint ∷ [])
