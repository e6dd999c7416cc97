-- ===== src/Sdk/Instructions.antt =====
-- sdk/src/instructions.ts: the instruction builders. A builder with a 64-bit argument gives `none`
-- where the codec throws because the argument is out of range.
pub mod Disc
pub mod Data
pub mod Entry
use mathlib.Core.Option
use pokeage.Prelude.{ℤ, ℕ, Bool, true, false, Option, none, some, List, [], ◌∷◌}
use pokeage.Sdk.Borsh.{BorshWriter, new_writer, disc, build, put_u8, put_u16, put_u64, put_bool}
use pokeage.Sdk.Keys.{Web3}
use pokeage.Sdk.Pda.{config_pda, pool_pda, player_pda, listing_pda}

pub data Ix : Type 0 where
  initialize deploy_agent catch_attempt gym_challenge force_evolve mint_card list_card
        cancel_listing buy_card instant_sell update_floor set_instant_sell withdraw_treasury
        set_pause :
      Ix

unfoldable pub ix_disc : Ix → List ℕ
ix_disc initialize = 175 ∷ 175 ∷ 109 ∷ 31 ∷ 13 ∷ 152 ∷ 155 ∷ 237 ∷ []
ix_disc deploy_agent = 111 ∷ 5 ∷ 144 ∷ 253 ∷ 234 ∷ 112 ∷ 104 ∷ 160 ∷ []
ix_disc catch_attempt = 117 ∷ 199 ∷ 5 ∷ 173 ∷ 1 ∷ 110 ∷ 92 ∷ 78 ∷ []
ix_disc gym_challenge = 99 ∷ 2 ∷ 232 ∷ 170 ∷ 219 ∷ 168 ∷ 157 ∷ 184 ∷ []
ix_disc force_evolve = 125 ∷ 17 ∷ 242 ∷ 123 ∷ 243 ∷ 240 ∷ 122 ∷ 193 ∷ []
ix_disc mint_card = 58 ∷ 198 ∷ 225 ∷ 36 ∷ 193 ∷ 210 ∷ 202 ∷ 108 ∷ []
ix_disc list_card = 113 ∷ 226 ∷ 80 ∷ 193 ∷ 197 ∷ 19 ∷ 75 ∷ 161 ∷ []
ix_disc cancel_listing = 41 ∷ 183 ∷ 50 ∷ 232 ∷ 230 ∷ 233 ∷ 157 ∷ 70 ∷ []
ix_disc buy_card = 113 ∷ 142 ∷ 149 ∷ 246 ∷ 22 ∷ 115 ∷ 156 ∷ 154 ∷ []
ix_disc instant_sell = 45 ∷ 174 ∷ 93 ∷ 204 ∷ 210 ∷ 186 ∷ 239 ∷ 229 ∷ []
ix_disc update_floor = 38 ∷ 80 ∷ 204 ∷ 37 ∷ 6 ∷ 62 ∷ 192 ∷ 200 ∷ []
ix_disc set_instant_sell = 67 ∷ 116 ∷ 92 ∷ 97 ∷ 147 ∷ 205 ∷ 199 ∷ 45 ∷ []
ix_disc withdraw_treasury = 40 ∷ 63 ∷ 122 ∷ 158 ∷ 144 ∷ 216 ∷ 83 ∷ 96 ∷ []
ix_disc set_pause = 63 ∷ 32 ∷ 154 ∷ 2 ∷ 56 ∷ 103 ∷ 79 ∷ 45 ∷ []

pub record AccountMeta (P : Type 0) : Type 0 where
  pub pubkey : P
  pub is_signer : Bool
  pub is_writable : Bool

pub record TransactionInstruction (P : Type 0) : Type 0 where
  pub program : P
  pub keys : List (AccountMeta P)
  pub bytes : List ℕ

pub record SinkAccounts (P : Type 0) : Type 0 where
  pub authority : P
  pub page_mint : P
  pub player_ata : P
  pub pool_ata : P

-- `new BorshWriter().disc(d)`
abbrev start : Ix → BorshWriter
start i = disc (ix_disc i) new_writer

abbrev meta : {P : Type 0} → Bool → Bool → P → AccountMeta P
meta signer writable key = record { pubkey = key; is_signer = signer; is_writable = writable }

-- `w(key)`, `w(key, true)` and `r(key)`
abbrev w : {P : Type 0} → P → AccountMeta P
w = meta false true

abbrev w_signer : {P : Type 0} → P → AccountMeta P
w_signer = meta true true

abbrev r : {P : Type 0} → P → AccountMeta P
r = meta false false

module _ {P : Type 0} ⦃web3 : Web3 P⦄ where
  open web3 use {program_id, token_2022_program_id, system_program_id}

  abbrev ix : List (AccountMeta P) → BorshWriter → TransactionInstruction P
  ix keys data_writer = record { program = program_id; keys = keys; bytes = build data_writer }

  unfoldable pub sink_keys : SinkAccounts P → List (AccountMeta P)
  sink_keys a =
      w (config_pda.0)
      ∷ w (pool_pda.0)
      ∷ w (player_pda a.authority).0
      ∷ w_signer a.authority
      ∷ w a.page_mint
      ∷ w a.player_ata
      ∷ w a.pool_ata
      ∷ r token_2022_program_id
      ∷ r system_program_id
      ∷ []

  unfoldable pub initialize_ix :
      (authority page_mint treasury buyback_vault : P) (burn_bps pool_bps market_fee_bps : ℕ)
      (listing_fee : ℤ)
      → Option (TransactionInstruction P)
  initialize_ix authority page_mint treasury buyback_vault burn_bps pool_bps market_fee_bps
        listing_fee =
      Option.map
        (ix (
          w config_pda.0
          ∷ w pool_pda.0
          ∷ w_signer authority
          ∷ r page_mint
          ∷ r treasury
          ∷ r buyback_vault
          ∷ r system_program_id
          ∷ []))
        (put_u64 listing_fee
          (put_u16 market_fee_bps (put_u16 pool_bps (put_u16 burn_bps (start initialize)))))

  unfoldable pub deploy_agent_ix : SinkAccounts P → TransactionInstruction P
  deploy_agent_ix a = ix (sink_keys a) (start deploy_agent)

  unfoldable pub catch_attempt_ix : SinkAccounts P → ℕ → TransactionInstruction P
  catch_attempt_ix a rarity = ix (sink_keys a) (put_u8 rarity (start catch_attempt))

  unfoldable pub gym_challenge_ix : SinkAccounts P → ℕ → TransactionInstruction P
  gym_challenge_ix a badge_index = ix (sink_keys a) (put_u8 badge_index (start gym_challenge))

  unfoldable pub force_evolve_ix : SinkAccounts P → TransactionInstruction P
  force_evolve_ix a = ix (sink_keys a) (start force_evolve)

  unfoldable pub update_floor_ix : P → ℤ → Option (TransactionInstruction P)
  update_floor_ix authority floor_price =
      Option.map (ix (r config_pda.0 ∷ w pool_pda.0 ∷ w_signer authority ∷ []))
        (put_u64 floor_price (start update_floor))

  unfoldable pub set_instant_sell_ix : P → Bool → TransactionInstruction P
  set_instant_sell_ix authority enabled =
      ix (r config_pda.0 ∷ w pool_pda.0 ∷ w_signer authority ∷ [])
        (put_bool enabled (start set_instant_sell))

  unfoldable pub set_pause_ix : P → ℕ → TransactionInstruction P
  set_pause_ix authority flags =
      ix (w config_pda.0 ∷ w_signer authority ∷ []) (put_u8 flags (start set_pause))

  unfoldable pub withdraw_treasury_ix :
      (authority treasury : P) → ℤ → Option (TransactionInstruction P)
  withdraw_treasury_ix authority treasury amount =
      Option.map (ix (r config_pda.0 ∷ w treasury ∷ w_signer authority ∷ r system_program_id ∷ []))
        (put_u64 amount (start withdraw_treasury))

  unfoldable pub list_card_ix :
      (seller card_mint : P) (price : ℤ) (tier level stage : ℕ) (seller_card_ata escrow_ata : P)
      → Option (TransactionInstruction P)
  list_card_ix seller card_mint price tier level stage seller_card_ata escrow_ata =
      Option.map
        (λ written.
          ix
            (w config_pda.0
              ∷ w pool_pda.0
              ∷ w (listing_pda card_mint).0
              ∷ w_signer seller
              ∷ r card_mint
              ∷ w seller_card_ata
              ∷ w escrow_ata
              ∷ r token_2022_program_id
              ∷ r system_program_id
              ∷ [])
            (put_u8 stage (put_u8 level (put_u8 tier written))))
        (put_u64 price (start list_card))

  unfoldable pub buy_card_ix :
      (buyer seller card_mint escrow_ata buyer_card_ata : P) → TransactionInstruction P
  buy_card_ix buyer seller card_mint escrow_ata buyer_card_ata =
      ix
        (w config_pda.0
          ∷ w pool_pda.0
          ∷ w (listing_pda card_mint).0
          ∷ w_signer buyer
          ∷ w seller
          ∷ r card_mint
          ∷ w escrow_ata
          ∷ w buyer_card_ata
          ∷ r token_2022_program_id
          ∷ r system_program_id
          ∷ [])
        (start buy_card)

  unfoldable pub instant_sell_ix :
      (seller card_mint seller_card_ata vault_ata : P) → TransactionInstruction P
  instant_sell_ix seller card_mint seller_card_ata vault_ata =
      ix
        (r config_pda.0
          ∷ w pool_pda.0
          ∷ w_signer seller
          ∷ r card_mint
          ∷ w seller_card_ata
          ∷ w vault_ata
          ∷ r token_2022_program_id
          ∷ r system_program_id
          ∷ [])
        (start instant_sell)
