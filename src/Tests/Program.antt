-- ===== src/Tests/Program.antt =====
-- Tests: the SDK, with three public keys for the parameter.
use pokeage.Prelude.{
  pos, negsuc, ℕ, ◌≡◌, ◌++◌, refl, arith, some, List, [], ◌∷◌, true, length, ◌==◌, if◌then◌else◌,
}
use pokeage.Sdk.Borsh.{le_bytes, concat}
use pokeage.Sdk.Keys.{Web3, IsWeb3}
use pokeage.Sdk.Accounts.{
  ConfigAccount, PlayerAccount, PoolAccount, ListingAccount, decode_pool, decode_config,
  decode_player, decode_listing,
}
use pokeage.Sdk.Accounts.Layout.{
  FitsListing, FitsPool, FitsConfig, FitsPlayer, pool_layout, config_layout, player_layout,
  listing_layout,
}
use pokeage.Sdk.Accounts.RoundTrip.{decoders-layout}
use pokeage.Sdk.Instructions.{
  SinkAccounts, initialize_ix, deploy_agent_ix, catch_attempt_ix, gym_challenge_ix, force_evolve_ix,
  list_card_ix, buy_card_ix, instant_sell_ix, update_floor_ix, set_instant_sell_ix,
  withdraw_treasury_ix, set_pause_ix,
}
use pokeage.Sdk.Instructions.Entry.{
  call_initialize, call_deploy_agent, call_force_evolve, call_buy_card, call_instant_sell,
  call_catch_attempt, call_gym_challenge, call_list_card, call_update_floor, call_withdraw_treasury,
  call_set_pause, call_set_instant_sell,
}
use pokeage.Sdk.Instructions.Data.{Arguments, Makes, MakesSome, builders-Makes}

pub data Key : Type 0 where
  program mint player : Key

abbrev pub key_byte : Key → ℕ
key_byte program = 0
key_byte mint = 1
key_byte player = 2

-- Keys differ in their first byte.
abbrev pub key_bytes : Key → List ℕ
key_bytes k = key_byte k ∷ le_bytes 31 7

abbrev key_of : List ℕ → Key
key_of [] = program
key_of (b ∷ bs) = if b == 0 then program else if b == 1 then mint else player

instance abbrev pub key_web3 : Web3 Key
key_web3 = record {
  new_public_key = key_of;
  to_bytes = key_bytes;
  find_program_address = λ seeds k. (player, 255);
  program_id = program;
  token_2022_program_id = program;
  system_program_id = program;
}

key_of-key_bytes : (k : Key) → key_of (key_bytes k) ≡ k
key_of-key_bytes program = refl
key_of-key_bytes mint = refl
key_of-key_bytes player = refl

key-IsWeb3 : IsWeb3 Key
unfolding le_bytes
key-IsWeb3 = record { length-to_bytes = λ k. refl; new_public_key-to_bytes = key_of-key_bytes }

abbrev pub tag : List ℕ
tag = le_bytes 8 77

pub tag-length : length tag ≡ 8
unfolding le_bytes
tag-length = refl

abbrev pub pool : PoolAccount
pool = record {
  total_lamports = 5000000000;
  lifetime_in = 7000000000;
  lifetime_out = 2000000000;
  floor_price = 40000000;
  instant_sell_enabled = true;
  bump = 254;
}

abbrev config : ConfigAccount Key
config = record {
  authority = player;
  page_mint = mint;
  treasury = player;
  buyback_vault = program;
  burn_bps = 5000;
  pool_bps = 3000;
  market_fee_bps = 500;
  instant_sell_bps = 8500;
  listing_fee = 100;
  total_burned = 0;
  total_cards_minted = 12;
  paused = 0;
  bump = 255;
}

abbrev state : PlayerAccount Key
state = record {
  owner = player;
  agent_deployed = true;
  total_caught = 9;
  gym_wins = 2;
  badges = 5;
  last_action = negsuc 0;
  bump = 255;
}

pub fits_pool : FitsPool pool
fits_pool = record {
  total_lamports_lt = omega arith;
  lifetime_in_lt = omega arith;
  lifetime_out_lt = omega arith;
  floor_price_lt = omega arith;
  bump_lt = omega arith;
}

fits_config : FitsConfig config
fits_config = record {
  burn_bps_lt = omega arith;
  pool_bps_lt = omega arith;
  market_fee_bps_lt = omega arith;
  instant_sell_bps_lt = omega arith;
  listing_fee_lt = omega arith;
  total_burned_lt = omega arith;
  total_cards_minted_lt = omega arith;
  paused_lt = omega arith;
  bump_lt = omega arith;
}

fits_state : FitsPlayer state
fits_state = record {
  total_caught_lt = omega arith;
  gym_wins_lt = omega arith;
  badges_lt = omega arith;
  last_action_lt = omega arith;
  bump_lt = omega arith;
}

abbrev listing : ListingAccount Key
listing = record {
  seller = player;
  card_mint = mint;
  price = 1000000;
  tier = 3;
  level = 20;
  stage = 1;
  created_at = pos 1700000000;
  active = true;
  bump = 253;
}

fits_listing : FitsListing listing
fits_listing = record {
  price_lt = omega arith;
  tier_lt = omega arith;
  level_lt = omega arith;
  stage_lt = omega arith;
  created_at_lt = omega arith;
  bump_lt = omega arith;
}

decoders-layout_example :
    (decode_config (tag ++ (concat (config_layout config) ++ [])) ≡ some config)
    × (decode_player (tag ++ (concat (player_layout state) ++ [])) ≡ some state)
    × (decode_pool (tag ++ (concat (pool_layout pool) ++ [])) ≡ some pool)
    × (decode_listing (tag ++ (concat (listing_layout listing) ++ [])) ≡ some listing)
decoders-layout_example =
    decoders-layout key-IsWeb3 config state pool listing tag [] fits_config fits_state fits_pool
      fits_listing tag-length

abbrev short : List ℕ
short = le_bytes 41 0

abbrev arguments : Arguments
arguments = record {
  burn_bps = 7000;
  pool_bps = 3000;
  market_fee_bps = 500;
  amount = 1_000_000;
  tier = 3;
  level = 20;
  stage = 1;
  rarity = 2;
  badge_index = 11;
  flags = 9;
  enabled = true;
}

abbrev sink : SinkAccounts Key
sink = record { authority = player; page_mint = mint; player_ata = player; pool_ata = program }

builders-Makes_example :
    MakesSome
      (initialize_ix player mint player program 7000 3000 500 (pos 1_000_000))
      (call_initialize 7000 3000 500 1_000_000)
    × Makes (deploy_agent_ix sink) call_deploy_agent
    × Makes (catch_attempt_ix sink 2) (call_catch_attempt 2)
    × Makes (gym_challenge_ix sink 11) (call_gym_challenge 11)
    × Makes (force_evolve_ix sink) call_force_evolve
    × MakesSome
        (list_card_ix player mint (pos 1_000_000) 3 20 1 player program)
        (call_list_card 1_000_000 3 20 1)
    × Makes (buy_card_ix player mint player program player) call_buy_card
    × Makes (instant_sell_ix player mint player program) call_instant_sell
    × MakesSome (update_floor_ix player (pos 1_000_000)) (call_update_floor 1_000_000)
    × Makes (set_instant_sell_ix player true) (call_set_instant_sell true)
    × MakesSome
        (withdraw_treasury_ix player mint (pos 1_000_000))
        (call_withdraw_treasury 1_000_000)
    × Makes (set_pause_ix player 9) (call_set_pause 9)
builders-Makes_example = builders-Makes sink player mint player program arguments (record {
  burn_bps_lt = omega arith;
  pool_bps_lt = omega arith;
  market_fee_bps_lt = omega arith;
  amount_lt = omega arith;
  tier_lt = omega arith;
  level_lt = omega arith;
  stage_lt = omega arith;
  rarity_lt = omega arith;
  badge_index_lt = omega arith;
  flags_lt = omega arith;
})
