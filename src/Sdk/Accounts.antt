-- ===== src/Sdk/Accounts.antt =====
-- sdk/src/accounts.ts and sdk/src/types.ts: the account structs, their decoders, and the badge and
-- pause bits. A decoder gives `none` where a read runs past the end of the buffer. Fetching the
-- account over the network is not modelled.
pub mod Layout
pub mod RoundTrip
pub mod Length
use pokeage.Prelude.{
  ℤ, ℕ, zero, suc, ◌+◌, ◌^◌, bit_and, Bool, true, false, not, Option, none, some, List, [], ◌∷◌,
  ◌==◌, if◌then◌else◌,
}
use pokeage.Sdk.Borsh.{
  Read, ◌>>=◌, pure, run, skip, new_reader, u8, u16, u32, u64, i64, bool, pubkey,
}
use pokeage.Sdk.Keys.{Web3}

pub record ConfigAccount (P : Type 0) : Type 0 where
  pub authority : P
  pub page_mint : P
  pub treasury : P
  pub buyback_vault : P
  pub burn_bps : ℕ
  pub pool_bps : ℕ
  pub market_fee_bps : ℕ
  pub instant_sell_bps : ℕ
  pub listing_fee : ℕ
  pub total_burned : ℕ
  pub total_cards_minted : ℕ
  pub paused : ℕ
  pub bump : ℕ

pub record PlayerAccount (P : Type 0) : Type 0 where
  pub owner : P
  pub agent_deployed : Bool
  pub total_caught : ℕ
  pub gym_wins : ℕ
  pub badges : ℕ
  pub last_action : ℤ
  pub bump : ℕ

pub record PoolAccount : Type 0 where
  pub total_lamports : ℕ
  pub lifetime_in : ℕ
  pub lifetime_out : ℕ
  pub floor_price : ℕ
  pub instant_sell_enabled : Bool
  pub bump : ℕ

pub record ListingAccount (P : Type 0) : Type 0 where
  pub seller : P
  pub card_mint : P
  pub price : ℕ
  pub tier : ℕ
  pub level : ℕ
  pub stage : ℕ
  pub created_at : ℤ
  pub active : Bool
  pub bump : ℕ

abbrev pub disc_len : ℕ
disc_len = 8

-- The loop of `badgeList`, `left` rounds before its end at 12.
badge_loop : ℕ → ℕ → ℕ → List ℕ
badge_loop badges i zero = []
badge_loop badges i (suc left) =
    let rest = badge_loop badges (i + 1) left in
    if bit_and badges (2 ^ i) == 0 then rest else i ∷ rest

unfoldable pub badge_list : ℕ → List ℕ
unfolding badge_loop
badge_list badges = badge_loop badges 0 12

unfoldable pub is_paused : {P : Type 0} → ConfigAccount P → ℕ → Bool
is_paused config flag = not (bit_and config.paused flag == 0)

abbrev pub decode_at : {A : Type 0} → Read A → List ℕ → Option A
decode_at m buf = run m (skip disc_len (new_reader buf))

unfoldable pub read_pool : Read PoolAccount
read_pool = do
  total_lamports ← u64
  lifetime_in ← u64
  lifetime_out ← u64
  floor_price ← u64
  instant_sell_enabled ← bool
  bump ← u8
  pure (record {
    total_lamports = total_lamports;
    lifetime_in = lifetime_in;
    lifetime_out = lifetime_out;
    floor_price = floor_price;
    instant_sell_enabled = instant_sell_enabled;
    bump = bump;
  })

abbrev pub decode_pool : List ℕ → Option PoolAccount
decode_pool = decode_at read_pool

module _ {P : Type 0} ⦃web3 : Web3 P⦄ where
  -- `new PublicKey(r.pubkey())`
  unfoldable pub public_key : Read P
  public_key = do bytes ← pubkey; pure (web3.new_public_key bytes)

  unfoldable pub read_config : Read (ConfigAccount P)
  read_config = do
    authority ← public_key
    page_mint ← public_key
    treasury ← public_key
    buyback_vault ← public_key
    burn_bps ← u16
    pool_bps ← u16
    market_fee_bps ← u16
    instant_sell_bps ← u16
    listing_fee ← u64
    total_burned ← u64
    total_cards_minted ← u64
    paused ← u8
    bump ← u8
    pure (record {
      authority = authority;
      page_mint = page_mint;
      treasury = treasury;
      buyback_vault = buyback_vault;
      burn_bps = burn_bps;
      pool_bps = pool_bps;
      market_fee_bps = market_fee_bps;
      instant_sell_bps = instant_sell_bps;
      listing_fee = listing_fee;
      total_burned = total_burned;
      total_cards_minted = total_cards_minted;
      paused = paused;
      bump = bump;
    })

  unfoldable pub read_player : Read (PlayerAccount P)
  read_player = do
    owner ← public_key
    agent_deployed ← bool
    total_caught ← u64
    gym_wins ← u32
    badges ← u16
    last_action ← i64
    bump ← u8
    pure (record {
      owner = owner;
      agent_deployed = agent_deployed;
      total_caught = total_caught;
      gym_wins = gym_wins;
      badges = badges;
      last_action = last_action;
      bump = bump;
    })

  unfoldable pub read_listing : Read (ListingAccount P)
  read_listing = do
    seller ← public_key
    card_mint ← public_key
    price ← u64
    tier ← u8
    level ← u8
    stage ← u8
    created_at ← i64
    active ← bool
    bump ← u8
    pure (record {
      seller = seller;
      card_mint = card_mint;
      price = price;
      tier = tier;
      level = level;
      stage = stage;
      created_at = created_at;
      active = active;
      bump = bump;
    })

  abbrev pub decode_config : List ℕ → Option (ConfigAccount P)
  decode_config = decode_at read_config

  abbrev pub decode_player : List ℕ → Option (PlayerAccount P)
  decode_player = decode_at read_player

  abbrev pub decode_listing : List ℕ → Option (ListingAccount P)
  decode_listing = decode_at read_listing
