-- ===== src/Sdk/Instructions/Entry.antt =====
-- programs/pokeage/src/lib.rs: how the program takes an instruction's data, the independent side of
-- the builders' theorem. Anchor tells a handler by the first 8 bytes, and reads its arguments behind
-- them in the order of the handler's signature.
use pokeage.Prelude.{
  ℕ, Bool, true, false, ◌&&◌, ◌==◌, Option, none, some, List, [], ◌∷◌, find?, take,
}
use pokeage.Sdk.Borsh.{Read, ◌>>=◌, pure, run, skip, new_reader, u8, u16, u64, bool}
use pokeage.Sdk.Instructions.{
  Ix, initialize, deploy_agent, catch_attempt, gym_challenge, force_evolve, mint_card, list_card,
  cancel_listing, buy_card, instant_sell, update_floor, set_instant_sell, withdraw_treasury,
  set_pause,
}

-- The first 8 bytes of the SHA-256 hash of `global:` and the handler's name.
unfoldable pub anchor_disc : Ix → List ℕ
anchor_disc initialize = 175 ∷ 175 ∷ 109 ∷ 31 ∷ 13 ∷ 152 ∷ 155 ∷ 237 ∷ []
anchor_disc deploy_agent = 111 ∷ 5 ∷ 144 ∷ 253 ∷ 234 ∷ 112 ∷ 104 ∷ 160 ∷ []
anchor_disc catch_attempt = 117 ∷ 199 ∷ 5 ∷ 173 ∷ 1 ∷ 110 ∷ 92 ∷ 78 ∷ []
anchor_disc gym_challenge = 99 ∷ 2 ∷ 232 ∷ 170 ∷ 219 ∷ 168 ∷ 157 ∷ 184 ∷ []
anchor_disc force_evolve = 125 ∷ 17 ∷ 242 ∷ 123 ∷ 243 ∷ 240 ∷ 122 ∷ 193 ∷ []
anchor_disc mint_card = 58 ∷ 198 ∷ 225 ∷ 36 ∷ 193 ∷ 210 ∷ 202 ∷ 108 ∷ []
anchor_disc list_card = 113 ∷ 226 ∷ 80 ∷ 193 ∷ 197 ∷ 19 ∷ 75 ∷ 161 ∷ []
anchor_disc cancel_listing = 41 ∷ 183 ∷ 50 ∷ 232 ∷ 230 ∷ 233 ∷ 157 ∷ 70 ∷ []
anchor_disc buy_card = 113 ∷ 142 ∷ 149 ∷ 246 ∷ 22 ∷ 115 ∷ 156 ∷ 154 ∷ []
anchor_disc instant_sell = 45 ∷ 174 ∷ 93 ∷ 204 ∷ 210 ∷ 186 ∷ 239 ∷ 229 ∷ []
anchor_disc update_floor = 38 ∷ 80 ∷ 204 ∷ 37 ∷ 6 ∷ 62 ∷ 192 ∷ 200 ∷ []
anchor_disc set_instant_sell = 67 ∷ 116 ∷ 92 ∷ 97 ∷ 147 ∷ 205 ∷ 199 ∷ 45 ∷ []
anchor_disc withdraw_treasury = 40 ∷ 63 ∷ 122 ∷ 158 ∷ 144 ∷ 216 ∷ 83 ∷ 96 ∷ []
anchor_disc set_pause = 63 ∷ 32 ∷ 154 ∷ 2 ∷ 56 ∷ 103 ∷ 79 ∷ 45 ∷ []

abbrev handlers : List Ix
handlers =
    initialize ∷ deploy_agent ∷ catch_attempt ∷ gym_challenge ∷ force_evolve ∷ mint_card ∷ list_card
    ∷ cancel_listing ∷ buy_card ∷ instant_sell ∷ update_floor ∷ set_instant_sell ∷ withdraw_treasury
    ∷ set_pause ∷ []

-- A handler with its arguments.
pub data Call : Type 0 where
  call_initialize : (burn_bps pool_bps market_fee_bps listing_fee : ℕ) → Call
  call_deploy_agent call_force_evolve call_cancel_listing call_buy_card call_instant_sell : Call
  call_catch_attempt call_gym_challenge : ℕ → Call
  call_mint_card : (tier stage level : ℕ) → Call
  call_list_card : (price tier level stage : ℕ) → Call
  call_update_floor call_withdraw_treasury call_set_pause : ℕ → Call
  call_set_instant_sell : Bool → Call

unfoldable pub read_call : Ix → Read Call
read_call initialize = do
  burn_bps ← u16
  pool_bps ← u16
  market_fee_bps ← u16
  listing_fee ← u64
  pure (call_initialize burn_bps pool_bps market_fee_bps listing_fee)
read_call deploy_agent = pure call_deploy_agent
read_call catch_attempt = do rarity ← u8; pure (call_catch_attempt rarity)
read_call gym_challenge = do badge_index ← u8; pure (call_gym_challenge badge_index)
read_call force_evolve = pure call_force_evolve
read_call mint_card = do tier ← u8; stage ← u8; level ← u8; pure (call_mint_card tier stage level)
read_call list_card = do
  price ← u64
  tier ← u8
  level ← u8
  stage ← u8
  pure (call_list_card price tier level stage)
read_call cancel_listing = pure call_cancel_listing
read_call buy_card = pure call_buy_card
read_call instant_sell = pure call_instant_sell
read_call update_floor = do floor_price ← u64; pure (call_update_floor floor_price)
read_call set_instant_sell = do enabled ← bool; pure (call_set_instant_sell enabled)
read_call withdraw_treasury = do amount ← u64; pure (call_withdraw_treasury amount)
read_call set_pause = do flags ← u8; pure (call_set_pause flags)

abbrev pub same_bytes : List ℕ → List ℕ → Bool
same_bytes [] [] = true
same_bytes (x ∷ xs) (y ∷ ys) = (x == y) && same_bytes xs ys
same_bytes _ _ = false

-- The handler that the first 8 bytes name.
unfoldable pub handler_of : List ℕ → Option Ix
unfolding anchor_disc
handler_of tag = find? (λ i. same_bytes tag (anchor_disc i)) handlers

-- What the program makes of an instruction's data; `none` is an error.
unfoldable pub entry : List ℕ → Option Call
unfolding handler_of
entry bytes = elim (handler_of (take 8 bytes)) [
  | none ↦ none
  | some i ↦ run (read_call i) (skip 8 (new_reader bytes))
]
