-- ===== src/Sdk/Instructions/Data.antt =====
-- sdk/src/instructions.ts: what the program makes of the instructions that the builders build.
use native.Mathlib.Nat.{mod-eq_of_lt}
use mathlib.Core.List.{append-nil}
use pokeage.Prelude.{
  ℤ, pos, negsuc, ℕ, ◌%◌, ◌^◌, ◌≤◌, ◌<◌, ◌≡◌, ◌∙◌, refl, ap, Bool, true, false, if◌then◌else◌,
  Option, some, none, List, [], ◌∷◌, ◌++◌, take, lt→ltb, suc,
}
use pokeage.Sdk.Borsh.{bool, Read, ◌>>=◌, pure, le_bytes, concat, put_u64, read_uint}
use pokeage.Sdk.Borsh.Bytes.{take-append}
use pokeage.Sdk.Borsh.Reads.{Reads, Reads-bind, Reads-pure, Reads-uint, Reads-bool, run-Reads}
use pokeage.Sdk.Keys.{Web3}
use pokeage.Sdk.Instructions.{
  SinkAccounts, TransactionInstruction, Ix, initialize, deploy_agent, catch_attempt, gym_challenge,
  force_evolve, list_card, buy_card, instant_sell, update_floor, set_instant_sell,
  withdraw_treasury, set_pause, ix_disc, initialize_ix, deploy_agent_ix, catch_attempt_ix,
  gym_challenge_ix, force_evolve_ix, list_card_ix, buy_card_ix, instant_sell_ix,
  set_instant_sell_ix, set_pause_ix, update_floor_ix, withdraw_treasury_ix,
}
use pokeage.Sdk.Instructions.Disc.{ix_disc_distinct}
use pokeage.Sdk.Instructions.Entry.{
  Call, call_initialize, call_deploy_agent, call_force_evolve, call_buy_card, call_instant_sell,
  call_catch_attempt, call_gym_challenge, call_list_card, call_update_floor, call_withdraw_treasury,
  call_set_pause, call_set_instant_sell, read_call, handler_of, entry,
}

-- The SDK's discriminators name the handlers that they stand for.
handler_of-ix_disc : (i : Ix) → handler_of (ix_disc i) ≡ some i
unfolding handler_of ix_disc
handler_of-ix_disc initialize = refl
handler_of-ix_disc _ = refl

entry-Reads :
    (i : Ix) (ps : List (List ℕ)) (c : Call)
    → Reads (read_call i) (concat ps) c
    → entry (concat (ix_disc i ∷ ps)) ≡ some c
unfolding entry concat
entry-Reads i ps c h =
    let eight = (ix_disc_distinct i i).0 in
    let named : handler_of (take 8 (ix_disc i ++ concat ps)) ≡ some i =
      ap handler_of (take-append (ix_disc i) (concat ps) 8 eight) ∙ handler_of-ix_disc i in
    rw (named, entry)
      (rw append-nil at (run-Reads (read_call i) (ix_disc i) (concat ps) [] 8 c eight h))

Reads-wrapped :
    (k v : ℕ) → v < 256 ^ suc k → Reads (read_uint (suc k)) (le_bytes (suc k) (v % 256 ^ suc k)) v
Reads-wrapped k v h = rw (mod-eq_of_lt h) (Reads-uint k v h)

Reads-flag : (v : Bool) → Reads bool (le_bytes 1 ((if v then 1 else 0) % 256)) v
Reads-flag true = Reads-bool true
Reads-flag false = Reads-bool false

-- A handler with one argument.
Reads-one :
    {A : Type 0} {m : Read A} {bs : List ℕ} {v : A} (call : A → Call)
    → Reads m bs v
    → Reads (m >>= λ x. pure (call x)) (concat (bs ∷ [])) (call v)
Reads-one call h = Reads-bind (λ x. pure (call x)) [] h (Reads-pure _)

-- An amount that does not fit a u64.
abbrev pub Overflows : ℤ → Type 0
Overflows (pos v) = 2 ^ 64 ≤ v
Overflows (negsuc v) = Unit

-- The arguments of the builders, but for the accounts.
pub record Arguments : Type 0 where
  pub burn_bps : ℕ
  pub pool_bps : ℕ
  pub market_fee_bps : ℕ
  pub amount : ℕ
  pub tier : ℕ
  pub level : ℕ
  pub stage : ℕ
  pub rarity : ℕ
  pub badge_index : ℕ
  pub flags : ℕ
  pub enabled : Bool

-- Each is in the range of its type in the program.
pub record IsInRange (x : Arguments) : Type 0 where
  pub burn_bps_lt : x.burn_bps < 2 ^ 16
  pub pool_bps_lt : x.pool_bps < 2 ^ 16
  pub market_fee_bps_lt : x.market_fee_bps < 2 ^ 16
  pub amount_lt : x.amount < 2 ^ 64
  pub tier_lt : x.tier < 2 ^ 8
  pub level_lt : x.level < 2 ^ 8
  pub stage_lt : x.stage < 2 ^ 8
  pub rarity_lt : x.rarity < 2 ^ 8
  pub badge_index_lt : x.badge_index < 2 ^ 8
  pub flags_lt : x.flags < 2 ^ 8

module _ {P : Type 0} ⦃web3 : Web3 P⦄ where
  -- The instruction is for the program, which takes it for the call.
  abbrev pub Makes : TransactionInstruction P → Call → Type 0
  Makes t c = (t.program ≡ web3.program_id) × (entry t.bytes ≡ some c)

  -- The same of a builder that may throw, which it does not.
  abbrev pub MakesSome : Option (TransactionInstruction P) → Call → Type 0
  MakesSome none c = ⊥
  MakesSome (some t) c = Makes t c

  -- Every builder, on arguments in range, builds an instruction for the program that the program's
  -- dispatch, by Anchor's discriminators, takes for a call of the handler that the builder is named
  -- for, with the very arguments. The accounts of the instruction are not part of it.
  pub builders-Makes :
      (s : SinkAccounts P) (a b c d : P) (x : Arguments)
      → IsInRange x
      → MakesSome
          (initialize_ix a b c d x.burn_bps x.pool_bps x.market_fee_bps (pos x.amount))
          (call_initialize x.burn_bps x.pool_bps x.market_fee_bps x.amount)
        × Makes (deploy_agent_ix s) call_deploy_agent
        × Makes (catch_attempt_ix s x.rarity) (call_catch_attempt x.rarity)
        × Makes (gym_challenge_ix s x.badge_index) (call_gym_challenge x.badge_index)
        × Makes (force_evolve_ix s) call_force_evolve
        × MakesSome
            (list_card_ix a b (pos x.amount) x.tier x.level x.stage c d)
            (call_list_card x.amount x.tier x.level x.stage)
        × Makes (buy_card_ix a b c d s.authority) call_buy_card
        × Makes (instant_sell_ix a b c d) call_instant_sell
        × MakesSome (update_floor_ix a (pos x.amount)) (call_update_floor x.amount)
        × Makes (set_instant_sell_ix a x.enabled) (call_set_instant_sell x.enabled)
        × MakesSome (withdraw_treasury_ix a b (pos x.amount)) (call_withdraw_treasury x.amount)
        × Makes (set_pause_ix a x.flags) (call_set_pause x.flags)
  unfolding initialize_ix deploy_agent_ix catch_attempt_ix gym_challenge_ix force_evolve_ix
      list_card_ix buy_card_ix instant_sell_ix update_floor_ix set_instant_sell_ix
      withdraw_treasury_ix set_pause_ix put_u64 read_call
  builders-Makes s a b c d x h =
      let fits = lt→ltb _ _ h.amount_lt in
      (
        rw fits (
          refl,
          entry-Reads initialize _ _ (
              Reads-bind _ _ (Reads-wrapped 1 x.burn_bps h.burn_bps_lt) (
                Reads-bind _ _ (Reads-wrapped 1 x.pool_bps h.pool_bps_lt) (
                  Reads-bind _ _ (Reads-wrapped 1 x.market_fee_bps h.market_fee_bps_lt)
                    (Reads-one _ (Reads-uint 7 x.amount h.amount_lt))))),
        ),
        (refl, entry-Reads deploy_agent [] _ (Reads-pure _)),
        (refl, entry-Reads catch_attempt _ _ (Reads-one _ (Reads-wrapped 0 x.rarity h.rarity_lt))),
        (
          refl,
          entry-Reads gym_challenge _ _
              (Reads-one _ (Reads-wrapped 0 x.badge_index h.badge_index_lt)),
        ),
        (refl, entry-Reads force_evolve [] _ (Reads-pure _)),
        rw fits (
          refl,
          entry-Reads list_card _ _ (
              Reads-bind _ _ (Reads-uint 7 x.amount h.amount_lt) (
                Reads-bind _ _ (Reads-wrapped 0 x.tier h.tier_lt) (
                  Reads-bind _ _ (Reads-wrapped 0 x.level h.level_lt)
                    (Reads-bind _ _ (Reads-wrapped 0 x.stage h.stage_lt) (Reads-pure _))))),
        ),
        (refl, entry-Reads buy_card [] _ (Reads-pure _)),
        (refl, entry-Reads instant_sell [] _ (Reads-pure _)),
        rw fits
            (refl, entry-Reads update_floor _ _ (Reads-one _ (Reads-uint 7 x.amount h.amount_lt))),
        (refl, entry-Reads set_instant_sell _ _ (Reads-one _ (Reads-flag x.enabled))),
        rw fits (
          refl,
          entry-Reads withdraw_treasury _ _ (Reads-one _ (Reads-uint 7 x.amount h.amount_lt)),
        ),
        (refl, entry-Reads set_pause _ _ (Reads-one _ (Reads-wrapped 0 x.flags h.flags_lt))),
      )
