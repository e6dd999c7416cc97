-- ===== src/Sdk/Accounts/Length.antt =====
-- sdk/src/accounts.ts: the buffers on which a decoder succeeds.
use pokeage.Prelude.{ℕ, ◌≤◌, ◌≡◌, ◌↔◌, some, List, length}
use pokeage.Sdk.Borsh.{i64, bool, word_i64}
use pokeage.Sdk.Borsh.Needs.{
  Needs, Skips, Skips-pubkey, Needs-uint, Needs-map, Skips-map, Needs-skip, Needs-bind, run-Needs,
}
use pokeage.Sdk.Keys.{Web3}
use pokeage.Sdk.Accounts.{
  ConfigAccount, PlayerAccount, PoolAccount, ListingAccount, read_pool, read_config, read_player,
  read_listing, public_key, decode_pool, decode_config, decode_player, decode_listing,
}

Needs-bool : Needs bool 1
unfolding bool
Needs-bool = Needs-map _ (Needs-uint 1)

Needs-i64 : Needs i64 8
unfolding i64
Needs-i64 = Needs-map word_i64 (Needs-uint 8)

Needs-pool : Needs read_pool 34
unfolding read_pool
Needs-pool = Needs-bind (Needs-uint 8) (λ _. Needs-bind (Needs-uint 8) (λ _.
    Needs-bind (Needs-uint 8) (λ _.
      Needs-bind (Needs-uint 8) (λ _. Needs-bind Needs-bool (λ _. Needs-map _ (Needs-uint 1))))))

module _ {P : Type 0} ⦃web3 : Web3 P⦄ where
  Skips-key : Skips (public_key {P = P}) 32
  unfolding public_key
  Skips-key = Skips-map web3.new_public_key Skips-pubkey

  Needs-config : Needs (read_config {P = P}) 162
  unfolding read_config
  Needs-config = Needs-skip Skips-key (λ _. Needs-skip Skips-key (λ _. Needs-skip Skips-key (λ _.
      Needs-skip Skips-key (λ _. Needs-bind (Needs-uint 2) (λ _. Needs-bind (Needs-uint 2) (λ _.
        Needs-bind (Needs-uint 2) (λ _. Needs-bind (Needs-uint 2) (λ _.
          Needs-bind (Needs-uint 8) (λ _. Needs-bind (Needs-uint 8) (λ _.
            Needs-bind (Needs-uint 8)
              (λ _. Needs-bind (Needs-uint 1) (λ _. Needs-map _ (Needs-uint 1)))))))))))))

  Needs-player : Needs (read_player {P = P}) 56
  unfolding read_player
  Needs-player = Needs-skip Skips-key (λ _. Needs-bind Needs-bool (λ _.
      Needs-bind (Needs-uint 8) (λ _. Needs-bind (Needs-uint 4) (λ _.
        Needs-bind (Needs-uint 2) (λ _. Needs-bind Needs-i64 (λ _. Needs-map _ (Needs-uint 1)))))))

  Needs-listing : Needs (read_listing {P = P}) 85
  unfolding read_listing
  Needs-listing = Needs-skip Skips-key (λ _. Needs-skip Skips-key (λ _.
      Needs-bind (Needs-uint 8) (λ _. Needs-bind (Needs-uint 1) (λ _.
        Needs-bind (Needs-uint 1) (λ _. Needs-bind (Needs-uint 1) (λ _.
          Needs-bind Needs-i64 (λ _. Needs-bind Needs-bool (λ _. Needs-map _ (Needs-uint 1)))))))))

  -- Each decoder returns an account exactly when the buffer is at least as long as the account's
  -- length in the program (`LEN`: 170, 64, 42 and 93 bytes), and throws otherwise.
  pub decoders-length_iff :
      (buf : List ℕ)
      → (((a : ConfigAccount P) × (decode_config buf ≡ some a)) ↔ (170 ≤ length buf))
        × (((a : PlayerAccount P) × (decode_player buf ≡ some a)) ↔ (64 ≤ length buf))
        × (((a : PoolAccount) × (decode_pool buf ≡ some a)) ↔ (42 ≤ length buf))
        × (((a : ListingAccount P) × (decode_listing buf ≡ some a)) ↔ (93 ≤ length buf))
  decoders-length_iff buf = (
    run-Needs (read_config {P = P}) 8 162 buf Needs-config,
    run-Needs (read_player {P = P}) 8 56 buf Needs-player,
    run-Needs read_pool 8 34 buf Needs-pool,
    run-Needs (read_listing {P = P}) 8 85 buf Needs-listing,
  )
