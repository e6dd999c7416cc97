-- ===== src/Sdk/Accounts/RoundTrip.antt =====
-- sdk/src/accounts.ts: the decoders against the layout of the program.
use pokeage.Prelude.{ℕ, ◌≡◌, arith, some, List, ◌++◌, length}
use pokeage.Sdk.Borsh.{concat}
use pokeage.Sdk.Borsh.Reads.{
  Reads, Reads-bind, Reads-pure, Reads-map, Reads-uint, Reads-i64, Reads-bool, Reads-pubkey,
  run-Reads,
}
use pokeage.Sdk.Keys.{Web3, IsWeb3}
use pokeage.Sdk.Accounts.{
  ConfigAccount, PlayerAccount, PoolAccount, ListingAccount, read_pool, read_config, read_player,
  read_listing, public_key, decode_pool, decode_config, decode_player, decode_listing,
}
use pokeage.Sdk.Accounts.Layout.{
  FitsPool, FitsConfig, FitsPlayer, FitsListing, pool_layout, config_layout, player_layout,
  listing_layout,
}

Reads-pool : (a : PoolAccount) → FitsPool a → Reads read_pool (concat (pool_layout a)) a
unfolding read_pool
Reads-pool a h = Reads-bind _ _ (Reads-uint 7 _ (omega arith)) (
    Reads-bind _ _ (Reads-uint 7 _ (omega arith)) (
      Reads-bind _ _ (Reads-uint 7 _ (omega arith)) (
        Reads-bind _ _ (Reads-uint 7 _ (omega arith)) (
          Reads-bind _ _ (Reads-bool _)
            (Reads-bind _ _ (Reads-uint 0 _ (omega arith)) (Reads-pure a))))))

-- A buyback pool whose integers fit their types is decoded from its on-chain bytes, whatever the
-- discriminator and whatever follows.
pub decode_pool-layout :
    (a : PoolAccount) (disc rest : List ℕ)
    → FitsPool a
    → length disc ≡ 8
    → decode_pool (disc ++ (concat (pool_layout a) ++ rest)) ≡ some a
decode_pool-layout a disc rest h e = run-Reads read_pool disc _ rest 8 a e (Reads-pool a h)

module _ {P : Type 0} ⦃web3 : Web3 P⦄ (laws : IsWeb3 P) where
  Reads-key : (k : P) → Reads public_key (web3.to_bytes k) k
  unfolding public_key
  Reads-key k =
      Reads-map web3.new_public_key (laws.new_public_key-to_bytes k)
        (Reads-pubkey (web3.to_bytes k) (laws.length-to_bytes k))

  Reads-config :
      (a : ConfigAccount P) → FitsConfig a → Reads read_config (concat (config_layout a)) a
  unfolding read_config
  Reads-config a h = Reads-bind _ _ (Reads-key _) (
      Reads-bind _ _ (Reads-key _) (
        Reads-bind _ _ (Reads-key _) (
          Reads-bind _ _ (Reads-key _) (
            Reads-bind _ _ (Reads-uint 1 _ (omega arith)) (
              Reads-bind _ _ (Reads-uint 1 _ (omega arith)) (
                Reads-bind _ _ (Reads-uint 1 _ (omega arith)) (
                  Reads-bind _ _ (Reads-uint 1 _ (omega arith)) (
                    Reads-bind _ _ (Reads-uint 7 _ (omega arith)) (
                      Reads-bind _ _ (Reads-uint 7 _ (omega arith)) (
                        Reads-bind _ _ (Reads-uint 7 _ (omega arith)) (
                          Reads-bind _ _ (Reads-uint 0 _ (omega arith)) (
                            Reads-bind _ _ (Reads-uint 0 _ (omega arith)) (Reads-pure a)))))))))))))

  -- The program's config whose integers fit their types is decoded from its on-chain bytes, whatever the
  -- discriminator and whatever follows.
  decode_config-layout :
      (a : ConfigAccount P) (disc rest : List ℕ)
      → FitsConfig a
      → length disc ≡ 8
      → decode_config (disc ++ (concat (config_layout a) ++ rest)) ≡ some a
  decode_config-layout a disc rest h e = run-Reads read_config disc _ rest 8 a e (Reads-config a h)

  Reads-player :
      (a : PlayerAccount P) → FitsPlayer a → Reads read_player (concat (player_layout a)) a
  unfolding read_player
  Reads-player a h = Reads-bind _ _ (Reads-key _) (
      Reads-bind _ _ (Reads-bool _) (
        Reads-bind _ _ (Reads-uint 7 _ (omega arith)) (
          Reads-bind _ _ (Reads-uint 3 _ (omega arith)) (
            Reads-bind _ _ (Reads-uint 1 _ (omega arith)) (
              Reads-bind _ _ (Reads-i64 _ (omega arith))
                (Reads-bind _ _ (Reads-uint 0 _ (omega arith)) (Reads-pure a)))))))

  -- A player's state whose integers fit their types is decoded from its on-chain bytes, whatever the
  -- discriminator and whatever follows.
  decode_player-layout :
      (a : PlayerAccount P) (disc rest : List ℕ)
      → FitsPlayer a
      → length disc ≡ 8
      → decode_player (disc ++ (concat (player_layout a) ++ rest)) ≡ some a
  decode_player-layout a disc rest h e = run-Reads read_player disc _ rest 8 a e (Reads-player a h)

  Reads-listing :
      (a : ListingAccount P) → FitsListing a → Reads read_listing (concat (listing_layout a)) a
  unfolding read_listing
  Reads-listing a h = Reads-bind _ _ (Reads-key _) (
      Reads-bind _ _ (Reads-key _) (
        Reads-bind _ _ (Reads-uint 7 _ (omega arith)) (
          Reads-bind _ _ (Reads-uint 0 _ (omega arith)) (
            Reads-bind _ _ (Reads-uint 0 _ (omega arith)) (
              Reads-bind _ _ (Reads-uint 0 _ (omega arith)) (
                Reads-bind _ _ (Reads-i64 _ (omega arith)) (
                  Reads-bind _ _ (Reads-bool _)
                    (Reads-bind _ _ (Reads-uint 0 _ (omega arith)) (Reads-pure a)))))))))

  -- A listing whose integers fit their types is decoded from its on-chain bytes, whatever the
  -- discriminator and whatever follows.
  decode_listing-layout :
      (a : ListingAccount P) (disc rest : List ℕ)
      → FitsListing a
      → length disc ≡ 8
      → decode_listing (disc ++ (concat (listing_layout a) ++ rest)) ≡ some a
  decode_listing-layout a disc rest h e =
      run-Reads read_listing disc _ rest 8 a e (Reads-listing a h)

  -- The four decoders each read back what the program stores, for accounts whose integers fit their
  -- types, whatever the discriminator and whatever follows.
  pub decoders-layout :
      (c : ConfigAccount P) (p : PlayerAccount P) (o : PoolAccount) (l : ListingAccount P)
      (disc rest : List ℕ)
      → FitsConfig c
      → FitsPlayer p
      → FitsPool o
      → FitsListing l
      → length disc ≡ 8
      → (decode_config (disc ++ (concat (config_layout c) ++ rest)) ≡ some c)
        × (decode_player (disc ++ (concat (player_layout p) ++ rest)) ≡ some p)
        × (decode_pool (disc ++ (concat (pool_layout o) ++ rest)) ≡ some o)
        × (decode_listing (disc ++ (concat (listing_layout l) ++ rest)) ≡ some l)
  decoders-layout c p o l disc rest hc hp ho hl e = (
    decode_config-layout c disc rest hc e,
    decode_player-layout p disc rest hp e,
    decode_pool-layout o disc rest ho e,
    decode_listing-layout l disc rest hl e,
  )
