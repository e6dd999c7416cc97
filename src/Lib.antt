-- ===== src/Lib.antt =====
-- pokeAge: the game engine in src/ and the SDK in sdk/src of the repository.
--
-- The engine plays a monster game for an agent. A trainer has a party and a box of monsters (`Team`),
-- which fight wild monsters and gym leaders (`Battle`, on `Damage` and `Typechart`), are caught
-- (`Catch`), gain experience, levels and evolution stages (`Progression`, on `Stats`) and affection
-- (`Affection`). The agent plays by ticks (`Engine`), each of which heals, challenges a gym, travels or
-- meets a wild monster (`Encounter`). Every roll comes from one seeded generator (`Rng`). The SDK reads
-- the accounts of the on-chain program and builds its instructions (`Sdk`).
--
--   Types        src/types.ts: the records and enums, field by field
--   Constants    src/constants.ts: the numbers that the modelled code reads
--   Rng          src/rng.ts: the state is a 32-bit word, and a draw returns the next state
--   Typechart    src/typechart.ts: the tables as functions, multipliers in halves
--   Stats        src/stats.ts: both stat models and the instances they build
--   Power, Team  src/power.ts and src/team.ts: power, `placeNewMonster` and `shouldCatch`
--   Catch, Affection, Progression, Damage
--                src/catch.ts, src/affection.ts, src/progression.ts and src/damage.ts
--   Battle       src/battle.ts: `simulateAuto` and `simulateGym`, and `simulateBattle` (Full)
--   Moves        src/moves.ts: the table, the sets and the choice of a move
--   Encounter    src/encounter.ts: the wild monster of a route
--   Engine       src/engine.ts: the state and look-ups (State), the experience (Rewards), gyms
--                (Challenge), hunting (Wild) and the decision (Tick). A party member that the source
--                mutates through an alias is written back at its place.
--                Turn is a tick as a relation, with one constructor for each thing that it may do.
--                Roster, Hunt, Health, Fit, Step and Total follow a trainer through a tick, Travel
--                and Badges say where the agent goes and what it wins, and Specimen, Admit, Draws and
--                Journey follow it through many ticks.
--   Data         src/data/monsters.ts (Species, Monsters) and src/data/world.ts (World)
--   Factory      src/factory.ts: a new trainer
--   Save         src/save.ts: saved values, whose missing fields are Options; JSON is a parameter
--   Trainers     src/trainers.ts: opponents; the bounded `while` runs on the attempts left
--   Analytics    src/analytics.ts: the report on a team
--   Balance      src/balance.ts: batches of seeded runs
--   Offline      src/offline.ts: the capped run of ticks and its summary
--   Status       src/status.ts: one turn of a status
--   Pricing      src/pricing.ts: card prices and tier codes
--   Sdk          sdk/src: borsh.ts (Borsh), pda.ts (Pda), accounts.ts and types.ts (Accounts, Fetch),
--                instructions.ts and constants.ts (Instructions), token.ts (Token), client.ts (Client);
--                web3.js and spl-token are the parameters Keys and Chain
--   Prelude, Num shared helpers, and the doubles
--   Tests        concrete inputs
--
-- Numbers. A whole number of the source is ℕ. A number with a fraction is of a type `F` with the
-- interface `Num`, whose laws `IsNum` are those of rounded arithmetic that the theorems use: order,
-- monotone operations, exact small integers. `Num.Fixed` is a fixed-point instance with all the laws.
-- The generator writes the wrap-around of `Math.imul` and the shifts out as `% 2 ^ 32`.
--
-- State. An object that the source mutates is a record passed in and returned. A function that draws
-- random numbers takes a generator and returns the next. A field that may be missing is an Option.
--
-- Loops. The loop of `grantXp` runs on the levels up to the maximum, `simulateAuto` on its 20 turns and
-- `simulateBattle` on its 24. The inner loop of `simulateGym` has fuel for one round for each hit point
-- of the party's fighter and one more, since each round that does not end it takes a hit point; the
-- outer loop for one round for each monster of both sides and one more, since each passes a monster.
-- The offline run takes the ticks of at most 24 hours.
--
-- Data. The sample roster and the world are lists in the order of the source (Data.Monsters, Data.World).
-- Theorems on all of a table are read off one Boolean test of it, which is evaluated.
--
-- Network. The SDK's connection is a parameter, the record Chain of the accounts' contents as they are
-- read, and so is the derivation of addresses. Its law IsChain is that a query for token accounts goes
-- by the mint where one is given. A promise is its value. What the program does with the SDK's bytes is
-- written from programs/pokeage/src: the account layouts (Sdk.Accounts.Layout), the handlers and their
-- arguments (Sdk.Instructions.Entry) and the instant sell (Sdk.Client.Quotes).
--
-- Not modelled: the rest of the on-chain program and the command line, which are Rust, the type
-- colours and the token costs of src/constants.ts, which the library only declares, and fromRpc of the
-- client, which opens a connection. A save that lacks more than a load fills in or tests, such as a
-- monster without its stats, is no value of the model.
pub mod Prelude
pub mod Num
pub mod Types
pub mod Typechart
pub mod Rng
pub mod Sdk
pub mod Constants
pub mod Stats
pub mod Power
pub mod Team
pub mod Affection
pub mod Catch
pub mod Progression
pub mod Damage
pub mod Battle
pub mod Encounter
pub mod Engine
pub mod Data
pub mod Offline
pub mod Status
pub mod Moves
pub mod Pricing
pub mod Save
pub mod Factory
pub mod Trainers
pub mod Analytics
pub mod Balance
pub mod Tests
