-- ===== src/Engine.antt =====
-- src/engine.ts: the agent. A member of the party that the source mutates through an alias is written
-- back at its place. `none` is fuel that ran out in a gym battle. The messages of an encounter's log
-- are left out.
pub mod State
pub mod Draws
pub mod Rewards
pub mod Challenge
pub mod Wild
pub mod Tick
pub mod Roster
pub mod Hunt
pub mod Health
pub mod Fit
pub mod Step
pub mod Total
pub mod Turn
pub mod Badges
pub mod Admit
pub mod Specimen
pub mod Travel
pub mod Journey
