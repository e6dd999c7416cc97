-- ===== src/Data.antt =====
-- src/data: the game's tables.
pub mod Species
pub mod Monsters
pub mod World
