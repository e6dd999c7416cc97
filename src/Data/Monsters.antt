-- ===== src/Data/Monsters.antt =====
-- src/data/monsters.ts: the sample roster and its registry.
pub mod Starters
pub mod Lines
pub mod LateLines
pub mod Singles
pub mod Lookup
pub mod Final
use pokeage.Prelude.{ℕ, Bool, Option, none, some, List, [], ◌∷◌, ◌++◌, foldl, ◌==◌, if◌then◌else◌}
use pokeage.Types.{MonsterTemplate}
use pokeage.Data.Monsters.Starters.{starters}
use pokeage.Data.Monsters.Lines.{lines}
use pokeage.Data.Monsters.LateLines.{late_lines}
use pokeage.Data.Monsters.Singles.{singles}

unfoldable pub sample_monsters : List MonsterTemplate
unfolding starters lines late_lines singles
sample_monsters = starters ++ lines ++ late_lines ++ singles

pub record Registry : Type 0 where
  pub get_monster_by_id : ℕ → Option MonsterTemplate
  pub all : List MonsterTemplate

-- `index.set(m.id, m)`, on the map as a function.
abbrev pub set_entry : (ℕ → Option MonsterTemplate) → MonsterTemplate → ℕ → Option MonsterTemplate
set_entry index m id = if id == m.id then some m else index id

unfoldable pub create_registry : List MonsterTemplate → Registry
create_registry roster = record {
  get_monster_by_id = foldl set_entry (λ id. none) roster;
  all = roster;
}

unfoldable pub sample_registry : Registry
unfolding create_registry sample_monsters
sample_registry = create_registry sample_monsters

abbrev pub starter_ids : List ℕ
starter_ids = 1 ∷ 4 ∷ 7 ∷ []
