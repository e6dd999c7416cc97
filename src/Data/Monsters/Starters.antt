-- ===== src/Data/Monsters/Starters.antt =====
-- src/data/monsters.ts: the three starter lines.
use pokeage.Prelude.{some, List, [], ◌∷◌}
use pokeage.Types.{MonsterTemplate, Rarity, RarityTier, fire, grass, water}
use pokeage.Data.Species.{stats, species}

unfoldable pub starters : List MonsterTemplate
starters =
    (record (species 1 "Sprigthorn" grass "sprigthorn" (stats 45 49 49 45) Rarity.common
      RarityTier.uncommon) {
        stage1 = some (stats 60 62 63 60);
        stage2 = some (stats 80 82 83 80);
        ev1 = some 16;
        ev2 = some 32;
        evo_stage_assets = some ("sprigthorn" ∷ "thornmaw" ∷ "verdrake" ∷ []);
        full_line = some (1 ∷ 2 ∷ 3 ∷ []);
      })
    ∷ (record (species 2 "Thornmaw" grass "thornmaw" (stats 60 62 63 60) Rarity.common
        RarityTier.rare) {
          stage2 = some (stats 80 82 83 80);
          ev2 = some 32;
          evo_stage_assets = some ("thornmaw" ∷ "verdrake" ∷ []);
          full_line = some (1 ∷ 2 ∷ 3 ∷ []);
        })
    ∷ (record (species 3 "Verdrake" grass "verdrake" (stats 80 82 83 80) Rarity.rare
        RarityTier.holo) { full_line = some (1 ∷ 2 ∷ 3 ∷ []) })
    ∷ (record (species 4 "Cindercub" fire "cindercub" (stats 39 52 43 65) Rarity.common
        RarityTier.uncommon) {
          stage1 = some (stats 58 64 58 80);
          stage2 = some (stats 78 84 78 100);
          ev1 = some 16;
          ev2 = some 32;
          evo_stage_assets = some ("cindercub" ∷ "blazepaw" ∷ "pyrothane" ∷ []);
          full_line = some (4 ∷ 5 ∷ 6 ∷ []);
        })
    ∷ (record (species 5 "Blazepaw" fire "blazepaw" (stats 58 64 58 80) Rarity.common
        RarityTier.rare) {
          stage2 = some (stats 78 84 78 100);
          ev2 = some 32;
          evo_stage_assets = some ("blazepaw" ∷ "pyrothane" ∷ []);
          full_line = some (4 ∷ 5 ∷ 6 ∷ []);
        })
    ∷ (record (species 6 "Pyrothane" fire "pyrothane" (stats 78 84 78 100) Rarity.rare
        RarityTier.holo) { full_line = some (4 ∷ 5 ∷ 6 ∷ []) })
    ∷ (record (species 7 "Drizzlefin" water "drizzlefin" (stats 44 48 65 43) Rarity.common
        RarityTier.uncommon) {
          stage1 = some (stats 59 63 80 58);
          stage2 = some (stats 79 83 100 78);
          ev1 = some 16;
          ev2 = some 32;
          evo_stage_assets = some ("drizzlefin" ∷ "tidewhisk" ∷ "maeltide" ∷ []);
          full_line = some (7 ∷ 8 ∷ 9 ∷ []);
        })
    ∷ (record (species 8 "Tidewhisk" water "tidewhisk" (stats 59 63 80 58) Rarity.common
        RarityTier.rare) {
          stage2 = some (stats 79 83 100 78);
          ev2 = some 32;
          evo_stage_assets = some ("tidewhisk" ∷ "maeltide" ∷ []);
          full_line = some (7 ∷ 8 ∷ 9 ∷ []);
        })
    ∷ (record (species 9 "Maeltide" water "maeltide" (stats 79 83 100 78) Rarity.rare
        RarityTier.holo) { full_line = some (7 ∷ 8 ∷ 9 ∷ []) })
    ∷ []
