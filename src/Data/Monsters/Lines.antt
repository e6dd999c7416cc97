-- ===== src/Data/Monsters/Lines.antt =====
-- src/data/monsters.ts: the species 10 to 24.
use pokeage.Prelude.{some, List, [], ◌∷◌}
use pokeage.Types.{
  MonsterTemplate, Rarity, RarityTier, bug, electric, flying, ghost, ground_type, ice, poison, rock,
}
use pokeage.Data.Species.{stats, species}

unfoldable pub lines : List MonsterTemplate
lines =
    (record (species 10 "Sparkit" electric "sparkit" (stats 35 45 40 70) Rarity.common
      RarityTier.common) {
        stage1 = some (stats 55 70 55 100);
        ev1 = some 22;
        evo_stage_assets = some ("sparkit" ∷ "voltyx" ∷ []);
        full_line = some (10 ∷ 11 ∷ []);
      })
    ∷ (record (species 11 "Voltyx" electric "voltyx" (stats 55 70 55 100) Rarity.common
        RarityTier.uncommon) { full_line = some (10 ∷ 11 ∷ []) })
    ∷ (record (species 12 "Pebblet" rock "pebblet" (stats 50 55 80 25) Rarity.common
        RarityTier.common) {
          stage1 = some (stats 70 75 110 40);
          ev1 = some 24;
          evo_stage_assets = some ("pebblet" ∷ "boulderon" ∷ []);
          full_line = some (12 ∷ 13 ∷ []);
        })
    ∷ (record (species 13 "Boulderon" rock "boulderon" (stats 70 75 110 40) Rarity.common
        RarityTier.uncommon) { full_line = some (12 ∷ 13 ∷ []) })
    ∷ (record (species 14 "Frostnip" ice "frostnip" (stats 50 50 50 50) Rarity.common
        RarityTier.common) {
          stage1 = some (stats 75 70 70 70);
          ev1 = some 28;
          evo_stage_assets = some ("frostnip" ∷ "glacialox" ∷ []);
          full_line = some (14 ∷ 15 ∷ []);
        })
    ∷ (record (species 15 "Glacialox" ice "glacialox" (stats 75 70 70 70) Rarity.common
        RarityTier.uncommon) { full_line = some (14 ∷ 15 ∷ []) })
    ∷ (record (species 16 "Mothlet" bug "mothlet" (stats 40 35 30 50) Rarity.common
        RarityTier.common) {
          stage1 = some (stats 60 55 50 75);
          ev1 = some 12;
          evo_stage_assets = some ("mothlet" ∷ "dustwing" ∷ []);
          full_line = some (16 ∷ 17 ∷ []);
        })
    ∷ (record (species 17 "Dustwing" bug "dustwing" (stats 60 55 50 75) Rarity.common
        RarityTier.common) { full_line = some (16 ∷ 17 ∷ []) })
    ∷ (record (species 18 "Sludgeling" poison "sludgeling" (stats 55 50 48 42) Rarity.common
        RarityTier.common) {
          stage1 = some (stats 80 72 68 58);
          ev1 = some 24;
          evo_stage_assets = some ("sludgeling" ∷ "toxiboar" ∷ []);
          full_line = some (18 ∷ 19 ∷ []);
        })
    ∷ (record (species 19 "Toxiboar" poison "toxiboar" (stats 80 72 68 58) Rarity.common
        RarityTier.uncommon) { full_line = some (18 ∷ 19 ∷ []) })
    ∷ (record (species 20 "Wispurr" ghost "wispurr" (stats 45 50 45 65) Rarity.common
        RarityTier.uncommon) {
          stage1 = some (stats 65 75 65 95);
          ev1 = some 26;
          evo_stage_assets = some ("wispurr" ∷ "phantomane" ∷ []);
          full_line = some (20 ∷ 21 ∷ []);
        })
    ∷ (record (species 21 "Phantomane" ghost "phantomane" (stats 65 75 65 95) Rarity.rare
        RarityTier.rare) { full_line = some (20 ∷ 21 ∷ []) })
    ∷ (record (species 22 "Hatchick" flying "hatchick" (stats 40 45 40 56) Rarity.common
        RarityTier.common) {
          stage1 = some (stats 65 70 60 90);
          ev1 = some 18;
          evo_stage_assets = some ("hatchick" ∷ "skyroost" ∷ []);
          full_line = some (22 ∷ 23 ∷ []);
        })
    ∷ (record (species 23 "Skyroost" flying "skyroost" (stats 65 70 60 90) Rarity.common
        RarityTier.uncommon) { full_line = some (22 ∷ 23 ∷ []) })
    ∷ (species 24 "Gritmole" ground_type "gritmole" (stats 60 80 60 55) Rarity.common
        RarityTier.uncommon)
    ∷ []
