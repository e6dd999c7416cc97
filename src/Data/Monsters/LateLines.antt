-- ===== src/Data/Monsters/LateLines.antt =====
-- src/data/monsters.ts: the species 25 to 38.
use pokeage.Prelude.{some, List, [], ◌∷◌}
use pokeage.Types.{
  MonsterTemplate, Rarity, RarityTier, fighting, fire, flying, grass, ground_type, normal, psychic,
  steel, water,
}
use pokeage.Data.Species.{stats, species}

unfoldable pub late_lines : List MonsterTemplate
late_lines =
    (species 25 "Mindkit" psychic "mindkit" (stats 55 70 55 80) Rarity.common RarityTier.uncommon)
    ∷ (species 26 "Jabette" fighting "jabette" (stats 65 85 60 60) Rarity.common
        RarityTier.uncommon)
    ∷ (species 27 "Ironhide" steel "ironhide" (stats 70 70 95 40) Rarity.common RarityTier.uncommon)
    ∷ (species 28 "Dapplefawn" normal "dapplefawn" (stats 55 55 50 60) Rarity.common
        RarityTier.common)
    ∷ (species 29 "Bramblepup" grass "bramblepup" (stats 50 60 48 58) Rarity.common
        RarityTier.common)
    ∷ (species 30 "Tideling" water "tideling" (stats 50 50 55 55) Rarity.common RarityTier.common)
    ∷ (record (species 31 "Cobblepup" ground_type "cobblepup" (stats 55 65 55 50) Rarity.common
        RarityTier.common) {
          stage1 = some (stats 80 95 80 65);
          ev1 = some 25;
          evo_stage_assets = some ("cobblepup" ∷ "terradon" ∷ []);
          full_line = some (31 ∷ 32 ∷ []);
        })
    ∷ (record (species 32 "Terradon" ground_type "terradon" (stats 80 95 80 65) Rarity.common
        RarityTier.uncommon) { full_line = some (31 ∷ 32 ∷ []) })
    ∷ (record (species 33 "Sparrowkit" flying "sparrowkit" (stats 42 50 42 70) Rarity.common
        RarityTier.common) {
          stage1 = some (stats 62 75 60 100);
          ev1 = some 20;
          evo_stage_assets = some ("sparrowkit" ∷ "galehawk" ∷ []);
          full_line = some (33 ∷ 34 ∷ []);
        })
    ∷ (record (species 34 "Galehawk" flying "galehawk" (stats 62 75 60 100) Rarity.common
        RarityTier.uncommon) { full_line = some (33 ∷ 34 ∷ []) })
    ∷ (record (species 35 "Emberling" fire "emberling" (stats 48 58 44 62) Rarity.common
        RarityTier.uncommon) {
          stage1 = some (stats 72 86 64 88);
          ev1 = some 26;
          evo_stage_assets = some ("emberling" ∷ "magnaroar" ∷ []);
          full_line = some (35 ∷ 36 ∷ []);
        })
    ∷ (record (species 36 "Magnaroar" fire "magnaroar" (stats 72 86 64 88) Rarity.rare
        RarityTier.rare) { full_line = some (35 ∷ 36 ∷ []) })
    ∷ (record (species 37 "Ripplet" water "ripplet" (stats 52 48 58 50) Rarity.common
        RarityTier.common) {
          stage1 = some (stats 78 70 84 66);
          ev1 = some 24;
          evo_stage_assets = some ("ripplet" ∷ "aquadon" ∷ []);
          full_line = some (37 ∷ 38 ∷ []);
        })
    ∷ (record (species 38 "Aquadon" water "aquadon" (stats 78 70 84 66) Rarity.common
        RarityTier.uncommon) { full_line = some (37 ∷ 38 ∷ []) })
    ∷ []
