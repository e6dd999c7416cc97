-- ===== src/Data/Monsters/Singles.antt =====
-- src/data/monsters.ts: the species of one stage and the legendaries.
use pokeage.Prelude.{List, [], ◌∷◌}
use pokeage.Types.{
  MonsterTemplate, Rarity, RarityTier, bug, dark, dragon, electric, fire, grass, ice, psychic, rock,
  water,
}
use pokeage.Data.Species.{stats, species}

unfoldable pub singles : List MonsterTemplate
singles =
    (species 39 "Cinderfox" fire "cinderfox" (stats 46 60 44 72) Rarity.common RarityTier.uncommon)
    ∷ (species 43 "Boltpup" electric "boltpup" (stats 48 58 46 78) Rarity.common RarityTier.common)
    ∷ (species 44 "Spinekoi" water "spinekoi" (stats 54 52 60 48) Rarity.common RarityTier.common)
    ∷ (species 45 "Glimmernewt" psychic "glimmernewt" (stats 50 72 50 76) Rarity.common
        RarityTier.uncommon)
    ∷ (species 46 "Thornhog" grass "thornhog" (stats 62 64 66 44) Rarity.common RarityTier.uncommon)
    ∷ (species 47 "Cragmaw" rock "cragmaw" (stats 64 78 88 36) Rarity.common RarityTier.uncommon)
    ∷ (species 48 "Frostkit" ice "frostkit" (stats 50 54 52 58) Rarity.common RarityTier.common)
    ∷ (species 49 "Shadeling" dark "shadeling" (stats 52 70 50 72) Rarity.common
        RarityTier.uncommon)
    ∷ (species 50 "Mossback" bug "mossback" (stats 58 56 62 46) Rarity.common RarityTier.common)
    ∷ (species 40 "Voltaire" electric "voltaire" (stats 90 110 85 130) Rarity.legendary
        RarityTier.secret)
    ∷ (species 41 "Terravorg" dragon "terravorg" (stats 100 130 110 90) Rarity.legendary
        RarityTier.secret)
    ∷ (species 42 "Umbroth" dark "umbroth" (stats 95 115 95 105) Rarity.legendary RarityTier.secret)
    ∷ []
