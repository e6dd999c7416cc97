-- ===== src/Data/World.antt =====
-- src/data/world.ts: the twelve towns and their routes.
pub mod Lowlands
pub mod Highlands
pub mod Wilds
pub mod Voyage
pub mod Ladder
use pokeage.Prelude.{ℕ, List, [], ◌∷◌, String}
use pokeage.Num.{Num, ratio}
use pokeage.Types.{Town, Route}
use pokeage.Engine.State.{World}
use pokeage.Data.World.Lowlands.{seedling, thornwood, ironridge, rivercrest, voltport, bloomvale}
use pokeage.Data.World.Highlands.{
  mistveil, hauntmere, crystalspire, emberpeak, forgecrest, dracospire,
}

abbrev pub towns : List Town
towns =
    seedling ∷ thornwood ∷ ironridge ∷ rivercrest ∷ voltport ∷ bloomvale ∷ mistveil ∷ hauntmere
    ∷ crystalspire ∷ emberpeak ∷ forgecrest ∷ dracospire ∷ []

module _ (F : Type 0) ⦃n : Num F⦄ where
  abbrev route : String → String → ℕ → ℕ → List ℕ → List ℕ → F → Route F
  route id name lo hi wild rare rate = record {
    id = id;
    name = name;
    level_lo = lo;
    level_hi = hi;
    wild_pool = wild;
    rare_pool = rare;
    encounter_rate = rate;
  }

  abbrev pub routes : List (Route F)
  routes =
      (route "route-1" "ROUTE 1" 2 5 (28 ∷ 29 ∷ 30 ∷ 22 ∷ 16 ∷ 10 ∷ []) ([]) (ratio 15 100))
      ∷ (route "route-2" "ROUTE 2" 4 8 (28 ∷ 29 ∷ 30 ∷ 22 ∷ 16 ∷ 10 ∷ []) ([]) (ratio 15 100))
      ∷ (route "route-3" "ROUTE 3" 8 14 (16 ∷ 12 ∷ 24 ∷ 29 ∷ 22 ∷ 10 ∷ []) (14 ∷ []) (ratio 12 100))
      ∷ (route "route-4" "ROUTE 4" 14 20 (12 ∷ 30 ∷ 7 ∷ 18 ∷ 24 ∷ 10 ∷ []) (20 ∷ []) (ratio 12 100))
      ∷ (route "route-5" "ROUTE 5" 20 26 (10 ∷ 18 ∷ 7 ∷ 12 ∷ 30 ∷ 24 ∷ []) (21 ∷ []) (ratio 10 100))
      ∷ (route "route-6" "ROUTE 6" 26 32 (1 ∷ 29 ∷ 18 ∷ 20 ∷ 7 ∷ 24 ∷ []) (40 ∷ []) (ratio 10 100))
      ∷ (route "route-7" "ROUTE 7" 30 36 (18 ∷ 20 ∷ 1 ∷ 4 ∷ 7 ∷ 12 ∷ []) (40 ∷ []) (ratio 8 100))
      ∷ (route "route-8" "ROUTE 8" 34 40 (20 ∷ 4 ∷ 7 ∷ 1 ∷ 18 ∷ 14 ∷ []) (42 ∷ []) (ratio 8 100))
      ∷ (route "route-9" "ROUTE 9" 36 42 (4 ∷ 7 ∷ 1 ∷ 14 ∷ 25 ∷ 20 ∷ []) (42 ∷ []) (ratio 8 100))
      ∷ (route "route-10" "ROUTE 10" 40 46 (4 ∷ 7 ∷ 1 ∷ 14 ∷ 25 ∷ 27 ∷ []) (40 ∷ []) (ratio 6 100))
      ∷ (route "route-11" "ROUTE 11" 44 48 (4 ∷ 7 ∷ 1 ∷ 14 ∷ 27 ∷ 25 ∷ []) (41 ∷ []) (ratio 6 100))
      ∷ (route "route-12" "ROUTE 12" 46 52 (4 ∷ 7 ∷ 1 ∷ 14 ∷ 27 ∷ 25 ∷ []) (41 ∷ []) (ratio 5 100))
      ∷ []

  abbrev pub shipped_world : World F
  shipped_world = record { towns = towns; routes = routes }
