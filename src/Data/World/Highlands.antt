-- ===== src/Data/World/Highlands.antt =====
-- src/data/world.ts: the last six towns.
use pokeage.Prelude.{true, some, none, [], ◌∷◌}
use pokeage.Types.{Town, dragon, fire, ghost, poison, psychic, steel}

abbrev pub mistveil : Town
mistveil = record {
  id = "mistveil";
  name = "MISTVEIL";
  desc = some "A foggy town shrouded in morning haze.";
  gym = some (record {
    leader = "SLUDGE";
    type = poison;
    badge = "MURK";
    team =
        record { monster_id = 18; level = 32 }
        ∷ record { monster_id = 19; level = 33 }
        ∷ record { monster_id = 19; level = 35 }
        ∷ [];
    order = 6;
  });
  routes = "route-7" ∷ [];
  next_town = some "hauntmere";
  required_badge = some "BLOOM";
  center = some true;
}

abbrev pub hauntmere : Town
hauntmere = record {
  id = "hauntmere";
  name = "HAUNTMERE";
  desc = some "A haunted field where lost spirits are said to wander.";
  gym = some (record {
    leader = "SHADOW";
    type = ghost;
    badge = "GHOST";
    team =
        record { monster_id = 20; level = 35 }
        ∷ record { monster_id = 21; level = 36 }
        ∷ record { monster_id = 21; level = 38 }
        ∷ [];
    order = 7;
  });
  routes = "route-8" ∷ [];
  next_town = some "crystalspire";
  required_badge = some "MURK";
  center = some true;
}

abbrev pub crystalspire : Town
crystalspire = record {
  id = "crystalspire";
  name = "CRYSTALSPIRE";
  desc = some "The grandest meadow in the region, dotted with crystal springs.";
  gym = some (record {
    leader = "SAGE";
    type = psychic;
    badge = "SAGE";
    team =
        record { monster_id = 25; level = 38 }
        ∷ record { monster_id = 22; level = 39 }
        ∷ record { monster_id = 25; level = 41 }
        ∷ [];
    order = 8;
  });
  routes = "route-9" ∷ [];
  next_town = some "emberpeak";
  required_badge = some "GHOST";
  center = some true;
}

abbrev pub emberpeak : Town
emberpeak = record {
  id = "emberpeak";
  name = "EMBERPEAK ISLE";
  desc = some "A sunny island blazing under the summer sun.";
  gym = some (record {
    leader = "BLAZE";
    type = fire;
    badge = "EMBER";
    team =
        record { monster_id = 4; level = 42 }
        ∷ record { monster_id = 5; level = 43 }
        ∷ record { monster_id = 6; level = 44 }
        ∷ record { monster_id = 5; level = 46 }
        ∷ [];
    order = 9;
  });
  routes = "route-10" ∷ [];
  next_town = some "forgecrest";
  required_badge = some "SAGE";
  center = some true;
}

abbrev pub forgecrest : Town
forgecrest = record {
  id = "forgecrest";
  name = "FORGECREST CITY";
  desc = some "An industrial town of steel barns and clanking machinery.";
  gym = some (record {
    leader = "IRON";
    type = steel;
    badge = "STEEL";
    team = record { monster_id = 27; level = 45 } ∷ record { monster_id = 27; level = 46 } ∷ [];
    order = 10;
  });
  routes = "route-11" ∷ [];
  next_town = some "dracospire";
  required_badge = some "EMBER";
  center = some true;
}

abbrev pub dracospire : Town
dracospire = record {
  id = "dracospire";
  name = "DRACOSPIRE PEAK";
  desc = some "A forbidden peak where the legendary dragons roam.";
  gym = some (record {
    leader = "THUNDER";
    type = dragon;
    badge = "HORN";
    team =
        record { monster_id = 14; level = 48 }
        ∷ record { monster_id = 15; level = 49 }
        ∷ record { monster_id = 41; level = 50 }
        ∷ [];
    order = 11;
  });
  routes = "route-12" ∷ [];
  next_town = none;
  required_badge = some "STEEL";
  center = some true;
}
