-- ===== src/Data/World/Lowlands.antt =====
-- src/data/world.ts: the first six towns.
use pokeage.Prelude.{true, some, none, [], ◌∷◌}
use pokeage.Types.{Town, bug, electric, grass, normal, rock, water}

abbrev pub seedling : Town
seedling = record {
  id = "seedling";
  name = "SEEDLING TOWN";
  desc = some "A peaceful starter town where the journey begins.";
  gym = some (record {
    leader = "MOLLY";
    type = normal;
    badge = "NORMAL";
    team =
        record { monster_id = 28; level = 5 }
        ∷ record { monster_id = 22; level = 6 }
        ∷ record { monster_id = 24; level = 7 }
        ∷ [];
    order = 0;
  });
  routes = "route-1" ∷ [];
  next_town = some "thornwood";
  required_badge = none;
  center = some true;
}

abbrev pub thornwood : Town
thornwood = record {
  id = "thornwood";
  name = "THORNWOOD";
  desc = some "A vast town shaded by ancient oak groves.";
  gym = some (record {
    leader = "BUZZ";
    type = bug;
    badge = "INSECT";
    team =
        record { monster_id = 16; level = 8 }
        ∷ record { monster_id = 29; level = 9 }
        ∷ record { monster_id = 17; level = 11 }
        ∷ [];
    order = 1;
  });
  routes = "route-2" ∷ [];
  next_town = some "ironridge";
  required_badge = some "NORMAL";
  center = some true;
}

abbrev pub ironridge : Town
ironridge = record {
  id = "ironridge";
  name = "IRONRIDGE CITY";
  desc = some "A rugged settlement carved into the mountainside.";
  gym = some (record {
    leader = "ROCKY";
    type = rock;
    badge = "BOULDER";
    team =
        record { monster_id = 12; level = 12 }
        ∷ record { monster_id = 24; level = 13 }
        ∷ record { monster_id = 13; level = 15 }
        ∷ [];
    order = 2;
  });
  routes = "route-3" ∷ [];
  next_town = some "rivercrest";
  required_badge = some "INSECT";
  center = some true;
}

abbrev pub rivercrest : Town
rivercrest = record {
  id = "rivercrest";
  name = "RIVERCREST CITY";
  desc = some "A serene port along the great brook.";
  gym = some (record {
    leader = "SPLASH";
    type = water;
    badge = "STREAM";
    team =
        record { monster_id = 30; level = 18 }
        ∷ record { monster_id = 7; level = 19 }
        ∷ record { monster_id = 8; level = 21 }
        ∷ [];
    order = 3;
  });
  routes = "route-4" ∷ [];
  next_town = some "voltport";
  required_badge = some "BOULDER";
  center = some true;
}

abbrev pub voltport : Town
voltport = record {
  id = "voltport";
  name = "VOLTPORT";
  desc = some "A bustling mill powered by lightning.";
  gym = some (record {
    leader = "STORM";
    type = electric;
    badge = "BOLT";
    team =
        record { monster_id = 10; level = 21 }
        ∷ record { monster_id = 23; level = 23 }
        ∷ record { monster_id = 11; level = 25 }
        ∷ [];
    order = 4;
  });
  routes = "route-5" ∷ [];
  next_town = some "bloomvale";
  required_badge = some "STREAM";
  center = some true;
}

abbrev pub bloomvale : Town
bloomvale = record {
  id = "bloomvale";
  name = "BLOOMVALE";
  desc = some "A colorful field of clover and wildflowers.";
  gym = some (record {
    leader = "CLOVER";
    type = grass;
    badge = "BLOOM";
    team =
        record { monster_id = 29; level = 27 }
        ∷ record { monster_id = 1; level = 28 }
        ∷ record { monster_id = 2; level = 30 }
        ∷ [];
    order = 5;
  });
  routes = "route-6" ∷ [];
  next_town = some "mistveil";
  required_badge = some "BOLT";
  center = some true;
}
