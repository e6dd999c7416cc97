-- ===== src/Moves/Table.antt =====
-- src/moves.ts: the table of moves.
use pokeage.Prelude.{ℕ, Bool, true, false, Option, none, some, List, [], ◌∷◌, String}
use pokeage.Types.{
  MonsterType, normal, fire, water, grass, electric, ice, fighting, poison, ground_type, flying,
  psychic, bug, rock, ghost, dragon, dark, steel, Move,
}

-- `id`, `name`, `type`, `power`, `acc`, `pp`, `status`, `effChance`, `crit` and `multi`.
abbrev move_row : ℕ → String → MonsterType → ℕ → ℕ → ℕ → Option String → ℕ → Bool → Bool → Move
move_row id name type power acc pp status eff_chance crit multi = record {
  id = id;
  name = name;
  type = type;
  power = power;
  acc = acc;
  pp = pp;
  status = status;
  eff_chance = eff_chance;
  crit = crit;
  multi = multi;
}

unfoldable pub moves : List Move
moves =
    move_row 1 "Strike Hit" normal 40 100 35 none 0 false false
    ∷ move_row 2 "Body Ram" normal 60 100 20 none 0 false false
    ∷ move_row 3 "Power Smash" normal 85 95 15 none 0 false false
    ∷ move_row 4 "Final Charge" normal 110 85 5 none 0 false false
    ∷ move_row 5 "Rapid Jab" normal 18 85 30 none 0 false true
    ∷ move_row 10 "Ember Lash" fire 40 100 25 (some "burn") 10 false false
    ∷ move_row 11 "Flame Burst" fire 65 100 15 (some "burn") 10 false false
    ∷ move_row 12 "Inferno Wave" fire 90 95 10 (some "burn") 20 false false
    ∷ move_row 13 "Solar Pyre" fire 115 85 5 (some "burn") 30 false false
    ∷ move_row 20 "Splash Jet" water 40 100 25 none 0 false false
    ∷ move_row 21 "Tide Pulse" water 65 100 15 none 0 false false
    ∷ move_row 22 "Torrent Crash" water 90 95 10 none 0 false false
    ∷ move_row 23 "Abyssal Surge" water 115 85 5 none 0 false false
    ∷ move_row 30 "Vine Snap" grass 40 100 25 none 0 false false
    ∷ move_row 31 "Leaf Storm" grass 65 100 15 none 0 false false
    ∷ move_row 32 "Bloom Beam" grass 90 95 10 (some "poison") 15 false false
    ∷ move_row 33 "Verdant Wrath" grass 115 85 5 none 0 false false
    ∷ move_row 40 "Spark Nip" electric 40 100 25 (some "paralyze") 10 false false
    ∷ move_row 41 "Volt Arc" electric 65 100 15 (some "paralyze") 15 false false
    ∷ move_row 42 "Thunder Lance" electric 90 90 10 (some "paralyze") 25 false false
    ∷ move_row 43 "Storm Break" electric 115 80 5 (some "paralyze") 30 false false
    ∷ move_row 50 "Frost Bite" ice 40 100 25 (some "freeze") 5 false false
    ∷ move_row 51 "Glacier Edge" ice 65 100 15 (some "freeze") 10 false false
    ∷ move_row 52 "Blizzard Veil" ice 90 90 10 (some "freeze") 15 false false
    ∷ move_row 53 "Permafrost" ice 115 80 5 (some "freeze") 20 false false
    ∷ move_row 60 "Quick Kick" fighting 45 100 25 none 0 false false
    ∷ move_row 61 "Iron Fist" fighting 70 100 15 none 0 false false
    ∷ move_row 62 "Crushing Blow" fighting 95 90 10 none 0 true false
    ∷ move_row 63 "Titan Strike" fighting 120 80 5 none 0 false false
    ∷ move_row 70 "Venom Sting" poison 40 100 25 (some "poison") 20 false false
    ∷ move_row 71 "Toxic Spray" poison 65 100 15 (some "poison") 30 false false
    ∷ move_row 72 "Sludge Wave" poison 90 95 10 (some "poison") 40 false false
    ∷ move_row 80 "Mud Slap" ground_type 40 100 25 none 0 false false
    ∷ move_row 81 "Rock Drill" ground_type 65 100 15 none 0 false false
    ∷ move_row 82 "Quake Stomp" ground_type 95 95 10 none 0 false false
    ∷ move_row 83 "Fault Rupture" ground_type 120 80 5 none 0 false false
    ∷ move_row 90 "Wing Cut" flying 40 100 25 none 0 false false
    ∷ move_row 91 "Gale Dive" flying 70 100 15 none 0 false false
    ∷ move_row 92 "Cyclone Rush" flying 95 90 10 none 0 false false
    ∷ move_row 100 "Mind Jab" psychic 40 100 25 none 0 false false
    ∷ move_row 101 "Psy Pulse" psychic 65 100 15 none 0 false false
    ∷ move_row 102 "Astral Beam" psychic 90 95 10 none 0 false false
    ∷ move_row 103 "Void Collapse" psychic 115 85 5 none 0 false false
    ∷ move_row 110 "Pin Nip" bug 40 100 25 none 0 false false
    ∷ move_row 111 "Swarm Bite" bug 65 100 15 none 0 false true
    ∷ move_row 112 "Hive Frenzy" bug 90 90 10 none 0 false false
    ∷ move_row 120 "Pebble Toss" rock 40 95 25 none 0 false false
    ∷ move_row 121 "Boulder Hurl" rock 70 90 15 none 0 false false
    ∷ move_row 122 "Stone Avalanche" rock 95 85 10 none 0 false false
    ∷ move_row 130 "Shade Touch" ghost 40 100 25 none 0 false false
    ∷ move_row 131 "Phantom Hex" ghost 65 100 15 none 0 false false
    ∷ move_row 132 "Wraith Lance" ghost 90 95 10 none 0 true false
    ∷ move_row 140 "Scale Rake" dragon 50 100 20 none 0 false false
    ∷ move_row 141 "Dragon Pulse" dragon 80 100 12 none 0 false false
    ∷ move_row 142 "Tempest Roar" dragon 110 90 6 none 0 false false
    ∷ move_row 150 "Sneak Bite" dark 40 100 25 none 0 true false
    ∷ move_row 151 "Night Slash" dark 70 100 15 none 0 true false
    ∷ move_row 152 "Abyss Maul" dark 95 90 10 none 0 false false
    ∷ move_row 160 "Metal Tap" steel 40 100 25 none 0 false false
    ∷ move_row 161 "Gear Grind" steel 65 100 15 none 0 false false
    ∷ move_row 162 "Anvil Drop" steel 95 90 10 none 0 false false
    ∷ []

abbrev pub fallback_move : Move
fallback_move = move_row 0 "Strike Hit" normal 40 100 35 none 0 false false
