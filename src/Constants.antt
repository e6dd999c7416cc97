-- ===== src/Constants.antt =====
-- src/constants.ts: the tuning constants that the modelled code reads. Decimal literals are `ratio`s
-- at their places of use.
use pokeage.Prelude.{ℕ}

abbrev pub max_level : ℕ
max_level = 55

abbrev pub growth_span : ℕ
growth_span = 49

abbrev pub xp_curve_split : ℕ
xp_curve_split = 10

abbrev pub battle_turn_cap : ℕ
battle_turn_cap = 24

abbrev pub default_move_power : ℕ
default_move_power = 50

abbrev pub encounter_rate_mult : ℕ
encounter_rate_mult = 4

abbrev pub flee_level_gap : ℕ
flee_level_gap = 2

abbrev pub masterball_mult : ℕ
masterball_mult = 999

abbrev pub power_level_weight : ℕ
power_level_weight = 3

abbrev pub affection_max : ℕ
affection_max = 100

abbrev pub max_offline_hours : ℕ
max_offline_hours = 24

abbrev pub tick_ms : ℕ
tick_ms = 15_000

abbrev pub party_size : ℕ
party_size = 4

abbrev pub box_size : ℕ
box_size = 6

abbrev pub same_type_limit : ℕ
same_type_limit = 2

abbrev pub instant_sell_bps : ℕ
instant_sell_bps = 5_000

abbrev pub bps_denom : ℕ
bps_denom = 10_000
