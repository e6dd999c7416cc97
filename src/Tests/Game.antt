-- ===== src/Tests/Game.antt =====
-- Tests: the rules of the game, on fixed-point numbers.
use pokeage.Prelude.{
  ◌-◌, ℕ, ◌≡◌, ◌↔◌, ◌≤◌, ◌<◌, ◌⊎◌, ◌^◌, arith, some, List, [], ◌∷◌, true, false, ◌%◌,
}
use pokeage.Num.{◌≼◌}
use pokeage.Num.Fixed.{Fixed, fixed_num, Fixed-IsNum}
use pokeage.Types.{ghost, normal, MonsterInstance, RarityTier}
use pokeage.Typechart.{is_immune, strong, weak, includes, get_type_multiplier}
use pokeage.Typechart.Laws.{get_type_multiplier_iff}
use pokeage.Rng.{new_rng}
use pokeage.Rng.Word.{draws, state-draws_iff}
use pokeage.Damage.{calc_damage}
use pokeage.Pricing.{tier_base_price_sol, card_price_sol}
use pokeage.Pricing.Ladder.{card_price_sol_mono}
use pokeage.Damage.Bounds.{calc_damage_zero_iff}
use pokeage.Status.{poison, apply_status_tick, is_damaging, is_disabling}
use pokeage.Status.Turn.{apply_status_tick_lem}
use pokeage.Tests.{monster, rng}

abbrev whole : ℕ → Fixed
whole k = fixed_num.of_ℕ k

get_type_multiplier_iff_example :
    ((get_type_multiplier normal ghost ≡ 0) ↔ (is_immune normal ghost ≡ true))
    × ((get_type_multiplier normal ghost ≡ 4) ↔ (includes (strong normal) ghost ≡ true))
    × ((get_type_multiplier normal ghost ≡ 1)
        ↔ ((includes (weak normal) ghost ≡ true) × (is_immune normal ghost ≡ false)))
    × ((get_type_multiplier normal ghost ≡ 2) ↔ (
        (includes (strong normal) ghost ≡ false)
        × (includes (weak normal) ghost ≡ false)
        × (is_immune normal ghost ≡ false)))
get_type_multiplier_iff_example = get_type_multiplier_iff normal ghost

state-draws_iff_example : ((draws 3 rng).state ≡ (draws 5 rng).state) ↔ (3 % 2 ^ 32 ≡ 5 % 2 ^ 32)
unfolding new_rng
state-draws_iff_example = state-draws_iff rng 3 5 (omega arith)

abbrev numbers : List ℕ
numbers = 4 ∷ 8 ∷ 15 ∷ []

abbrev spook : MonsterInstance Fixed
spook = record (monster 9 20) { type = ghost }

abbrev rat : MonsterInstance Fixed
rat = record (monster 10 20) { type = normal }

calc_damage_zero_iff_example :
    let (roll, rng') = calc_damage rat spook 40 rng in
    ((roll.dmg ≡ 0) ↔ (is_immune normal ghost ≡ true)) × ((0 < roll.dmg) ⊎ (rng' ≡ rng))
calc_damage_zero_iff_example = calc_damage_zero_iff rat spook 40 rng

abbrev friend : MonsterInstance Fixed
friend = record (monster 1 30) { affection = whole 99 }

apply_status_tick_lem_example :
    let (turn, mon', rng') = apply_status_tick rat (some poison) rng in
    (mon' ≡ record rat { current_hp = 40 - turn.damage })
    × ((1 ≤ turn.damage) ↔ (is_damaging Fixed poison ≡ true))
    × ((turn.immobilized ≡ false) ⊎ (is_disabling Fixed poison ≡ true))
    × ((turn.cleared ≡ false) ⊎ ((turn.immobilized ≡ false) × (turn.damage ≡ 0)))
    × ((turn.cleared ≡ false) ⊎ (is_disabling Fixed poison ≡ true))
apply_status_tick_lem_example = apply_status_tick_lem rat poison rng

card_price_sol_mono_example :
    (tier_base_price_sol Fixed RarityTier.rare ≼ card_price_sol Fixed RarityTier.rare 19 1)
    × (card_price_sol Fixed RarityTier.rare 19 1 ≼ card_price_sol Fixed RarityTier.rare 61 2)
card_price_sol_mono_example =
    card_price_sol_mono Fixed-IsNum RarityTier.rare 19 61 1 2 (omega arith) (omega arith)
