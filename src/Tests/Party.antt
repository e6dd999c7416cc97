-- ===== src/Tests/Party.antt =====
-- Tests: the roster, the battles and the growth of monsters.
use pokeage.Prelude.{
  length, All, ◌*◌, ℕ, ◌≡◌, ◌≤◌, ◌<◌, ◌+◌, ◌⊎◌, ◌↔◌, refl, arith, Option, none, some, List, [], ◌∷◌,
  true, false, inr, max, ◌==◌, if◌then◌else◌,
}
use mathlib.Core.List.{Perm}
use pokeage.Num.Fixed.{Fixed, fixed_num}
use pokeage.Types.{MonsterTemplate, MonsterInstance, GymEntry}
use pokeage.Team.{place_new_monster, should_catch, weak_scan, weak_loop}
use pokeage.Power.{get_monster_power}
use pokeage.Team.Place.{IsRoster, Placement, place_new_monster-Placement, roster}
use pokeage.Team.Conserve.{place_new_monster-Perm}
use pokeage.Team.Decide.{placed-should_catch}
use pokeage.Rng.{Rng}
use pokeage.Battle.{simulate_gym, GymResult}
use pokeage.Battle.Full.{simulate_battle}
use pokeage.Battle.Log.{IsCapped}
use pokeage.Battle.Verdict.{simulate_battle_lem}
use pokeage.Battle.Wear.{AllDown, Worn}
use pokeage.Battle.Leaders.{simulate_gym_total}
use pokeage.Constants.{max_level}
use pokeage.Stats.{stage_for_level}
use pokeage.Progression.{get_xp_for_level, cumulative_xp, grant_xp}
use pokeage.Progression.Level.{grant_xp_stops}
use pokeage.Progression.Total.{grant_xp-total}
use pokeage.Progression.Stage.{IsStaged, grant_xp-IsStaged, grant_xp_stuck}
use pokeage.Tests.{embercub, embercat, monster, newcomer, veteran, rng}

veteran-IsRoster : IsRoster veteran
veteran-IsRoster = record { team_le = omega arith; box_le = omega arith }

place_new_monster-Placement_example :
    Placement veteran (monster 12 9) (place_new_monster veteran (monster 12 9))
place_new_monster-Placement_example = place_new_monster-Placement veteran (monster 12 9)

place_new_monster-Perm_example :
    Perm
      (monster 8 4 ∷ roster (place_new_monster veteran (monster 12 9)).0)
      (monster 12 9 ∷ roster veteran)
unfolding place_new_monster get_monster_power weak_scan weak_loop
place_new_monster-Perm_example = place_new_monster-Perm veteran (monster 12 9)

placed-should_catch_example : (place_new_monster newcomer (monster 2 9)).1.placed ≡ true
unfolding should_catch
placed-should_catch_example = placed-should_catch newcomer (monster 2 9) refl

abbrev lookup : ℕ → Option MonsterTemplate
lookup id = if id == 1 then some embercub else none

abbrev leaders : List GymEntry
leaders = record { monster_id = 1; level = 3 } ∷ record { monster_id = 7; level = 3 } ∷ []

simulate_gym_total_example :
    (result : GymResult Fixed) × (rng' : Rng) × (simulate_gym newcomer.team leaders lookup rng
      ≡ some (result, rng'))
    × (result.won ≡ true ↔ result.gym_defeated ≡ 2)
    × (result.gym_defeated ≤ 2)
    × (result.party_fainted ≤ 1)
    × ((result.won ≡ true) ⊎ AllDown result.party)
    × Worn newcomer.team result.party
simulate_gym_total_example = simulate_gym_total newcomer.team leaders lookup rng

simulate_battle_lem_example :
    let result = (simulate_battle (monster 1 5) (monster 2 9) rng).0 in
    (result.turns_used ≤ 24)
    × (length result.events ≤ 2 * result.turns_used)
    × All (IsCapped Fixed 25 29) result.events
    × (result.my_hp ≤ 25)
    × (result.foe_hp ≤ 29)
    × (0 < result.my_hp + result.foe_hp)
    × ((result.turns_used ≡ 24) ⊎ ((result.my_hp ≡ 0) ⊎ (result.foe_hp ≡ 0)))
    × ((0 < result.foe_hp) ⊎ (result.won ≡ true))
    × ((0 < result.my_hp) ⊎ (result.won ≡ false))
simulate_battle_lem_example = simulate_battle_lem (monster 1 5) (monster 2 9) rng (omega arith)

grant_xp-total_example :
    let mon' = (grant_xp Fixed (monster 1 5) 500 embercub).0 in
    cumulative_xp Fixed mon'.level + mon'.xp ≡ cumulative_xp Fixed 5 + 0 + 500
grant_xp-total_example = grant_xp-total Fixed (monster 1 5) 500 embercub (omega arith)

grant_xp_stops_example :
    let mon' = (grant_xp Fixed (monster 1 5) 500 embercub).0 in
    ((mon'.xp < get_xp_for_level Fixed mon'.level) ⊎ (max_level ≤ mon'.level))
    × (5 ≤ mon'.level)
    × (mon'.level ≤ max 5 max_level)
grant_xp_stops_example = grant_xp_stops Fixed (monster 1 5) 500 embercub

grant_xp-IsStaged_example : IsStaged Fixed embercub (grant_xp Fixed (monster 1 5) 500 embercub).0
unfolding stage_for_level
grant_xp-IsStaged_example =
    grant_xp-IsStaged Fixed (monster 1 5) 500 embercub (inr (omega arith, omega arith))
      (record { same_ev1 = refl; same_ev2 = refl; staged = refl })

abbrev middle : MonsterInstance Fixed
middle = record (monster 2 40) { ev1 = none }

grant_xp_stuck_example :
    ((grant_xp Fixed middle 500 embercat).0.stage ≡ 0) × (stage_for_level embercat 40 ≡ 2)
grant_xp_stuck_example =
    grant_xp_stuck Fixed middle 500 embercat 36 40 refl refl refl (omega arith) (omega arith)
