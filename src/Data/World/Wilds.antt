-- ===== src/Data/World/Wilds.antt =====
-- src/data/world.ts: the pools of the shipped routes and the teams of the shipped gyms, as the
-- search and the battle use them.
use pokeage.Prelude.{
  ◌↔◌, ap, sym, subst, map, take, length-take, length-map, ℕ, ◌≡◌, inl, inr, refl, arith, Bool,
  true, false, ◌&&◌, none, some, List, [], ◌∷◌, Memᴰ, length, all, all-Memᴰ, All, ltb, Option-cases,
}
use pokeage.Num.{Num}
use pokeage.Types.{MonsterInstance, Route, Town, Gym, GymEntry}
use pokeage.Rng.{Rng}
use pokeage.Battle.{GymResult, simulate_gym}
use pokeage.Battle.Leaders.{simulate_gym_total}
use pokeage.Battle.Wins.{beaten_monster, sent_monster, simulate_gym-Logged}
use pokeage.Encounter.{EncounterBuffs, generate_wild_monster}
use pokeage.Encounter.Levels.{IsWild}
use pokeage.Encounter.Found.{Known, generate_wild_monster_found}
use pokeage.Data.Monsters.{sample_registry}
use pokeage.Data.Monsters.Final.{sample}
use pokeage.Data.World.{towns, routes}

abbrev known : ℕ → Bool
known id = elim (sample id) [ none ↦ false | some template ↦ true ]

abbrev stocked : {F : Type 0} → Route F → Bool
stocked r = ltb 0 (length r.wild_pool) && all known r.wild_pool && all known r.rare_pool

known_sound : (id : ℕ) → known id ≡ true → Known sample id
known_sound id h = elim (Option-cases (sample id)) [ inl e ↦ absurd (cc) | inr found ↦ found ]

all_known_sound : (ids : List ℕ) → all known ids ≡ true → All (Known sample) ids
all_known_sound [] h = tt
all_known_sound (id ∷ ids) h = (known_sound id (ground arith), all_known_sound ids (ground arith))

routes_stocked : (F : Type 0) ⦃n : Num F⦄ → all stocked (routes F) ≡ true
unfolding sample_registry
routes_stocked F = refl

module _ {F : Type 0} ⦃n : Num F⦄ where
  -- On every route of the shipped world, with the sample roster, every search finds a wild: never
  -- nothing, whatever the buffs and the rolls. It is of a species of the route's pools, at a level of
  -- the route.
  pub shipped-IsWild :
      (route : Route F) (buffs : EncounterBuffs F) (rng : Rng)
      → Memᴰ route (routes F)
      → (wild : MonsterInstance F) × ((generate_wild_monster route sample buffs rng).0 ≡ some wild)
        × IsWild route sample wild
  shipped-IsWild route buffs rng m =
      let ok = all-Memᴰ stocked (routes F) (routes_stocked F) m in
      generate_wild_monster_found sample buffs route rng (ground arith)
        (all_known_sound route.wild_pool (ground arith))
        (all_known_sound route.rare_pool (ground arith))

-- The registry knows every leader's monster.
abbrev led : Town → Bool
led t = elim t.gym [ none ↦ true | some g ↦ all (λ e. known e.monster_id) g.team ]

towns_led : all led towns ≡ true
unfolding sample_registry
towns_led = refl

leaders_known :
    (es : List GymEntry)
    → all (λ e. known e.monster_id) es ≡ true
    → All (λ e. Known sample e.monster_id) es
leaders_known [] h = tt
leaders_known (e ∷ es) h =
    (known_sound e.monster_id (ground arith), leaders_known es (ground arith))

leaders_of :
    (town : Town) (gym : Gym)
    → Memᴰ town towns
    → town.gym ≡ some gym
    → All (λ e. Known sample e.monster_id) gym.team
leaders_of town gym m has = leaders_known gym.team (rw has at (all-Memᴰ led towns towns_led m))

-- A battle against a leader of the shipped world, with the sample roster, passes no entry of the
-- leader's team over: it returns for every party and every roll, and reports a win over each of the
-- first entries of the team, in order, with its species' name and its level, as many as the leader
-- has lost. It is won exactly when that is the whole team.
pub shipped_gym_wins :
    {F : Type 0} ⦃n : Num F⦄ (party : List (MonsterInstance F)) (rng : Rng) (town : Town)
    (gym : Gym)
    → Memᴰ town towns
    → town.gym ≡ some gym
    → (result : GymResult F) × (rng' : Rng) × (simulate_gym party gym.team sample rng
        ≡ some (result, rng'))
      × (map beaten_monster result.results
          ≡ map (sent_monster sample) (take result.gym_defeated gym.team))
      × (length result.results ≡ result.gym_defeated)
      × (result.won ≡ true ↔ length result.results ≡ length gym.team)
shipped_gym_wins {F} party rng town gym m has =
    let (result, rng', returns, won, beaten, _, _, _) =
      simulate_gym_total party gym.team sample rng in
    let logged =
      simulate_gym-Logged party gym.team sample (leaders_of town gym m has) rng rng' result
        returns in
    let counted : length result.results ≡ result.gym_defeated = omega (
      arith,
      ap length logged,
      length-map result.results beaten_monster,
      length-map (take result.gym_defeated gym.team) (sent_monster sample),
      length-take result.gym_defeated gym.team,
      beaten,
    ) in
    (
      result,
      rng',
      returns,
      logged,
      counted,
      subst (λ k. (result.won ≡ true) ↔ (k ≡ length gym.team)) (sym counted) won,
    )
