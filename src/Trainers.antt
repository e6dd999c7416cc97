-- ===== src/Trainers.antt =====
-- src/trainers.ts: AI trainers with level-scaled teams.
pub mod Teams
pub mod Field
use Prim.Native.String
use pokeage.Prelude.Decimal.{decimal}
use pokeage.Prelude.{
  ℕ, zero, suc, ◌+◌, ◌-◌, ◌*◌, ◌/◌, ◌%◌, max, Bool, true, false, not, Option, none, some, List, [],
  ◌∷◌, ◌++◌, String, length, get_elem?, keep_if, any, ltb, leb, ◌==◌, if◌then◌else◌,
}
use pokeage.Num.{Num}
use pokeage.Types.{MonsterTemplate, MonsterInstance, Rarity, Trainer}
use pokeage.Rng.{Rng, pick, int}
use pokeage.Stats.{create_monster_instance}
use pokeage.Power.{get_trainer_power}
use pokeage.Encounter.{is_legendary}
use pokeage.Data.Monsters.{Registry}
use pokeage.Save.{or_else, no_strategy}

pub record OpponentOptions : Type 0 where
  pub team_size : Option ℕ
  pub level_spread : Option ℕ
  pub exclude_legendary : Option Bool

abbrev pub name_prefix : List String
name_prefix = "RIVAL" ∷ "ACE" ∷ "ROOKIE" ∷ "VETERAN" ∷ "RANGER" ∷ "NOMAD" ∷ "WARDEN" ∷ "SCOUT" ∷ []

abbrev pub has_id : List ℕ → ℕ → Bool
has_id used id = any (λ k. k == id) used

-- The species that a team is drawn from.
abbrev pub pool_of : Registry → Bool → List MonsterTemplate
pool_of registry exclude =
    keep_if (λ m. if exclude then not (is_legendary (some m)) else true) registry.all

module _ (F : Type 0) ⦃n : Num F⦄ where
  -- `rng.int(-spread, spread)` is `int 0 (2 * spread)` less `spread`, and a level below 0 is raised to
  -- 2 as well as one that is cut off at 0.
  abbrev pub level_near : ℕ → ℕ → ℕ → ℕ
  level_near level spread roll = max 2 (level + roll - spread)

  -- The `while`, with `left` of the `size * 8` attempts to go.
  unfoldable pub build_loop :
      ℕ
      → ℕ
      → ℕ
      → ℕ
      → List MonsterTemplate
      → List (MonsterInstance F)
      → List ℕ
      → Rng
      → List (MonsterInstance F) × Rng
  build_loop zero size level spread pool team used rng = (team, rng)
  build_loop (suc left) size level spread pool team used rng =
      let (picked, rng') = pick pool rng in
      let (roll, rng'') = int 0 (2 * spread) rng' in
      let again = build_loop left size level spread pool team used rng' in
      let joined : MonsterTemplate → List (MonsterInstance F) × Rng = λ tpl.
        build_loop left size level spread pool
          (team ++ (create_monster_instance F tpl (level_near level spread roll) ∷ []))
          (used ++ (tpl.id ∷ [])) rng'' in
      if ltb (length team) size
      then elim picked [
        | none ↦ (team, rng)
        | some tpl ↦ if has_id used tpl.id then again else joined tpl
      ]
      else (team, rng)

  unfoldable pub build_team : Registry → ℕ → OpponentOptions → Rng → List (MonsterInstance F) × Rng
  unfolding build_loop
  build_team registry level opts rng =
      let size = or_else 3 opts.team_size in
      let spread = or_else 2 opts.level_spread in
      let pool = pool_of registry (or_else true opts.exclude_legendary) in
      if length pool == 0 then ([], rng) else build_loop (size * 8) size level spread pool [] [] rng

  unfoldable pub generate_opponent : ℕ → ℕ → Registry → Rng → OpponentOptions → Trainer F × Rng
  unfolding build_team decimal
  generate_opponent index level registry rng opts =
      let prefix = or_else "undefined" (get_elem? name_prefix (index % length name_prefix)) in
      let (team, rng') = build_team registry level opts rng in
      (
        record {
          id = String.◌++◌ "ai-" (decimal index);
          name = String.◌++◌ prefix (String.◌++◌ " " (decimal (index + 1)));
          team = team;
          box = [];
          badges = [];
          location = "seedling";
          ball = 0;
          total_battles = 0;
          total_caught = 0;
          strategy = no_strategy;
        },
        rng',
      )

  -- The `for`, with `left` opponents to go.
  unfoldable pub opponents_from :
      ℕ → ℕ → ℕ → Registry → Rng → OpponentOptions → List (Trainer F) × Rng
  unfolding generate_opponent
  opponents_from i zero level registry rng opts = ([], rng)
  opponents_from i (suc left) level registry rng opts =
      let (t, rng') = generate_opponent i level registry rng opts in
      let (ts, rng'') = opponents_from (i + 1) left level registry rng' opts in (t ∷ ts, rng'')

  -- The stable sort by falling power.
  unfoldable pub insert_by_power : Trainer F → List (Trainer F) → List (Trainer F)
  insert_by_power t [] = t ∷ []
  insert_by_power t (u ∷ us) =
      let rest = insert_by_power t us in
      if leb (get_trainer_power u) (get_trainer_power t) then t ∷ u ∷ us else u ∷ rest

  unfoldable pub sort_by_power : List (Trainer F) → List (Trainer F)
  unfolding insert_by_power
  sort_by_power [] = []
  sort_by_power (t ∷ ts) = insert_by_power t (sort_by_power ts)

  unfoldable pub generate_opponents :
      ℕ → ℕ → Registry → Rng → OpponentOptions → List (Trainer F) × Rng
  unfolding opponents_from sort_by_power
  generate_opponents count level registry rng opts =
      let (out, rng') = opponents_from 0 count level registry rng opts in (sort_by_power out, rng')
