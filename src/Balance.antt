-- ===== src/Balance.antt =====
-- src/balance.ts: many seeded runs and their averages.
pub mod Tally
use pokeage.Prelude.{
  ℕ, zero, suc, ◌+◌, ◌*◌, max, Option, none, some, List, [], ◌∷◌, length, leb, if◌then◌else◌,
}
use pokeage.Num.{Num}
use pokeage.Types.{MonsterTemplate, Trainer}
use pokeage.Engine.State.{World, Engine, EngineOptions}
use pokeage.Offline.{team_levels, run_ticks}

pub record BatchReport (F : Type 0) : Type 0 where
  pub runs : ℕ
  pub ticks : ℕ
  pub avg_badges : F
  pub avg_caught : F
  pub avg_battles : F
  pub avg_team_level : F
  pub full_clear_rate : F

-- An engine object: its state, and what its constructor was given.
pub record Run (F : Type 0) : Type 0 where
  pub world : World F
  pub get_template : ℕ → Option MonsterTemplate
  pub opts : EngineOptions F
  pub engine : Engine F

-- The variables of the loop over the seeds.
pub record Totals : Type 0 where
  pub badges : ℕ
  pub caught : ℕ
  pub battles : ℕ
  pub team_level : ℕ
  pub full_clears : ℕ

abbrev pub no_totals : Totals
no_totals = record { badges = 0; caught = 0; battles = 0; team_level = 0; full_clears = 0 }

abbrev pub count_in : {F : Type 0} → Totals → Trainer F → Totals
count_in s t = record {
  badges = s.badges + length t.badges;
  caught = s.caught + t.total_caught;
  battles = s.battles + t.total_battles;
  team_level = s.team_level + team_levels t;
  full_clears = if leb 12 (length t.badges) then s.full_clears + 1 else s.full_clears;
}

module _ {F : Type 0} ⦃n : Num F⦄ where
  abbrev pub round2 : F → F
  round2 v = n.div (n.of_ℕ (n.round (n.mul v (n.of_ℕ 100)))) (n.of_ℕ 100)

  -- `none` is a tick that did not return.
  unfoldable pub batch_loop : (ℕ → Run F) → List ℕ → ℕ → Totals → Option Totals
  batch_loop make_engine [] ticks s = some s
  batch_loop make_engine (seed ∷ seeds) ticks s =
      let run = make_engine seed in
      elim (run_ticks run.world run.get_template run.opts ticks run.engine) [
        | none ↦ none
        | some e ↦ batch_loop make_engine seeds ticks (count_in s e.trainer)
      ]

  abbrev pub report : List ℕ → ℕ → Totals → BatchReport F
  report seeds ticks s =
      let runs = max 1 (length seeds) in
      let mean : ℕ → F = λ total. round2 (n.div (n.of_ℕ total) (n.of_ℕ runs)) in
      record {
        runs = length seeds;
        ticks = ticks;
        avg_badges = mean s.badges;
        avg_caught = mean s.caught;
        avg_battles = mean s.battles;
        avg_team_level = mean s.team_level;
        full_clear_rate = mean s.full_clears;
      }

  unfoldable pub run_batch : (ℕ → Run F) → List ℕ → ℕ → Option (BatchReport F)
  unfolding batch_loop
  run_batch make_engine seeds ticks = elim (batch_loop make_engine seeds ticks no_totals) [
    | none ↦ none
    | some s ↦ some (report seeds ticks s)
  ]
