-- ===== src/Offline.antt =====
-- src/offline.ts: the ticks for the time that the player was away. `none` is a tick that did not
-- return.
pub mod Catchup
pub mod Report
use pokeage.Prelude.{
  ℕ, zero, suc, ◌+◌, ◌*◌, ◌/◌, min, Bool, true, false, Option, none, some, List, length, foldl, ltb,
  ℤ, pos, negsuc, diff,
}
use pokeage.Num.{Num}
use pokeage.Types.{MonsterTemplate, Trainer}
use pokeage.Constants.{max_offline_hours, tick_ms}
use pokeage.Engine.State.{World, Engine, EngineOptions}
use pokeage.Engine.Tick.{tick}

pub record OfflineSummary : Type 0 where
  pub ticks : ℕ
  pub duration_ms : ℕ
  pub capped : Bool
  pub battles : ℤ
  pub caught : ℤ
  pub levels : ℤ
  pub badges : ℤ

abbrev pub team_levels : {F : Type 0} → Trainer F → ℕ
team_levels t = foldl (λ s m. s + m.level) 0 t.team

abbrev pub max_ms : ℕ
max_ms = max_offline_hours * 3600 * 1000

-- `Math.min(Math.max(0, elapsedMs), maxMs)`, and `elapsedMs > maxMs`.
abbrev pub capped_ms : ℤ → ℕ
capped_ms (pos ms) = min ms max_ms
capped_ms (negsuc ms) = 0

abbrev pub is_capped : ℤ → Bool
is_capped (pos ms) = ltb max_ms ms
is_capped (negsuc ms) = false

module _ {F : Type 0} ⦃n : Num F⦄ (world : World F) (get_template : ℕ → Option MonsterTemplate)
    (opts : EngineOptions F) where
  unfoldable pub run_ticks : ℕ → Engine F → Option (Engine F)
  run_ticks zero e = some e
  run_ticks (suc k) e = elim (tick world get_template opts e) [
    | none ↦ none
    | some (result, e') ↦ run_ticks k e'
  ]

  unfoldable pub run_offline_catchup : Engine F → ℤ → Option (OfflineSummary × Engine F)
  run_offline_catchup e elapsed_ms =
      let ticks = capped_ms elapsed_ms / tick_ms in
      let t = e.trainer in
      elim (run_ticks ticks e) [
        | none ↦ none
        | some e' ↦
            let t' = e'.trainer in
            some (
              record {
                ticks = ticks;
                duration_ms = capped_ms elapsed_ms;
                capped = is_capped elapsed_ms;
                battles = diff t'.total_battles t.total_battles;
                caught = diff t'.total_caught t.total_caught;
                levels = diff (team_levels t') (team_levels t);
                badges = diff (length t'.badges) (length t.badges);
              },
              e',
            )
      ]
