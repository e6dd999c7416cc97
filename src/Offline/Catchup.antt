-- ===== src/Offline/Catchup.antt =====
-- src/offline.ts: the catch-up and its summary.
use pokeage.Prelude.{
  ℕ, zero, suc, ◌+◌, ◌-◌, ◌*◌, ◌∷◌, [], String, ◌/◌, ◌≤◌, ◌≡◌, inl, inr, refl, arith, Option, some,
  List, length, length-append, ℤ, pos, negsuc, diff, diff_pos,
}
use pokeage.Num.{Num}
use pokeage.Types.{MonsterTemplate, Trainer}
use pokeage.Engine.State.{World, Engine, EngineOptions}
use pokeage.Engine.Step.{Badges}
use pokeage.Engine.Total.{tick_total}
use pokeage.Offline.{
  OfflineSummary, capped_ms, is_capped, team_levels, run_ticks, run_offline_catchup,
}

-- What `k` ticks may do to the trainer's counters.
pub record Runs {F : Type 0} (k : ℕ) (t t' : Trainer F) : Type 0 where
  caught_le : t.total_caught ≤ t'.total_caught
  caught_in_battle : t'.total_caught + t.total_battles ≤ t.total_caught + t'.total_battles
  battles : t'.total_battles ≤ t.total_battles + k
  badges_le : length t.badges ≤ length t'.badges
  badges : length t'.badges ≤ length t.badges + k

capped_ms-le : (elapsed_ms : ℤ) → capped_ms elapsed_ms ≤ 86_400_000
capped_ms-le (pos ms) = ground arith
capped_ms-le (negsuc ms) = ground arith

Badges-length :
    (before after : List String)
    → Badges before after
    → (length before ≤ length after) × (length after ≤ length before + 1)
Badges-length before after (inl same) = rw same (omega arith, omega arith)
Badges-length before after (inr (badge, e, new)) = rw e (
  omega (arith, length-append before (badge ∷ [])),
  omega (arith, length-append before (badge ∷ [])),
)

module _ {F : Type 0} ⦃n : Num F⦄ (world : World F) (get_template : ℕ → Option MonsterTemplate)
    (opts : EngineOptions F) where
  pub run_ticks_lem :
      (k : ℕ) (e : Engine F)
      → (e' : Engine F) × (run_ticks world get_template opts k e ≡ some e')
        × Runs k e.trainer e'.trainer
  unfolding run_ticks
  run_ticks_lem zero e = (
    e,
    refl,
    record {
      caught_le = omega arith;
      caught_in_battle = omega arith;
      battles = omega arith;
      badges_le = omega arith;
      badges = omega arith;
    },
  )
  run_ticks_lem (suc k) e =
      let (result, next, returns, p) = tick_total world get_template opts e in
      let (e', rest, r) = run_ticks_lem k next in
      let (less, more) = Badges-length e.trainer.badges next.trainer.badges p.badges in
      (
        e',
        rw (returns, run_ticks) rest,
        record {
          caught_le = omega (arith, r.caught_le, p.caught);
          caught_in_battle = omega (arith, r.caught_in_battle, p.caught, p.caught_in_battle);
          battles = omega (arith, r.battles, p.one_battle);
          badges_le = omega (arith, r.badges_le, less);
          badges = omega (arith, r.badges, more);
        },
      )

  -- The catch-up always returns, after at most 5760 ticks, a day's worth, and one tick for every 15
  -- seconds that count. Its summary never loses battles, catches or badges; it reports at most one
  -- battle and one badge for each tick, and no more catches than battles.
  pub run_offline_catchup_total :
      (e : Engine F) (elapsed_ms : ℤ)
      → (summary : OfflineSummary) × (e' : Engine F) × (run_offline_catchup world get_template opts
            e elapsed_ms
          ≡ some (summary, e'))
        × (summary.ticks ≤ 5760)
        × (summary.ticks * 15_000 ≤ summary.duration_ms)
        × (battles : ℕ) × (caught : ℕ) × (badges : ℕ) × (summary.battles ≡ pos battles)
        × (summary.caught ≡ pos caught)
        × (summary.badges ≡ pos badges)
        × (caught ≤ battles)
        × (battles ≤ summary.ticks)
        × (badges ≤ summary.ticks)
  unfolding run_offline_catchup
  run_offline_catchup_total e elapsed_ms =
      let ticks = capped_ms elapsed_ms / 15_000 in
      let (e', returns, r) = run_ticks_lem ticks e in
      let t = e.trainer in
      let t' = e'.trainer in
      (
        record {
          ticks = ticks;
          duration_ms = capped_ms elapsed_ms;
          capped = is_capped elapsed_ms;
          battles = diff t'.total_battles t.total_battles;
          caught = diff t'.total_caught t.total_caught;
          levels = diff (team_levels t') (team_levels t);
          badges = diff (length t'.badges) (length t.badges);
        },
        e',
        rw (returns, run_offline_catchup) refl,
        omega (arith, capped_ms-le elapsed_ms),
        omega arith,
        t'.total_battles - t.total_battles,
        t'.total_caught - t.total_caught,
        length t'.badges - length t.badges,
        diff_pos _ _ (omega (arith, r.caught_le, r.caught_in_battle)),
        diff_pos _ _ r.caught_le,
        diff_pos _ _ r.badges_le,
        omega (arith, r.caught_le, r.caught_in_battle),
        omega (arith, r.battles),
        omega (arith, r.badges),
      )
