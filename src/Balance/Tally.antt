-- ===== src/Balance/Tally.antt =====
-- src/balance.ts: the totals of a batch.
use pokeage.Prelude.{
  ℕ, ◌+◌, ◌≡◌, ◌∙◌, refl, ap, max, foldl, ltb, arith, Bool, some, List, [], ◌∷◌, length, leb,
  if◌then◌else◌,
}
use pokeage.Num.{Num}
use pokeage.Types.{MonsterInstance, Trainer}
use pokeage.Engine.State.{Engine}
use pokeage.Offline.{team_levels, run_ticks}
use pokeage.Offline.Catchup.{run_ticks_lem}
use pokeage.Balance.{
  BatchReport, round2, Run, Totals, no_totals, count_in, batch_loop, report, run_batch,
}

-- The sum over the seeds.
abbrev pub sum_of : (ℕ → ℕ) → List ℕ → ℕ
sum_of f [] = 0
sum_of f (seed ∷ seeds) = f seed + sum_of f seeds

-- The seeds with the property.
abbrev pub count_of : (ℕ → Bool) → List ℕ → ℕ
count_of p [] = 0
count_of p (seed ∷ seeds) = (if p seed then 1 else 0) + count_of p seeds

-- The sum of the levels of a party.
abbrev pub levels : {F : Type 0} → List (MonsterInstance F) → ℕ
levels [] = 0
levels (m ∷ ms) = m.level + levels ms

-- The quotient of a total and the number of seeds, or 1 if there is none, rounded to hundredths.
abbrev pub hundredths : {F : Type 0} ⦃n : Num F⦄ → ℕ → List ℕ → F
hundredths ⦃n⦄ total [] =
    n.div (n.of_ℕ (n.round (n.mul (n.div (n.of_ℕ total) (n.of_ℕ 1)) (n.of_ℕ 100)))) (n.of_ℕ 100)
hundredths ⦃n⦄ total (k ∷ ks) =
    n.div (n.of_ℕ (n.round (n.mul (n.div (n.of_ℕ total) (n.of_ℕ (length (k ∷ ks)))) (n.of_ℕ 100))))
      (n.of_ℕ 100)

levels-foldl :
    {F : Type 0} (ms : List (MonsterInstance F)) (k : ℕ)
    → foldl (λ s m. s + m.level) k ms ≡ k + levels ms
levels-foldl [] k = omega arith
levels-foldl (m ∷ ms) k = omega (arith, levels-foldl ms (k + m.level))

team_levels-levels : {F : Type 0} (t : Trainer F) → team_levels t ≡ levels t.team
team_levels-levels t = omega (arith, levels-foldl t.team 0)

sum_of_cong :
    (f g : ℕ → ℕ) (seeds : List ℕ) → ((k : ℕ) → f k ≡ g k) → sum_of f seeds ≡ sum_of g seeds
sum_of_cong f g [] h = refl
sum_of_cong f g (k ∷ ks) h = omega (arith, h k, sum_of_cong f g ks h)

count_of_cong :
    (p q : ℕ → Bool) (seeds : List ℕ) → ((k : ℕ) → p k ≡ q k) → count_of p seeds ≡ count_of q seeds
count_of_cong p q [] h = refl
count_of_cong p q (k ∷ ks) h = ground (arith, h k, count_of_cong p q ks h)

twelve : (k : ℕ) → leb 12 k ≡ ltb 11 k
twelve k = ground arith

mean_lem :
    {F : Type 0} ⦃n : Num F⦄ (seeds : List ℕ) (total sum : ℕ)
    → total ≡ sum
    → round2 (n.div (n.of_ℕ total) (n.of_ℕ (max 1 (length seeds)))) ≡ hundredths sum seeds
mean_lem ⦃n⦄ [] total sum e = ap (λ x. round2 (n.div (n.of_ℕ x) (n.of_ℕ 1))) e
mean_lem ⦃n⦄ (k ∷ ks) total sum e =
    let runs : max 1 (length (k ∷ ks)) ≡ length (k ∷ ks) = omega arith in
    ap (λ x. round2 (n.div (n.of_ℕ x) (n.of_ℕ (max 1 (length (k ∷ ks)))))) e
    ∙ ap (λ x. round2 (n.div (n.of_ℕ sum) (n.of_ℕ x))) runs

module _ {F : Type 0} where
  -- The totals over the trainers that the runs end with, on top of `s`.
  abbrev pub totals_over : (ℕ → Trainer F) → List ℕ → Totals → Totals
  totals_over final seeds s = record {
    badges = s.badges + sum_of (λ k. length (final k).badges) seeds;
    caught = s.caught + sum_of (λ k. (final k).total_caught) seeds;
    battles = s.battles + sum_of (λ k. (final k).total_battles) seeds;
    team_level = s.team_level + sum_of (λ k. team_levels (final k)) seeds;
    full_clears = s.full_clears + count_of (λ k. leb 12 (length (final k).badges)) seeds;
  }

module _ {F : Type 0} ⦃n : Num F⦄ (make_engine : ℕ → Run F) (ticks : ℕ) where
  -- Each seed's run ends with this trainer.
  abbrev pub Ends : (ℕ → Engine F) → Type 0
  Ends final =
      (seed : ℕ)
      → let run = make_engine seed in
        run_ticks run.world run.get_template run.opts ticks run.engine ≡ some (final seed)

  batch_loop_lem :
      (final : ℕ → Engine F) (ends : Ends final) (seeds : List ℕ) (s : Totals)
      → batch_loop make_engine seeds ticks s ≡ some (totals_over (λ k. (final k).trainer) seeds s)
  unfolding batch_loop
  batch_loop_lem final ends [] s = ground arith
  batch_loop_lem final ends (seed ∷ seeds) s =
      rw (ends seed, batch_loop)
        (batch_loop_lem final ends seeds (count_in s (final seed).trainer) ∙ ground arith)

  -- A batch always returns. Each seed's run ends with a trainer, and over those trainers the report
  -- gives, rounded to hundredths, the means of the badges, the catches, the battles and the party's
  -- levels, and the share of the runs with at least 12 badges. A mean is over the number of seeds, or
  -- over 1 if there is none.
  pub run_batch_total :
      (seeds : List ℕ)
      → (final : ℕ → Engine F) × Ends final
        × (r : BatchReport F) × (run_batch make_engine seeds ticks ≡ some r)
        × (r.runs ≡ length seeds)
        × (r.ticks ≡ ticks)
        × (r.avg_badges ≡ hundredths (sum_of (λ k. length (final k).trainer.badges) seeds) seeds)
        × (r.avg_caught ≡ hundredths (sum_of (λ k. (final k).trainer.total_caught) seeds) seeds)
        × (r.avg_battles ≡ hundredths (sum_of (λ k. (final k).trainer.total_battles) seeds) seeds)
        × (r.avg_team_level ≡ hundredths (sum_of (λ k. levels (final k).trainer.team) seeds) seeds)
        × (r.full_clear_rate
            ≡ hundredths (count_of (λ k. ltb 11 (length (final k).trainer.badges)) seeds) seeds)
  unfolding run_batch
  run_batch_total seeds =
      let run_of : (seed : ℕ) → _ = λ seed.
        let run = make_engine seed in
        run_ticks_lem run.world run.get_template run.opts ticks run.engine in
      let final : ℕ → Engine F = λ seed. (run_of seed).0 in
      let ends : Ends final = λ seed. (run_of seed).1 in
      (
        final,
        ends,
        report seeds ticks (totals_over (λ k. (final k).trainer) seeds no_totals),
        rw (batch_loop_lem final ends seeds no_totals, run_batch) refl,
        refl,
        refl,
        mean_lem seeds _ _ (omega arith),
        mean_lem seeds _ _ (omega arith),
        mean_lem seeds _ _ (omega arith),
        mean_lem seeds _ _
            (omega (arith, sum_of_cong _ _ seeds (λ k. team_levels-levels (final k).trainer))),
        mean_lem seeds _ _ (
            omega (arith, count_of_cong _ _ seeds (λ k. twelve (length (final k).trainer.badges)))),
      )
