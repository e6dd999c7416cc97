-- ===== src/Catch/Laws.antt =====
-- src/catch.ts: the catch rate by level, rarity and ball, and the throw.
use pokeage.Prelude.{ℕ, ◌≤◌, ◌≡◌, inl, inr, arith, true, Bool-cases}
use pokeage.Num.{Num, ◌≼◌, ratio, max_num, clamp}
use pokeage.Num.Laws.{IsNum}
use pokeage.Num.Order.{
  ratio-le-whole, zero-le-ratio, clamp_bounds, clamp_mono, max_num_mono, min_num_mono, le_of_not-le,
}
use pokeage.Types.{Rarity, MonsterInstance}
use pokeage.Power.{rarity_or_common}
use pokeage.Rng.{Rng, chance}
use pokeage.Constants.{masterball_mult}
use pokeage.Catch.{
  catch_rate, attempt_catch, base_catch_rate, catch_level_penalty, catch_rate_min, catch_rate_max,
}

module _ {F : Type 0} ⦃n : Num F⦄ (laws : IsNum F) where
  open n use {of_ℕ, add, sub, mul, div, le, lt}
  open laws use {
    le_refl, le_trans, le_total, lt-eq-not-le, of_ℕ_mono, of_ℕ_lt, sub_mono, mul_mono, mul-one,
    div_le,
  }

  -- The rate without a ball, in its two parts.
  abbrev plain_rate : Rarity → ℕ → F
  plain_rate rarity level =
      clamp catch_rate_min catch_rate_max
        (sub (base_catch_rate rarity) (max_num (of_ℕ 0) (mul (of_ℕ level) catch_level_penalty)))

  plain_rate_bounds :
      (r : Rarity) (level : ℕ)
      → (catch_rate_min ≼ plain_rate r level) × (plain_rate r level ≼ of_ℕ 1)
  plain_rate_bounds r level =
      let (lo, hi) =
        clamp_bounds laws catch_rate_min catch_rate_max
          (sub (base_catch_rate r) (max_num (of_ℕ 0) (mul (of_ℕ level) catch_level_penalty)))
          (div_le 5 1000 9 10 (omega arith) (omega arith) (omega arith)) in
      (lo, le_trans _ _ _ hi (ratio-le-whole laws 9 10 1 (omega arith) (omega arith)))

  plain_rate_mono :
      (r r' : Rarity) (level level' : ℕ)
      → base_catch_rate {F = F} r ≼ base_catch_rate r'
      → level' ≤ level
      → plain_rate r level ≼ plain_rate r' level'
  plain_rate_mono r r' level level' hr hl = clamp_mono laws catch_rate_min catch_rate_max _ _ (
      sub_mono _ _ _ _ hr (
        max_num_mono laws (of_ℕ 0) _ _ (
          mul_mono (of_ℕ level') (of_ℕ level) catch_level_penalty catch_level_penalty
            (of_ℕ_mono 0 level' (omega arith)) (zero-le-ratio laws 5 1000 (omega arith))
            (of_ℕ_mono level' level hl) (le_refl _))))

  -- A ball better than a plain one does not lower a rate that is not negative.
  rate-le-boosted : (rate ball : F) → of_ℕ 0 ≼ rate → of_ℕ 1 ≼ ball → rate ≼ mul rate ball
  rate-le-boosted rate ball h k =
      rw mul-one at
        (mul_mono rate rate (of_ℕ 1) ball h (of_ℕ_mono 0 1 (omega arith)) (le_refl rate) k)

  plain_rate-nonneg : (r : Rarity) (level : ℕ) → of_ℕ 0 ≼ plain_rate r level
  plain_rate-nonneg r level =
      le_trans _ _ _ (zero-le-ratio laws 5 1000 (omega arith)) (plain_rate_bounds r level).0

  -- With any ball the catch rate lies between 0.005 and 1.
  pub catch_rate_bounds :
      (wild : MonsterInstance F) (ball : F)
      → (ratio {F = F} 5 1000 ≼ catch_rate wild ball) × (catch_rate wild ball ≼ of_ℕ 1)
  unfolding catch_rate
  catch_rate_bounds wild ball =
      let r = rarity_or_common wild.rarity in
      let rate = plain_rate r wild.level in
      let (lo, hi) = plain_rate_bounds r wild.level in
      ground (
        arith,
        lo,
        hi,
        le_total (of_ℕ 1) (mul rate ball),
        le_refl (of_ℕ 1),
        lt-eq-not-le (of_ℕ 1) ball,
        le_of_not-le laws ball (of_ℕ 1),
        le_total ball (of_ℕ 1),
        rate-le-boosted rate ball (plain_rate-nonneg r wild.level),
        le_trans catch_rate_min rate (mul rate ball),
        le_trans catch_rate_min rate (of_ℕ 1),
      )

  abbrev pub rank : Rarity → ℕ
  rank Rarity.common = 0
  rank Rarity.rare = 1
  rank Rarity.legendary = 2

  base_le : (r r' : Rarity) → rank r' ≤ rank r → base_catch_rate {F = F} r ≼ base_catch_rate r'
  base_le Rarity.common Rarity.common h = le_refl _
  base_le Rarity.common Rarity.rare h = absurd (omega arith)
  base_le Rarity.common Rarity.legendary h = absurd (omega arith)
  base_le Rarity.rare Rarity.common h = div_le 8 100 4 10 (omega arith) (omega arith) (omega arith)
  base_le Rarity.rare Rarity.rare h = le_refl _
  base_le Rarity.rare Rarity.legendary h = absurd (omega arith)
  base_le Rarity.legendary Rarity.common h =
      div_le 15 1000 4 10 (omega arith) (omega arith) (omega arith)
  base_le Rarity.legendary Rarity.rare h =
      div_le 15 1000 8 100 (omega arith) (omega arith) (omega arith)
  base_le Rarity.legendary Rarity.legendary h = le_refl _

  -- With the same ball, a wild that is not rarer and not of a higher level is at least as easy to catch.
  pub catch_rate_mono :
      (wild wild' : MonsterInstance F) (ball : F)
      → rank (rarity_or_common wild'.rarity) ≤ rank (rarity_or_common wild.rarity)
      → wild'.level ≤ wild.level
      → catch_rate wild ball ≼ catch_rate wild' ball
  unfolding catch_rate
  catch_rate_mono wild wild' ball hr hl =
      let r = rarity_or_common wild.rarity in
      let r' = rarity_or_common wild'.rarity in
      let mono = plain_rate_mono r r' wild.level wild'.level (base_le r r' hr) hl in
      elim (Bool-cases (le (of_ℕ masterball_mult) ball)) [
        | inl master ↦ rw master (le_refl (of_ℕ 1))
        | inr ordinary ↦ rw ordinary (elim (Bool-cases (lt (of_ℕ 1) ball)) [
          | inl boosted ↦ rw boosted (
              min_num_mono laws (of_ℕ 1) _ _ (
                mul_mono _ _ ball ball (plain_rate-nonneg r wild.level)
                  (nonneg ball
                    (ground (arith, boosted, lt-eq-not-le (of_ℕ 1) ball, le_total (of_ℕ 1) ball)))
                  mono (le_refl ball)))
          | inr plain ↦ rw plain mono
        ])
      ]
    where
      nonneg : (x : F) → of_ℕ 1 ≼ x → of_ℕ 0 ≼ x
      nonneg x h = le_trans _ _ _ (of_ℕ_mono 0 1 (omega arith)) h

  -- A throw of a master ball catches whatever the roll.
  pub attempt_catch_master :
      (wild : MonsterInstance F) (ball : F) (rng : Rng)
      → of_ℕ masterball_mult ≼ ball
      → (attempt_catch wild ball rng).0.caught ≡ true
  unfolding attempt_catch catch_rate chance
  attempt_catch_master wild ball rng h = ground (arith, of_ℕ_lt 0 1, le_refl (of_ℕ 1))
