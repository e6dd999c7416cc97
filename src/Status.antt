-- ===== src/Status.antt =====
-- src/status.ts: one turn of a status.
pub mod Turn
use pokeage.Prelude.{ℕ, ◌-◌, max, Bool, true, false, Option, none, some, ◌==◌, if◌then◌else◌}
use pokeage.Num.{Num, ratio}
use pokeage.Types.{MonsterInstance}
use pokeage.Rng.{Rng, chance}

pub data StatusKind : Type 0 where
  burn poison paralyze freeze sleep : StatusKind

pub record StatusTick : Type 0 where
  pub damage : ℕ
  pub immobilized : Bool
  pub cleared : Bool

-- `stats.hp || currentHP || 1`
abbrev pub max_hp : {F : Type 0} → MonsterInstance F → ℕ
max_hp mon =
    if mon.stats.hp == 0 then (if mon.current_hp == 0 then 1 else mon.current_hp) else mon.stats.hp

module _ (F : Type 0) ⦃n : Num F⦄ where
  open n use {of_ℕ}

  abbrev pub status_dot : StatusKind → Option F
  status_dot burn = some (ratio 1 16)
  status_dot poison = some (ratio 1 8)
  status_dot _ = none

  abbrev pub status_skip_chance : StatusKind → Option F
  status_skip_chance paralyze = some (ratio 25 100)
  status_skip_chance freeze = some (of_ℕ 1)
  status_skip_chance sleep = some (of_ℕ 1)
  status_skip_chance _ = none

  abbrev pub status_clear_chance : StatusKind → Option F
  status_clear_chance freeze = some (ratio 2 10)
  status_clear_chance sleep = some (ratio 34 100)
  status_clear_chance _ = none

  abbrev pub is_damaging : StatusKind → Bool
  is_damaging status = elim (status_dot status) [ none ↦ false | some dot ↦ true ]

  abbrev pub is_disabling : StatusKind → Bool
  is_disabling status = elim (status_skip_chance status) [ none ↦ false | some p ↦ true ]

module _ {F : Type 0} ⦃n : Num F⦄ where
  open n use {of_ℕ, mul, floor}

  -- `p && rng.chance(p)`, which draws nothing without a chance.
  abbrev pub roll : Option F → Rng → Bool × Rng
  roll none rng = (false, rng)
  roll (some p) rng = chance p rng

  abbrev pub dot_damage : Option F → MonsterInstance F → ℕ
  dot_damage none mon = 0
  dot_damage (some dot) mon = max 1 (floor (mul (of_ℕ (max_hp mon)) dot))

  unfoldable pub apply_status_tick :
      MonsterInstance F → Option StatusKind → Rng → StatusTick × MonsterInstance F × Rng
  apply_status_tick mon none rng =
      (record { damage = 0; immobilized = false; cleared = false }, mon, rng)
  apply_status_tick mon (some status) rng =
      let (cleared, rng') = roll (status_clear_chance F status) rng in
      let (skipped, rng'') = roll (status_skip_chance F status) rng' in
      let dmg = dot_damage (status_dot F status) mon in
      if cleared then (record { damage = 0; immobilized = false; cleared = true }, mon, rng') else (
        record { damage = dmg; immobilized = skipped; cleared = false },
        record mon { current_hp = mon.current_hp - dmg },
        rng'',
      )
