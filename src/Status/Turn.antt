-- ===== src/Status/Turn.antt =====
-- src/status.ts: what a turn of a status does.
use pokeage.Prelude.{◌-◌, ◌≤◌, ◌≡◌, ◌⊎◌, ◌↔◌, arith, true, false, some}
use pokeage.Num.{Num}
use pokeage.Types.{MonsterInstance}
use pokeage.Rng.{Rng}
use pokeage.Status.{
  StatusKind, burn, poison, paralyze, freeze, sleep, apply_status_tick, is_damaging, is_disabling,
}

module _ {F : Type 0} ⦃n : Num F⦄ where
  -- A turn takes the reported damage from the hit points, down to 0, and changes nothing else of the
  -- monster. It does damage exactly if the status is a damaging one, and costs the action only if it is
  -- a disabling one. A status that clears does neither, and only disabling ones clear.
  pub apply_status_tick_lem :
      (mon : MonsterInstance F) (status : StatusKind) (rng : Rng)
      → let (turn, mon', rng') = apply_status_tick mon (some status) rng in
        (mon' ≡ record mon { current_hp = mon.current_hp - turn.damage })
        × ((1 ≤ turn.damage) ↔ (is_damaging F status ≡ true))
        × ((turn.immobilized ≡ false) ⊎ (is_disabling F status ≡ true))
        × ((turn.cleared ≡ false) ⊎ ((turn.immobilized ≡ false) × (turn.damage ≡ 0)))
        × ((turn.cleared ≡ false) ⊎ (is_disabling F status ≡ true))
  unfolding apply_status_tick
  apply_status_tick_lem mon burn rng = ground arith
  apply_status_tick_lem mon poison rng = ground arith
  apply_status_tick_lem mon paralyze rng = ground arith
  apply_status_tick_lem mon freeze rng = ground arith
  apply_status_tick_lem mon sleep rng = ground arith
