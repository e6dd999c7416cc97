-- ===== src/Prelude/Decimal.antt =====
-- Whole numbers as JavaScript prints them.
use Prim.Native.Nat.{ℕ, zero, suc, ◌+◌, ◌/◌, ◌%◌}
use Prim.Native.String
use Prim.Native.String.{String, slice}
use pokeage.Prelude.Tests.{ltb, if◌then◌else◌}

abbrev digit : ℕ → String
digit d = slice "0123456789" d (d + 1)

decimal_loop : ℕ → ℕ → String → String
decimal_loop zero k rest = rest
decimal_loop (suc fuel) k rest =
    let shown = String.◌++◌ (digit (k % 10)) rest in
    let more = decimal_loop fuel (k / 10) shown in if ltb k 10 then shown else more

unfoldable pub decimal : ℕ → String
unfolding decimal_loop
decimal k = decimal_loop (suc k) k ""
