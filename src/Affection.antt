-- ===== src/Affection.antt =====
-- src/affection.ts: bond. A missing counter reads as 0; in the model it is always there.
pub mod Laws
use pokeage.Prelude.{ℕ, ◌+◌, max, Bool, false, true, ◌&&◌}
use pokeage.Num.{Num, max_num, min_num, ratio}
use pokeage.Types.{MonsterInstance}
use pokeage.Constants.{affection_max}

module _ {F : Type 0} ⦃n : Num F⦄ where
  open n use {of_ℕ, add, mul, div, lt, le}

  abbrev pub affection_base : F
  affection_base = ratio 1 2

  abbrev pub affection_min_gain : F
  affection_min_gain = ratio 1 10

  abbrev pub affection_max_gain : F
  affection_max_gain = of_ℕ 2

  unfoldable pub affection_gain_for : MonsterInstance F → ℕ → F
  affection_gain_for mon foe_level =
      let my_lv = max 1 mon.level in
      let raw = mul affection_base (div (of_ℕ foe_level) (of_ℕ my_lv)) in
      min_num affection_max_gain (max_num affection_min_gain raw)

  -- The updated monster, and whether the counter just reached its maximum.
  unfoldable pub add_affection : MonsterInstance F → F → MonsterInstance F × Bool
  add_affection mon gain =
      let before = mon.affection in
      let after = min_num (of_ℕ affection_max) (add before gain) in
      (
        record mon { affection = after },
        lt before (of_ℕ affection_max) && le (of_ℕ affection_max) after,
      )

  unfoldable pub can_claim_card : MonsterInstance F → Bool
  can_claim_card mon = le (of_ℕ affection_max) mon.affection
