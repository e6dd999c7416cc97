-- ===== src/Moves.antt =====
-- src/moves.ts: move sets and the choice of a move.
pub mod Table
use text.Mathlib.Text
use pokeage.Prelude.{
  ℕ, zero, suc, ◌-◌, ◌/◌, min, max, Bool, true, false, ◌&&◌, Option, none, some, List, [], ◌∷◌,
  ◌++◌, length, get_elem?, take, keep_if, any, leb, ltb, ◌==◌, if◌then◌else◌,
}
use pokeage.Types.{MonsterType, normal, Move, MonsterInstance}
use pokeage.Typechart.{type_eq}
use pokeage.Moves.Table.{moves, fallback_move}

-- The stable sorts by power, up and down.
abbrev pub insert_by : (Move → Move → Bool) → Move → List Move → List Move
insert_by before mv [] = mv ∷ []
insert_by before mv (x ∷ xs) =
    let rest = insert_by before mv xs in if before mv x then mv ∷ x ∷ xs else x ∷ rest

abbrev pub sort_by : (Move → Move → Bool) → List Move → List Move
sort_by before [] = []
sort_by before (mv ∷ mvs) = insert_by before mv (sort_by before mvs)

unfoldable pub moves_by_type : MonsterType → List Move
unfolding moves
moves_by_type type =
    sort_by (λ a b. leb a.power b.power)
      (keep_if (λ mv. ltb 0 mv.power && type_eq mv.type type) moves)

-- At most `n` moves from index `i` downward in steps.
abbrev pub take_down : ℕ → ℕ → ℕ → List Move → List Move
take_down zero i step src = []
take_down (suc n) i step src =
    let rest = take_down n (i - step) step src in
    elim (get_elem? src i) [ none ↦ [] | some mv ↦ mv ∷ (if ltb i step then [] else rest) ]

abbrev pub power_cap : ℕ → ℕ
power_cap level =
    if leb 40 level then 999 else if leb 28 level then 95 else if leb 16 level then 75 else 55

abbrev pub or_first_two : List Move → List Move → List Move
or_first_two [] arr = take 2 arr
or_first_two (mv ∷ mvs) arr = mv ∷ mvs

unfoldable pub pick_tier : List Move → ℕ → ℕ → List Move
pick_tier arr n level =
    let src = or_first_two (keep_if (λ mv. leb mv.power (power_cap level)) arr) arr in
    take_down n (length src - 1) (max 1 (length src / n)) src

-- The moves whose name has not come before.
abbrev pub distinct : List Move → List Move → List Move
distinct seen [] = []
distinct seen (mv ∷ mvs) =
    if any (λ x. Text.◌==◌ x.name mv.name) seen
    then distinct seen mvs
    else mv ∷ distinct (mv ∷ seen) mvs

abbrev pub or_fallback : List Move → List Move
or_fallback [] = fallback_move ∷ []
or_fallback (mv ∷ mvs) = take 4 (mv ∷ mvs)

unfoldable pub get_mon_moves : MonsterType → ℕ → List Move
get_mon_moves type level =
    let lv = if level == 0 then 5 else level in
    or_fallback
      (distinct [] (pick_tier (moves_by_type type) 3 lv ++ pick_tier (moves_by_type normal) 1 lv))

abbrev pub known_moves : {F : Type 0} → MonsterInstance F → List Move
known_moves attacker = elim attacker.moves [
  | none ↦ get_mon_moves attacker.type attacker.level
  | some mvs ↦ mvs
]

abbrev pub or_else : {A : Type 0} → Option A → A → A
or_else none d = d
or_else (some x) d = x

-- The move, and the attacker, whose moves are stored. The multiplier is in halves.
unfoldable pub pick_move : {F : Type 0} → MonsterInstance F → ℕ → Move × MonsterInstance F
pick_move attacker type_mod =
    let pool = sort_by (λ a b. leb b.power a.power) (known_moves attacker) in
    let idx = if leb 4 type_mod then 0 else min 1 (length pool - 1) in
    (
      or_else (get_elem? pool idx) (or_else (get_elem? pool 0) fallback_move),
      record attacker { moves = some (known_moves attacker) },
    )
