-- ===== src/Typechart.antt =====
-- src/typechart.ts: type effectiveness. A multiplier is counted in halves, so that 0, 0.5, 1 and 2
-- are 0, 1, 2 and 4: all four are exact.
pub mod Laws
use pokeage.Prelude.{
  ℕ, Bool, true, false, Option, none, some, List, [], ◌∷◌, String, ◌==◌, leb, if◌then◌else◌,
}
use pokeage.Types.{
  MonsterType, normal, fire, water, grass, electric, ice, fighting, poison, ground_type, flying,
  psychic, bug, rock, ghost, dragon, dark, steel,
}

-- The strings of the source are told apart by a number of their own.
abbrev pub type_code : MonsterType → ℕ
type_code normal = 0
type_code fire = 1
type_code water = 2
type_code grass = 3
type_code electric = 4
type_code ice = 5
type_code fighting = 6
type_code poison = 7
type_code ground_type = 8
type_code flying = 9
type_code psychic = 10
type_code bug = 11
type_code rock = 12
type_code ghost = 13
type_code dragon = 14
type_code dark = 15
type_code steel = 16

abbrev pub type_eq : MonsterType → MonsterType → Bool
type_eq a b = type_code a == type_code b

abbrev pub includes : List MonsterType → MonsterType → Bool
includes [] t = false
includes (x ∷ xs) t = let rest = includes xs t in if type_eq x t then true else rest

unfoldable pub strong : MonsterType → List MonsterType
strong fire = grass ∷ bug ∷ ice ∷ steel ∷ []
strong water = fire ∷ rock ∷ ground_type ∷ []
strong grass = water ∷ rock ∷ ground_type ∷ []
strong electric = water ∷ flying ∷ []
strong ice = grass ∷ ground_type ∷ flying ∷ dragon ∷ []
strong dragon = dragon ∷ []
strong fighting = normal ∷ rock ∷ steel ∷ ice ∷ dark ∷ []
strong poison = grass ∷ []
strong ground_type = fire ∷ electric ∷ poison ∷ rock ∷ steel ∷ []
strong flying = grass ∷ fighting ∷ bug ∷ []
strong psychic = fighting ∷ poison ∷ []
strong bug = grass ∷ psychic ∷ dark ∷ []
strong rock = fire ∷ ice ∷ flying ∷ bug ∷ []
strong ghost = psychic ∷ ghost ∷ []
strong dark = psychic ∷ ghost ∷ []
strong steel = ice ∷ rock ∷ []
strong normal = []

unfoldable pub weak : MonsterType → List MonsterType
weak fire = water ∷ rock ∷ ground_type ∷ fire ∷ dragon ∷ []
weak water = water ∷ grass ∷ electric ∷ dragon ∷ []
weak grass = fire ∷ grass ∷ flying ∷ bug ∷ poison ∷ dragon ∷ steel ∷ []
weak electric = electric ∷ grass ∷ ground_type ∷ dragon ∷ []
weak ice = fire ∷ water ∷ ice ∷ steel ∷ []
weak dragon = steel ∷ []
weak fighting = flying ∷ psychic ∷ bug ∷ ghost ∷ poison ∷ []
weak poison = poison ∷ ground_type ∷ rock ∷ ghost ∷ steel ∷ []
weak ground_type = grass ∷ flying ∷ bug ∷ []
weak flying = electric ∷ rock ∷ steel ∷ []
weak psychic = psychic ∷ steel ∷ dark ∷ []
weak bug = fire ∷ fighting ∷ flying ∷ ghost ∷ poison ∷ steel ∷ []
weak rock = fighting ∷ ground_type ∷ steel ∷ water ∷ grass ∷ []
weak ghost = dark ∷ normal ∷ []
weak dark = fighting ∷ dark ∷ bug ∷ []
weak steel = fire ∷ water ∷ electric ∷ steel ∷ []
weak normal = rock ∷ steel ∷ ghost ∷ []

unfoldable pub type_immune : MonsterType → Option (List MonsterType)
type_immune normal = some (ghost ∷ [])
type_immune fighting = some (ghost ∷ [])
type_immune poison = some (steel ∷ [])
type_immune ground_type = some (flying ∷ [])
type_immune electric = some (ground_type ∷ [])
type_immune psychic = some (dark ∷ [])
type_immune ghost = some (normal ∷ [])
type_immune _ = none

unfoldable pub is_immune : MonsterType → MonsterType → Bool
unfolding type_immune
is_immune atk_type def_type = elim (type_immune atk_type) [
  | none ↦ false
  | some imm ↦ includes imm def_type
]

-- Every type has a row, so the guard on a missing row never applies.
unfoldable pub get_type_multiplier : MonsterType → MonsterType → ℕ
unfolding is_immune
get_type_multiplier atk_type def_type =
    if is_immune atk_type def_type
    then 0
    else if includes (strong atk_type) def_type
    then 4
    else if includes (weak atk_type) def_type
    then 1
    else 2

-- The thresholds 0, 2 and 0.5 in halves.
pub effectiveness_label : ℕ → Option String
effectiveness_label type_mod =
    if type_mod == 0
    then some "NO EFFECT"
    else if leb 4 type_mod
    then some "SUPER EFFECTIVE"
    else if leb type_mod 1
    then some "not very effective"
    else none
