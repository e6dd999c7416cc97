-- ===== src/Typechart/Laws.antt =====
-- src/typechart.ts: the multiplier against the three tables.
use pokeage.Prelude.{
  ◌≡◌, ◌↔◌, refl, ap, sym, ◌∙◌, Bool, true, false, not, ◌&&◌, some, List, [], ◌∷◌, arith, all,
  ==_iff, get_elem?,
}
use mathlib.Core.Option.{some-injective}
use pokeage.Types.{
  MonsterType, normal, fire, water, grass, electric, ice, fighting, poison, ground_type, flying,
  psychic, bug, rock, ghost, dragon, dark, steel,
}
use pokeage.Typechart.{type_code, type_eq, includes, strong, weak, is_immune, get_type_multiplier}

abbrev pub all_types : List MonsterType
all_types =
    normal ∷ fire ∷ water ∷ grass ∷ electric ∷ ice ∷ fighting ∷ poison ∷ ground_type ∷ flying
    ∷ psychic ∷ bug ∷ rock ∷ ghost ∷ dragon ∷ dark ∷ steel ∷ []

-- A test that passes at every listed type passes at every type.
pub all_types_sound :
    (p : MonsterType → Bool) (t : MonsterType) → all p all_types ≡ true → p t ≡ true
all_types_sound p normal h = ground arith
all_types_sound p _ h = ground arith

-- The number of a type is its place in the list, so it determines the type.
get_elem?-type_code : (t : MonsterType) → get_elem? all_types (type_code t) ≡ some t
get_elem?-type_code normal = refl
get_elem?-type_code _ = refl

pub type_code-injective : (a b : MonsterType) → type_code a ≡ type_code b → a ≡ b
type_code-injective a b e =
    some-injective _ _
      (sym (get_elem?-type_code a) ∙ ap (get_elem? all_types) e ∙ get_elem?-type_code b)

pub type_eq_iff : (a b : MonsterType) → (type_eq a b ≡ true) ↔ (a ≡ b)
type_eq_iff a b = (
  λ h. type_code-injective a b ((==_iff (type_code a) (type_code b)).0 h),
  λ e. (==_iff (type_code a) (type_code b)).1 (ap type_code e),
)

-- No defender is both strong and weak, or both immune and strong, for one attacker.
tables_agree : MonsterType → MonsterType → Bool
tables_agree a d =
    not (includes (strong a) d && includes (weak a) d)
    && not (is_immune a d && includes (strong a) d)

tables_agree_everywhere : all (λ a. all (tables_agree a) all_types) all_types ≡ true
unfolding tables_agree strong weak is_immune
tables_agree_everywhere = refl

tables_agree_at : (a d : MonsterType) → tables_agree a d ≡ true
tables_agree_at a d =
    all_types_sound (tables_agree a) d
      (all_types_sound (λ x. all (tables_agree x) all_types) a tables_agree_everywhere)

-- The multiplier of an attack is 0 exactly on immune defenders, 2 exactly on those the attacker's
-- row lists as strong, 0.5 exactly on those it lists as weak and that are not immune, and 1 exactly
-- on all others (counted in halves).
pub get_type_multiplier_iff :
    (a d : MonsterType)
    → ((get_type_multiplier a d ≡ 0) ↔ (is_immune a d ≡ true))
      × ((get_type_multiplier a d ≡ 4) ↔ (includes (strong a) d ≡ true))
      × ((get_type_multiplier a d ≡ 1) ↔ ((includes (weak a) d ≡ true) × (is_immune a d ≡ false)))
      × ((get_type_multiplier a d ≡ 2) ↔ (
          (includes (strong a) d ≡ false)
          × (includes (weak a) d ≡ false)
          × (is_immune a d ≡ false)))
unfolding get_type_multiplier tables_agree
get_type_multiplier_iff a d = ground (arith, tables_agree_at a d)
