-- ===== src/Battle/Wear.antt =====
-- src/battle.ts: hit points along a gym battle, as lists.
use mathlib.Core.Option.{some-injective}
use pokeage.Prelude.{
  ℕ, zero, suc, ◌≤◌, ◌≡◌, refl, arith, some, List, [], ◌∷◌, map, length, set, get_elem?, All,
}
use pokeage.Types.{MonsterInstance}
use pokeage.Battle.{write_hp}

-- The members before the index are down.
abbrev pub DownBefore : ℕ → List ℕ → Type 0
DownBefore zero hps = Unit
DownBefore (suc k) [] = Unit
DownBefore (suc k) (hp ∷ hps) = (hp ≡ 0) × DownBefore k hps

pub DownBefore-set : (k v : ℕ) (hps : List ℕ) → DownBefore k hps → DownBefore k (set hps k v)
DownBefore-set zero v hps h = tt
DownBefore-set (suc k) v [] h = tt
DownBefore-set (suc k) v (hp ∷ hps) h = (h.0, DownBefore-set k v hps h.1)

pub DownBefore-down : (k : ℕ) (hps : List ℕ) → DownBefore k hps → DownBefore (suc k) (set hps k 0)
DownBefore-down zero [] h = tt
DownBefore-down zero (hp ∷ hps) h = (refl, tt)
DownBefore-down (suc k) [] h = tt
DownBefore-down (suc k) (hp ∷ hps) h = (h.0, DownBefore-down k hps h.1)

-- Each number is at most the one at its place.
abbrev pub Below : List ℕ → List ℕ → Type 0
Below [] caps = Unit
Below (hp ∷ hps) [] = Unit
Below (hp ∷ hps) (cap ∷ caps) = (hp ≤ cap) × Below hps caps

pub Below-set :
    (hps caps : List ℕ) (i hp v : ℕ)
    → get_elem? hps i ≡ some hp
    → v ≤ hp
    → Below hps caps
    → Below (set hps i v) caps
Below-set [] caps i hp v e h b = tt
Below-set (x ∷ xs) [] zero hp v e h b = tt
Below-set (x ∷ xs) [] (suc i) hp v e h b = tt
Below-set (x ∷ xs) (c ∷ cs) zero hp v e h b =
    let same : x ≡ hp = some-injective _ _ e in (omega (arith, b.0), b.1)
Below-set (x ∷ xs) (c ∷ cs) (suc i) hp v e h b = (b.0, Below-set xs cs i hp v e h b.1)

pub Below-refl : (hps : List ℕ) → Below hps hps
Below-refl [] = tt
Below-refl (hp ∷ hps) = (omega arith, Below-refl hps)

abbrev pub caps_of : {F : Type 0} → List (MonsterInstance F) → List ℕ
caps_of party = map (λ m. m.current_hp) party

-- Nobody in the party stands.
abbrev pub AllDown : {F : Type 0} → List (MonsterInstance F) → Type 0
AllDown party = All (λ m. m.current_hp ≡ 0) party

pub DownBefore-AllDown :
    {F : Type 0} (party : List (MonsterInstance F)) (hps : List ℕ)
    → length hps ≡ length party
    → DownBefore (length party) hps
    → AllDown (write_hp party hps)
unfolding write_hp
DownBefore-AllDown [] hps e h = tt
DownBefore-AllDown (m ∷ ms) [] e h = absurd (omega arith)
DownBefore-AllDown (m ∷ ms) (hp ∷ hps) e h = (h.0, DownBefore-AllDown ms hps (omega arith) h.1)

-- The members of the second list are those of the first, in order, with no more hit points.
abbrev pub Worn : {F : Type 0} → List (MonsterInstance F) → List (MonsterInstance F) → Type 0
Worn [] [] = Unit
Worn (m ∷ ms) (m' ∷ ms') =
    (m' ≡ record m { current_hp = m'.current_hp }) × (m'.current_hp ≤ m.current_hp) × Worn ms ms'
Worn _ _ = ⊥

pub write_hp-Worn :
    {F : Type 0} (party : List (MonsterInstance F)) (hps : List ℕ)
    → length hps ≡ length party
    → Below hps (caps_of party)
    → Worn party (write_hp party hps)
unfolding write_hp
write_hp-Worn [] hps e b = tt
write_hp-Worn (m ∷ ms) [] e b = absurd (omega arith)
write_hp-Worn (m ∷ ms) (hp ∷ hps) e b = (refl, b.0, write_hp-Worn ms hps (omega arith) b.1)
