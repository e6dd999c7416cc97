-- ===== src/Trainers/Field.antt =====
-- src/trainers.ts: the field of opponents.
use mathlib.Core.List.{Perm}
use mathlib.Core.List.Perm
use Prim.Native.String
use pokeage.Prelude.Decimal.{decimal}
use pokeage.Prelude.{
  ℕ, zero, suc, ◌+◌, ◌≤◌, ◌≡◌, inl, inr, refl, ap, arith, List, [], ◌∷◌, length, map, String, leb,
  leb→le, All, Bool-cases,
}
use pokeage.Num.{Num}
use pokeage.Types.{Trainer}
use pokeage.Power.{get_trainer_power}
use pokeage.Rng.{Rng}
use pokeage.Data.Monsters.{Registry}
use pokeage.Trainers.{
  OpponentOptions, generate_opponent, opponents_from, insert_by_power, sort_by_power,
  generate_opponents,
}

-- The ids of the opponents from number `i` on.
abbrev pub numbered : ℕ → ℕ → List String
numbered i zero = []
numbered i (suc left) = String.◌++◌ "ai-" (decimal i) ∷ numbered (i + 1) left

-- From the strongest to the weakest.
abbrev pub Descending : {F : Type 0} → List (Trainer F) → Type 0
Descending [] = Unit
Descending (t ∷ ts) = All (λ u. get_trainer_power u ≤ get_trainer_power t) ts × Descending ts

module _ {F : Type 0} where
  All-weaker :
      (p q : ℕ) (ts : List (Trainer F))
      → p ≤ q
      → All (λ u. get_trainer_power u ≤ p) ts
      → All (λ u. get_trainer_power u ≤ q) ts
  All-weaker p q [] le h = tt
  All-weaker p q (t ∷ ts) le h = (omega (arith, h.0, le), All-weaker p q ts le h.1)

module _ (F : Type 0) ⦃n : Num F⦄ where
  insert-All :
      (p : ℕ) (t : Trainer F) (ts : List (Trainer F))
      → get_trainer_power t ≤ p
      → All (λ u. get_trainer_power u ≤ p) ts
      → All (λ u. get_trainer_power u ≤ p) (insert_by_power F t ts)
  unfolding insert_by_power
  insert-All p t [] le h = (le, tt)
  insert-All p t (u ∷ us) le h =
      elim (Bool-cases (leb (get_trainer_power u) (get_trainer_power t))) [
        | inl before ↦ rw before (le, h)
        | inr after ↦ rw after (h.0, insert-All p t us le h.1)
      ]

  insert-Descending :
      (t : Trainer F) (ts : List (Trainer F)) → Descending ts → Descending (insert_by_power F t ts)
  unfolding insert_by_power
  insert-Descending t [] h = (tt, tt)
  insert-Descending t (u ∷ us) h =
      elim (Bool-cases (leb (get_trainer_power u) (get_trainer_power t))) [
        | inl before ↦ let le = leb→le _ _ before in rw before ((le, All-weaker _ _ us le h.0), h)
        | inr after ↦ rw after (insert-All _ t us (ground arith) h.0, insert-Descending t us h.1)
      ]

  insert-Perm : (t : Trainer F) (ts : List (Trainer F)) → Perm (insert_by_power F t ts) (t ∷ ts)
  unfolding insert_by_power
  insert-Perm t [] = Perm.refl (t ∷ [])
  insert-Perm t (u ∷ us) = elim (Bool-cases (leb (get_trainer_power u) (get_trainer_power t))) [
    | inl before ↦ rw before (Perm.refl (t ∷ u ∷ us))
    | inr after ↦ rw after (Perm.trans (Perm.cons u (insert-Perm t us)) (Perm.swap _ _ _))
  ]

  sort-Descending : (ts : List (Trainer F)) → Descending (sort_by_power F ts)
  unfolding sort_by_power
  sort-Descending [] = tt
  sort-Descending (t ∷ ts) = insert-Descending t _ (sort-Descending ts)

  sort-Perm : (ts : List (Trainer F)) → Perm (sort_by_power F ts) ts
  unfolding sort_by_power
  sort-Perm [] = Perm.refl []
  sort-Perm (t ∷ ts) = Perm.trans (insert-Perm t (sort_by_power F ts)) (Perm.cons t (sort-Perm ts))

  length-opponents_from :
      (i left level : ℕ) (registry : Registry) (rng : Rng) (opts : OpponentOptions)
      → length (opponents_from F i left level registry rng opts).0 ≡ left
  unfolding opponents_from
  length-opponents_from i zero level registry rng opts = refl
  length-opponents_from i (suc left) level registry rng opts = ap suc (
      length-opponents_from (i + 1) left level registry
        (generate_opponent F i level registry rng opts).1 opts)

  ids-opponents_from :
      (i left level : ℕ) (registry : Registry) (rng : Rng) (opts : OpponentOptions)
      → map (λ t. t.id) (opponents_from F i left level registry rng opts).0 ≡ numbered i left
  unfolding opponents_from generate_opponent
  ids-opponents_from i zero level registry rng opts = refl
  ids-opponents_from i (suc left) level registry rng opts =
      ap (◌∷◌ (String.◌++◌ "ai-" (decimal i))) (
        ids-opponents_from (i + 1) left level registry
          (generate_opponent F i level registry rng opts).1 opts)

  -- The field has as many opponents as asked for, stands in order of falling power, and is a
  -- rearrangement of the opponents as they were generated, whose ids are `ai-` and the numbers from 0
  -- on.
  pub generate_opponents_lem :
      (count level : ℕ) (registry : Registry) (rng : Rng) (opts : OpponentOptions)
      → let field = (generate_opponents F count level registry rng opts).0 in
        let made = (opponents_from F 0 count level registry rng opts).0 in
        Descending field
        × Perm field made
        × (length made ≡ count)
        × (map (λ t. t.id) made ≡ numbered 0 count)
  unfolding generate_opponents
  generate_opponents_lem count level registry rng opts =
      let made = (opponents_from F 0 count level registry rng opts).0 in
      (
        sort-Descending made,
        sort-Perm made,
        length-opponents_from 0 count level registry rng opts,
        ids-opponents_from 0 count level registry rng opts,
      )
