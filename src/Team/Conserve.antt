-- ===== src/Team/Conserve.antt =====
-- src/team.ts: who is on the roster before and after a placement, and who is released.
use mathlib.Core.List.{Perm, perm_middle, append_assoc, perm_append_singleton}
use mathlib.Core.List.Perm
use mathlib.Core.Option.{some-injective}
use pokeage.Prelude.{
  ℕ, zero, suc, ◌≤◌, ◌<◌, ◌≡◌, subst, List, [], ◌∷◌, ◌++◌, some, none, get_elem?, remove_at, All,
  if◌then◌else◌,
}
use pokeage.Types.{MonsterInstance, Trainer}
use pokeage.Power.{get_monster_power}
use pokeage.Team.{place_new_monster, PlacementResult}
use pokeage.Team.Place.{
  roster, IsFull, Placement, joins_party, joins_box, refused, replaces_in_party, replaces_in_box,
  place_new_monster-Placement,
}

module _ {F : Type 0} where
  -- The monster that a placement released, as a list.
  abbrev pub released_of : PlacementResult F → List (MonsterInstance F)
  released_of res = elim res.released [ none ↦ [] | some m ↦ m ∷ [] ]

  remove_at-Perm :
      (xs : List (MonsterInstance F)) (i : ℕ) {x : MonsterInstance F}
      → get_elem? xs i ≡ some x
      → Perm (x ∷ remove_at xs i) xs
  remove_at-Perm [] i e = cc
  remove_at-Perm (y ∷ ys) zero {x} e =
      subst (λ z. Perm (z ∷ ys) (y ∷ ys)) (some-injective _ _ e) (Perm.refl (y ∷ ys))
  remove_at-Perm (y ∷ ys) (suc i) e =
      Perm.trans (Perm.swap _ _ _) (Perm.cons y (remove_at-Perm ys i e))

  append_one-Perm :
      (xs ys : List (MonsterInstance F)) (new : MonsterInstance F)
      → Perm ((xs ++ (new ∷ [])) ++ ys) (new ∷ (xs ++ ys))
  append_one-Perm xs ys new = rw (append_assoc xs (new ∷ []) ys) (perm_middle xs ys)

  append_last-Perm :
      (xs ys : List (MonsterInstance F)) (new : MonsterInstance F)
      → Perm (xs ++ (ys ++ (new ∷ []))) (new ∷ (xs ++ ys))
  append_last-Perm xs ys new =
      rw (← append_assoc xs ys (new ∷ [])) (perm_append_singleton new (xs ++ ys))

  Placement-Perm :
      {t : Trainer F} {new : MonsterInstance F} {out : Trainer F × PlacementResult F}
      → Placement t new out
      → Perm (released_of out.1 ++ roster out.0) (if out.1.placed then new ∷ roster t else roster t)
  Placement-Perm {t} {new} (joins_party h) = append_one-Perm t.team t.box new
  Placement-Perm {t} {new} (joins_box h k) = append_last-Perm t.team t.box new
  Placement-Perm {t} {new} (refused f a) = Perm.refl (roster t)
  Placement-Perm {t} {new} (replaces_in_party f i m e lt a) =
      Perm.trans (Perm.cons m (append_one-Perm (remove_at t.team i) t.box new)) (
        Perm.trans (Perm.swap _ _ _)
          (Perm.cons new (Perm.append_right t.box (remove_at-Perm t.team i e))))
  Placement-Perm {t} {new} (replaces_in_box f i m e lt a) =
      Perm.trans (Perm.cons m (append_last-Perm t.team (remove_at t.box i) new)) (
        Perm.trans (Perm.swap _ _ _) (
          Perm.cons new (
            Perm.trans (Perm.symm (perm_middle t.team (remove_at t.box i)))
              (Perm.append_left t.team (remove_at-Perm t.box i e)))))

  -- Conservation: after a placement, the roster and the released monster together are the old roster
  -- and, if it was placed, the newcomer, up to order.
  pub place_new_monster-Perm :
      (t : Trainer F) (new : MonsterInstance F)
      → let (t', res) = place_new_monster t new in
        Perm (released_of res ++ roster t') (if res.placed then new ∷ roster t else roster t)
  place_new_monster-Perm t new = Placement-Perm (place_new_monster-Placement t new)

  -- What makes `m` the one to go when `new` is placed.
  abbrev pub IsReplaced : Trainer F → MonsterInstance F → MonsterInstance F → Type 0
  IsReplaced t new m =
      IsFull t
      × (get_monster_power m < get_monster_power new)
      × All (λ x. get_monster_power m ≤ get_monster_power x) (roster t)

  Placement-IsReplaced :
      {t : Trainer F} {new : MonsterInstance F} {out : Trainer F × PlacementResult F}
      (m : MonsterInstance F)
      → Placement t new out
      → out.1.released ≡ some m
      → IsReplaced t new m
  Placement-IsReplaced m (joins_party h) e = cc
  Placement-IsReplaced m (joins_box h k) e = cc
  Placement-IsReplaced m (refused f a) e = cc
  Placement-IsReplaced {t} {new} m (replaces_in_party f i m' e lt a) e' =
      subst (IsReplaced t new) (some-injective _ _ e') (f, lt, a)
  Placement-IsReplaced {t} {new} m (replaces_in_box f i m' e lt a) e' =
      subst (IsReplaced t new) (some-injective _ _ e') (f, lt, a)

  -- A monster is released only from a full roster, when it is weaker than the newcomer and nobody on
  -- the roster is weaker than it.
  pub place_new_monster-IsReplaced :
      (t : Trainer F) (new m : MonsterInstance F)
      → (place_new_monster t new).1.released ≡ some m
      → IsReplaced t new m
  place_new_monster-IsReplaced t new m e =
      Placement-IsReplaced m (place_new_monster-Placement t new) e
