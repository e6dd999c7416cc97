-- ===== src/Team/Decide.antt =====
-- src/team.ts: the catch decision against the placement.
use pokeage.Prelude.{
  ℕ, ◌<◌, ◌≡◌, refl, arith, true, false, List, [], ◌∷◌, ◌++◌, length, leb, length-append, not, ◌||◌,
}
use pokeage.Types.{MonsterInstance, Trainer}
use pokeage.Power.{get_monster_power}
use pokeage.Team.{should_catch, place_new_monster, weak_scan, is_off, has_template, is_upgrade}
use pokeage.Team.Weakest.{weak_scan-weakest_of}

module _ {F : Type 0} where
  -- The newcomer's power test of `shouldCatch`, on a roster, is the one of `placeNewMonster`.
  is_upgrade-eq :
      (xs : List (MonsterInstance F)) (new : MonsterInstance F)
      → 0 < length xs
      → is_upgrade xs new ≡ not (leb (get_monster_power new) (weak_scan xs).1)
  is_upgrade-eq [] new h = elim h [ ]
  is_upgrade-eq (m ∷ ms) new h = let (w, e, e') = weak_scan-weakest_of m ms in ground (arith, e, e')

  -- A wild that `shouldCatch` approves is never turned away by `placeNewMonster`: the throw is not
  -- wasted.
  pub placed-should_catch :
      (t : Trainer F) (wild : MonsterInstance F)
      → should_catch t wild ≡ true
      → (place_new_monster t wild).1.placed ≡ true
  unfolding should_catch place_new_monster
  placed-should_catch t wild h =
      ground (arith, is_upgrade-eq (t.team ++ t.box) wild, length-append t.team t.box)

  has_template-append :
      (id : ℕ) (xs ys : List (MonsterInstance F))
      → has_template id (xs ++ ys) ≡ (has_template id xs || has_template id ys)
  has_template-append id [] ys = refl
  has_template-append id (x ∷ xs) ys = ground (arith, has_template-append id xs ys)

  -- An approved wild is caught only with catching enabled, a ball in stock, and no monster of its
  -- species in the party or the box.
  pub should_catch_needs :
      (t : Trainer F) (wild : MonsterInstance F)
      → should_catch t wild ≡ true
      → (is_off t.strategy.catch_enabled ≡ false)
        × (0 < t.ball)
        × (has_template wild.template_id (t.team ++ t.box) ≡ false)
  unfolding should_catch
  should_catch_needs t wild h = ground (arith, has_template-append wild.template_id t.team t.box)
