-- ===== src/Engine/Health.antt =====
-- src/engine.ts: a predicate on every monster of the party and the box, such as hit points within
-- their maximum.
use pokeage.Prelude.{
  ℕ, zero, suc, ◌+◌, ◌≤◌, ◌<◌, ◌≡◌, inl, inr, sym, subst, arith, Bool, some, List, [], ◌∷◌, map,
  set, take, keep_if, All, All-append, All-remove_at, Bool-cases,
}
use mathlib.Core.Option.{some-injective}
use pokeage.Types.{MonsterInstance, Trainer}
use pokeage.Team.{PlacementResult}
use pokeage.Team.Place.{
  Placement, joins_party, joins_box, refused, replaces_in_party, replaces_in_box,
}
use pokeage.Battle.Wear.{Worn}
use pokeage.Engine.State.{Engine, heal, heal_team, is_up, write_back, find_lead}

abbrev pub Healthy : {F : Type 0} → MonsterInstance F → Type 0
Healthy m = m.current_hp ≤ m.stats.hp

-- A predicate of everybody in the party and the box.
pub record Everybody {F : Type 0} (P : MonsterInstance F → Type 0) (t : Trainer F) : Type 0 where
  pub team : All P t.team
  pub box : All P t.box

-- Everybody in the party and the box has at most the maximum of hit points.
abbrev pub IsFit : {F : Type 0} → Trainer F → Type 0
IsFit = Everybody Healthy

-- A predicate that survives healing and the loss of hit points.
pub record Lasts {F : Type 0} (P : MonsterInstance F → Type 0) : Type 0 where
  pub heal : (m : MonsterInstance F) → P m → P (record m { current_hp = m.stats.hp })
  pub hurt :
      (m : MonsterInstance F) (hp : ℕ) → hp ≤ m.current_hp → P m → P (record m { current_hp = hp })

pub Lasts-and :
    {F : Type 0} {P Q : MonsterInstance F → Type 0} → Lasts P → Lasts Q → Lasts (λ m. P m × Q m)
Lasts-and p q = record {
  heal = λ m h. (p.heal m h.0, q.heal m h.1);
  hurt = λ m hp le h. (p.hurt m hp le h.0, q.hurt m hp le h.1);
}

pub Healthy-Lasts : {F : Type 0} → Lasts (Healthy {F = F})
Healthy-Lasts = record { heal = λ m h. omega arith; hurt = λ m hp le h. omega (arith, le, h) }

module _ {F : Type 0} {P : MonsterInstance F → Type 0} where
  pub All-heal : (ms : List (MonsterInstance F)) → Lasts P → All P ms → All P (map heal ms)
  All-heal [] l h = tt
  All-heal (m ∷ ms) l h = (l.heal m h.0, All-heal ms l h.1)

  pub All-Worn : (ms ms' : List (MonsterInstance F)) → Lasts P → Worn ms ms' → All P ms → All P ms'
  All-Worn [] [] l w h = tt
  All-Worn [] (m' ∷ ms') l w h = elim w [ ]
  All-Worn (m ∷ ms) [] l w h = elim w [ ]
  All-Worn (m ∷ ms) (m' ∷ ms') l (e, le, w) h =
      (subst P (sym e) (l.hurt m m'.current_hp le h.0), All-Worn ms ms' l w h.1)

  pub Placement-Everybody :
      {t : Trainer F} {new : MonsterInstance F} {out : Trainer F × PlacementResult F}
      → Placement t new out
      → Everybody P t
      → P new
      → Everybody P out.0
  Placement-Everybody {t} {new} (joins_party h) f k = record {
    team = All-append _ t.team (new ∷ []) f.team (k, tt);
    box = f.box;
  }
  Placement-Everybody {t} {new} (joins_box h h') f k = record {
    team = f.team;
    box = All-append _ t.box (new ∷ []) f.box (k, tt);
  }
  Placement-Everybody (refused h a) f k = f
  Placement-Everybody {t} {new} (replaces_in_party h i m e lt a) f k = record {
    team = All-append _ _ (new ∷ []) (All-remove_at _ t.team i f.team) (k, tt);
    box = f.box;
  }
  Placement-Everybody {t} {new} (replaces_in_box h i m e lt a) f k = record {
    team = f.team;
    box = All-append _ _ (new ∷ []) (All-remove_at _ t.box i f.box) (k, tt);
  }

  pub heal_team-Everybody :
      (e : Engine F) → Lasts P → Everybody P e.trainer → Everybody P (heal_team e).trainer
  unfolding heal_team
  heal_team-Everybody e l f = record { team = All-heal e.trainer.team l f.team; box = f.box }

module _ {F : Type 0} (P : MonsterInstance F → Type 0) where
  pub All-set :
      (ms : List (MonsterInstance F)) (i : ℕ) (v : MonsterInstance F)
      → All P ms
      → P v
      → All P (set ms i v)
  All-set [] i v h k = tt
  All-set (m ∷ ms) zero v h k = (k, h.1)
  All-set (m ∷ ms) (suc i) v h k = (h.0, All-set ms i v h.1 k)

  pub All-write_back :
      (ms ps : List (MonsterInstance F)) → All P ms → All P ps → All P (write_back ms ps)
  unfolding write_back
  All-write_back [] ps h k = tt
  All-write_back (m ∷ ms) [] h k = h
  All-write_back (m ∷ ms) (p ∷ ps) h k = elim (Bool-cases (is_up m)) [
    | inl up ↦ rw up (k.0, All-write_back ms ps h.1 k.1)
    | inr down ↦ rw down (h.0, All-write_back ms (p ∷ ps) h.1 k)
  ]

  pub All-keep_if :
      (p : MonsterInstance F → Bool) (ms : List (MonsterInstance F))
      → All P ms
      → All P (keep_if p ms)
  All-keep_if p [] h = tt
  All-keep_if p (m ∷ ms) h = elim (Bool-cases (p m)) [
    | inl kept ↦ rw kept (h.0, All-keep_if p ms h.1)
    | inr left_out ↦ rw left_out (All-keep_if p ms h.1)
  ]

  pub All-take : (k : ℕ) (ms : List (MonsterInstance F)) → All P ms → All P (take k ms)
  All-take zero ms h = tt
  All-take (suc k) [] h = tt
  All-take (suc k) (m ∷ ms) h = (h.0, All-take k ms h.1)

  -- The lead that was found stands, and has what everybody has.
  pub find_lead_lem :
      (i : ℕ) (ms : List (MonsterInstance F)) (found : ℕ × MonsterInstance F)
      → All P ms
      → find_lead i ms ≡ some found
      → (0 < found.1.current_hp) × P found.1
  find_lead_lem i [] found h = λ e. cc
  find_lead_lem i (m ∷ ms) found h = elim (Bool-cases (is_up m)) [
    | inl up ↦
        rw up (λ e.
          subst (λ x. (0 < x.1.current_hp) × P x.1) (some-injective _ _ e) (ground arith, h.0))
    | inr down ↦ rw down (λ e. find_lead_lem (i + 1) ms found h.1 e)
  ]
