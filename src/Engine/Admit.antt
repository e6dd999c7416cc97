-- ===== src/Engine/Admit.antt =====
-- src/engine.ts: the town that the agent is in.
pub mod Runs
use text.Mathlib.TextEquality.{eq_iff}
use pokeage.Prelude.{
  ◌≡◌, inl, inr, refl, sym, subst, Bool, true, not, ◌||◌, some, List, [], ◌∷◌, ◌++◌, String, find?,
  Bool-cases, Option-cases,
}
use mathlib.Core.Option.{some-injective}
use pokeage.Types.{Town, Trainer}
use pokeage.Team.{is_off}
use pokeage.Engine.State.{World, has_badge, given, town_by_id, same}
use pokeage.Engine.Tick.{next_stop}
use pokeage.Engine.Travel.{may_enter}

-- The agent's town is one of the world, and the badge that it asks for is held.
pub record IsAdmitted {F : Type 0} (world : World F) (t : Trainer F) : Type 0 where
  pub town : Town
  pub here : town_by_id world t.location ≡ some town
  pub admitted : may_enter town t.badges ≡ true

has_badge-append :
    (badge : String) (badges more : List String)
    → has_badge badge badges ≡ true
    → has_badge badge (badges ++ more) ≡ true
has_badge-append badge [] more h = absurd (cc (h))
has_badge-append badge (b ∷ bs) more h = elim (Bool-cases (same badge b)) [
  | inl first ↦ rw first refl
  | inr later ↦ rw later (has_badge-append badge bs more (rw later at h))
]

pub may_enter-append :
    (t : Town) (badges more : List String)
    → may_enter t badges ≡ true
    → may_enter t (badges ++ more) ≡ true
may_enter-append t badges more = elim (Option-cases (given t.required_badge)) [
  | inl free ↦ rw (free, may_enter) (λ h. refl)
  | inr (badge, asked) ↦ rw (asked, may_enter) (λ h. has_badge-append badge badges more h)
]

find?-holds {ℓ} :
    {A : Type ℓ} (p : A → Bool) (xs : List A) {x : A} → find? p xs ≡ some x → p x ≡ true
find?-holds p [] = λ e. cc
find?-holds p (y ∷ ys) = elim (Bool-cases (p y)) [
  | inl hit ↦ rw hit (λ e. subst (λ z. p z ≡ true) (some-injective _ _ e) hit)
  | inr miss ↦ rw miss (λ e. find?-holds p ys e)
]

module _ {F : Type 0} (world : World F) where
  -- A town that was found is found by its own id.
  town_by_id-found :
      (id : String) (t : Town) → town_by_id world id ≡ some t → town_by_id world t.id ≡ some t
  town_by_id-found id t e =
      let same_id = (eq_iff t.id id).0 (find?-holds (λ u. same u.id id) world.towns e) in
      subst (λ k. town_by_id world k ≡ some t) (sym same_id) e

  pub next_stop-admits :
      (town stop : Town) (t : Trainer F)
      → next_stop world town t ≡ some stop
      → (town_by_id world stop.id ≡ some stop) × (may_enter stop t.badges ≡ true)
  next_stop-admits town stop t = elim (Option-cases town.gym) [
    | inl no_gym ↦ rw (no_gym, next_stop) (λ e. absurd (cc (e)))
    | inr (gym, has) ↦
        rw (has, next_stop)
          (elim (Bool-cases (is_off t.strategy.auto_move || not (has_badge gym.badge t.badges))) [
            | inl stays ↦ rw stays (λ e. absurd (cc (e)))
            | inr free ↦ rw free (elim (Option-cases (given town.next_town)) [
              | inl last ↦ rw last (λ e. absurd (cc (e)))
              | inr (id, next) ↦ rw next (elim (Option-cases (town_by_id world id)) [
                | inl missing ↦ rw missing (λ e. absurd (cc (e)))
                | inr (found, there) ↦ rw there (elim (Bool-cases (may_enter found t.badges)) [
                  | inr refused ↦ rw refused (λ e. absurd (cc (e)))
                  | inl enters ↦ rw enters (λ e.
                      subst (λ s. (town_by_id world s.id ≡ some s) × (may_enter s t.badges ≡ true))
                        (some-injective _ _ e) (town_by_id-found id found there, enters))
                ])
              ])
            ])
          ])
  ]
