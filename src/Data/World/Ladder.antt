-- ===== src/Data/World/Ladder.antt =====
-- src/data/world.ts: the order in which the badges of the shipped world are won.
use pokeage.Prelude.{
  ℕ, zero, suc, ◌≤◌, ◌≡◌, ◌∙◌, inl, inr, refl, ap, subst, arith, Bool, true, false, ◌&&◌, ◌||◌,
  Option, none, some, List, [], ◌∷◌, ◌++◌, String, take, get_elem?, get_elem?-some, take-snoc, all,
  all-Memᴰ, All, All-Memᴰ, ◌==◌,
}
use native.Mathlib.Decide.{dec_le}
use pokeage.Num.{Num}
use pokeage.Types.{MonsterTemplate, Town}
use pokeage.Engine.State.{Engine, EngineOptions, has_badge}
use pokeage.Engine.Challenge.{gym_locked}
use pokeage.Engine.Total.{tick_total}
use pokeage.Engine.Badges.{IsWon, tick-IsWon}
use pokeage.Offline.{run_ticks}
use pokeage.Data.World.{towns, shipped_world}

abbrev pub badge_order : List String
badge_order =
    "NORMAL" ∷ "INSECT" ∷ "BOULDER" ∷ "STREAM" ∷ "BOLT" ∷ "BLOOM" ∷ "MURK" ∷ "GHOST" ∷ "SAGE"
    ∷ "EMBER" ∷ "STEEL" ∷ "HORN" ∷ []

-- The first `k` badges of the order, and no other.
abbrev pub InOrder : List String → Type 0
InOrder badges = (k : ℕ) × (k ≤ 12) × (badges ≡ take k badge_order)

-- Each gym gives the badge that its own number has in the order.
abbrev IsNumbered : Town → Type 0
IsNumbered t = elim t.gym [ none ↦ Unit | some g ↦ get_elem? badge_order g.order ≡ some g.badge ]

towns-IsNumbered : All IsNumbered towns
towns-IsNumbered = (
  refl,
  (refl, (refl, (refl, (refl, (refl, (refl, (refl, (refl, (refl, (refl, (refl, tt))))))))))),
)

-- With the first `k` badges, a gym whose badge is missing and that is not locked is number `k`.
abbrev next_only : (F : Type 0) ⦃n : Num F⦄ → ℕ → Town → Bool
next_only F k t = elim t.gym [
  | none ↦ true
  | some g ↦
      has_badge g.badge (take k badge_order)
      || gym_locked (shipped_world F) t (take k badge_order)
      || (g.order == k)
]

all_upto : ℕ → (ℕ → Bool) → Bool
all_upto zero p = p zero
all_upto (suc k) p = p (suc k) && all_upto k p

all_upto_lem : (m : ℕ) (p : ℕ → Bool) (k : ℕ) → all_upto m p ≡ true → k ≤ m → p k ≡ true
unfolding all_upto
all_upto_lem zero p zero h le = h
all_upto_lem zero p (suc k) h le = absurd (omega (arith, le))
all_upto_lem (suc m) p k h le = elim (dec_le k m) [
  | yes lower ↦ all_upto_lem m p k (ground arith) lower
  | no top ↦ subst (λ i. p i ≡ true) (omega (arith, le, top)) (head_true (p (suc m)) _ h)
]
  where
    head_true : (a b : Bool) → a && b ≡ true → a ≡ true
    head_true a b h = ground arith

ladder : (F : Type 0) ⦃n : Num F⦄ → all_upto 12 (λ k. all (next_only F k) towns) ≡ true
unfolding all_upto
ladder F = refl

number_lem :
    (held locked : Bool) (order k : ℕ)
    → held ≡ false
    → locked ≡ false
    → (held || locked || (order == k)) ≡ true
    → order ≡ k
number_lem held locked order k p q h = ground arith

module _ {F : Type 0} ⦃n : Num F⦄ where
  IsWon-InOrder :
      (before after : List String)
      → InOrder before
      → IsWon (shipped_world F) before after
      → InOrder after
  IsWon-InOrder before after (k, le, e) w =
      let ok =
        all-Memᴰ (next_only F k) towns
          (all_upto_lem 12 (λ i. all (next_only F i) towns) k (ladder F) le) w.of_world in
      let numbered = All-Memᴰ IsNumbered towns towns-IsNumbered w.of_world in
      let at : get_elem? badge_order w.gym.order ≡ some w.gym.badge = rw w.has at numbered in
      let new = subst (λ b. has_badge w.gym.badge b ≡ false) e w.new in
      let unlocked = subst (λ b. gym_locked (shipped_world F) w.town b ≡ false) e w.unlocked in
      let same : w.gym.order ≡ k = number_lem _ _ w.gym.order k new unlocked (rw w.has at ok) in
      let at_k : get_elem? badge_order k ≡ some w.gym.badge =
        subst (λ i. get_elem? badge_order i ≡ some w.gym.badge) same at in
      (
        suc k,
        omega (arith, get_elem?-some badge_order k at_k),
        w.added ∙ ap (λ b. b ++ (w.gym.badge ∷ [])) e ∙ take-snoc badge_order k at_k,
      )

  -- In the shipped world the badges are won in the order of the gyms, each at most once: whatever the
  -- species, the strategy and the rolls, an agent that holds the first few badges of the order, or
  -- none, holds the first few after any number of ticks, which all return.
  pub shipped_badges :
      (get_template : ℕ → Option MonsterTemplate) (opts : EngineOptions F) (ticks : ℕ)
      (e : Engine F)
      → InOrder e.trainer.badges
      → (e' : Engine F) × (run_ticks (shipped_world F) get_template opts ticks e ≡ some e')
        × InOrder e'.trainer.badges
  unfolding run_ticks
  shipped_badges get_template opts zero e h = (e, refl, h)
  shipped_badges get_template opts (suc ticks) e h =
      let (result, e', returns, progress) = tick_total (shipped_world F) get_template opts e in
      let (e'', rest, h'') =
        shipped_badges get_template opts ticks e'
          (elim (tick-IsWon (shipped_world F) get_template opts e e' result returns) [
            | inl same ↦ (h.0, h.1, same ∙ h.2)
            | inr won ↦ IsWon-InOrder e.trainer.badges e'.trainer.badges h won
          ]) in
      (e'', rw (returns, run_ticks) rest, h'')
