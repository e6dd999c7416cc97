-- ===== src/Data/World/Voyage.antt =====
-- src/data/world.ts: the way through the shipped world.
use pokeage.Prelude.{
  ℕ, zero, suc, ◌+◌, ◌-◌, ◌≤◌, ◌≡◌, ◌∙◌, ◌⊎◌, inl, inr, refl, ap, subst, arith, true, Option, some,
  List, [], ◌∷◌, String, length, get_elem?, take, drop, All,
}
use mathlib.Core.Option.{some-injective}
use pokeage.Num.{Num}
use pokeage.Num.Laws.{IsNum}
use pokeage.Types.{MonsterTemplate, Town}
use pokeage.Engine.State.{World, Engine, EngineOptions, town_by_id}
use pokeage.Engine.Travel.{may_leave}
use pokeage.Engine.Journey.{Way, last_of, IsTraveller, journey}
use pokeage.Offline.{run_ticks}
use pokeage.Data.World.{towns, shipped_world}
use pokeage.Data.World.Lowlands.{seedling}

-- The badges of the first eleven gyms, which open every town.
abbrev pub HasBadges : List String → Type 0
HasBadges badges = All (λ t. may_leave t badges ≡ true) (take 11 towns)

-- Each town asks for the badge of the one before.
Way-shipped :
    (F : Type 0) ⦃n : Num F⦄ (badges : List String)
    → HasBadges badges
    → Way (shipped_world F) badges seedling (drop 1 towns)
Way-shipped F badges (h0, (h1, (h2, (h3, (h4, (h5, (h6, (h7, (h8, (h9, (h10, _))))))))))) = (
  refl,
  refl,
  h0,
  h0,
  (
    refl,
    refl,
    h1,
    h1,
    (
      refl,
      refl,
      h2,
      h2,
      (
        refl,
        refl,
        h3,
        h3,
        (
          refl,
          refl,
          h4,
          h4,
          (
            refl,
            refl,
            h5,
            h5,
            (
              refl,
              refl,
              h6,
              h6,
              (
                refl,
                refl,
                h7,
                h7,
                (refl, refl, h8, h8, (refl, refl, h9, h9, (refl, refl, h10, h10, tt))),
              ),
            ),
          ),
        ),
      ),
    ),
  ),
)

module _ {F : Type 0} (world : World F) where
  first_known :
      (us : List Town) (t : Town) (i : ℕ) (town : Town)
      → get_elem? (t ∷ us) i ≡ some town
      → town_by_id world t.id ≡ some t
      → i ≡ 0
      → town_by_id world town.id ≡ some town
  first_known us t zero town e known z =
      subst (λ x. town_by_id world x.id ≡ some x) (some-injective _ _ e) known
  first_known us t (suc i) town e known z = absurd (omega (arith, z))

module _ {F : Type 0} (world : World F) (badges : List String) where
  -- The rest of a way from one of its towns.
  record IsRest (t : Town) (us : List Town) (i : ℕ) (town : Town) (rest : List Town) : Type 0 where
    way : Way world badges town rest
    same_end : last_of town rest ≡ last_of t us
    left : length rest + i ≡ length us
    found : (i ≡ 0) ⊎ (town_by_id world town.id ≡ some town)

  Way-IsRest :
      (us : List Town) (t : Town) (i : ℕ) (town : Town)
      → Way world badges t us
      → get_elem? (t ∷ us) i ≡ some town
      → (rest : List Town) × IsRest t us i town rest
  Way-IsRest us t zero town way e = (
    us,
    subst (λ x. IsRest t us 0 x us) (some-injective _ _ e)
        (record { way = way; same_end = refl; left = omega arith; found = inl refl }),
  )
  Way-IsRest [] t (suc i) town way e = cc
  Way-IsRest (u ∷ us) t (suc i) town (next, there, leave, enter, way) e =
      let (rest, r) = Way-IsRest us u i town way e in
      (
        rest,
        record {
          way = r.way;
          same_end = r.same_end;
          left = omega (arith, r.left);
          found = inr (elim r.found [
            | inr known ↦ known
            | inl first ↦ first_known world us u i town e there first
          ]);
        },
      )

-- An agent anywhere in the shipped world that holds the badges of the first eleven gyms, and has
-- somebody in the party who can be healed and leave to move, reaches the last town: from the town
-- with number `i`, counted from 0, within 12 - `i` ticks, whatever the species, the buffs and the rolls.
pub shipped_journey :
    {F : Type 0} ⦃n : Num F⦄ (laws : IsNum F) (get_template : ℕ → Option MonsterTemplate)
    (opts : EngineOptions F) (badges : List String) (i : ℕ) (town : Town) (e : Engine F)
    → HasBadges badges
    → get_elem? towns i ≡ some town
    → e.trainer.location ≡ town.id
    → IsTraveller badges e
    → (k : ℕ) × (k ≤ 12 - i)
      × (e' : Engine F) × (run_ticks (shipped_world F) get_template opts k e ≡ some e')
      × (e'.trainer.location ≡ "dracospire")
shipped_journey {F} laws get_template opts badges i town e held at here traveller =
    let (rest, r) =
      Way-IsRest (shipped_world F) badges (drop 1 towns) seedling i town (Way-shipped F badges held)
        at in
    let known : town_by_id (shipped_world F) town.id ≡ some town = elim r.found [
      | inr known ↦ known
      | inl first ↦ first_known (shipped_world F) (drop 1 towns) seedling i town at refl first
    ] in
    let (k, le, e', runs, arrived) =
      journey laws (shipped_world F) get_template opts badges rest town e r.way
        (ap (town_by_id (shipped_world F)) here ∙ known) here traveller in
    (k, omega (arith, le, r.left), e', runs, arrived ∙ ap (λ t. t.id) r.same_end)
