-- ===== src/Engine/Specimen.antt =====
-- src/engine.ts: monsters against their species, over any number of ticks.
use pokeage.Prelude.{
  ℕ, zero, suc, ◌+◌, ◌≡◌, inl, inr, refl, ap, sym, ◌∙◌, subst, arith, Option, none, some,
  Option-cases,
}
use mathlib.Core.Option.{some-injective}
use pokeage.Num.{Num}
use pokeage.Types.{MonsterTemplate, MonsterInstance, Route}
use pokeage.Rng.{Rng}
use pokeage.Constants.{max_level}
use pokeage.Stats.{create_monster_instance, stats_at_level}
use pokeage.Affection.{add_affection}
use pokeage.Progression.{grant_xp, evolve_at, level_up}
use pokeage.Progression.Level.{grant_loop_inv}
use pokeage.Encounter.{EncounterBuffs, roll_species, roll_level, generate_wild_monster}
use pokeage.Engine.State.{World, Engine, EngineOptions}
use pokeage.Engine.Health.{Everybody}
use pokeage.Engine.Fit.{Keeps}
use pokeage.Engine.Total.{tick-Everybody, tick_keeps}
use pokeage.Team.Place.{IsRoster}
use pokeage.Offline.{run_ticks}

-- The monster is of this species, with its type and evolution levels, and has the stats of the species
-- at its level.
pub record IsOf {F : Type 0} ⦃n : Num F⦄ (get_template : ℕ → Option MonsterTemplate)
    (template : MonsterTemplate) (m : MonsterInstance F) : Type 0 where
  pub known : get_template m.template_id ≡ some template
  pub stats : m.stats ≡ stats_at_level F template m.level
  pub type : m.type ≡ template.type
  pub ev1 : m.ev1 ≡ template.ev1
  pub ev2 : m.ev2 ≡ template.ev2

-- The monster is of a species that the registry knows.
abbrev pub IsSpecimen :
    {F : Type 0} ⦃n : Num F⦄ → (ℕ → Option MonsterTemplate) → MonsterInstance F → Type 0
IsSpecimen get_template m = (template : MonsterTemplate) × IsOf get_template template m

-- A move list has not been cached.
abbrev pub Bare : {F : Type 0} → MonsterInstance F → Type 0
Bare m = m.moves ≡ none

module _ {F : Type 0} ⦃n : Num F⦄ (get_template : ℕ → Option MonsterTemplate) where
  -- A wild is a fresh instance of a species of the registry, apart from its rarity.
  pub record IsFresh (wild : MonsterInstance F) : Type 0 where
    pub id : ℕ
    pub template : MonsterTemplate
    pub level : ℕ
    pub known : get_template id ≡ some template
    pub made : wild ≡ (record (create_monster_instance F template level) { rarity = wild.rarity })

  pub generate_wild_monster-IsFresh :
      (route : Route F) (wild : MonsterInstance F) (buffs : EncounterBuffs F) (rng : Rng)
      → (generate_wild_monster route get_template buffs rng).0 ≡ some wild
      → IsFresh wild
  unfolding generate_wild_monster create_monster_instance
  generate_wild_monster-IsFresh route wild buffs rng =
      let rolled = roll_species route.rare_pool route.wild_pool get_template buffs rng in
      elim (Option-cases rolled.0.0) [
        | inl nothing ↦ rw (nothing, generate_wild_monster) (λ e. cc)
        | inr (id, species) ↦
            rw (species, generate_wild_monster)
              (elim (Option-cases (get_template id)) [
                | inl unknown ↦ rw unknown (λ e. cc)
                | inr (template, known) ↦ rw known (λ e.
                    subst IsFresh (some-injective _ _ e) (record {
                      id = id;
                      template = template;
                      level = (roll_level route rolled.0.1 rolled.1).0;
                      known = known;
                      made = refl;
                    }))
              ])
      ]

  pub Bare-Keeps : Keeps get_template (Bare {F = F})
  unfolding grant_xp evolve_at level_up add_affection create_monster_instance
  Bare-Keeps = record {
    lasts = record { heal = λ m h. h; hurt = λ m hp le h. h };
    grows = λ m amount template known h.
        grant_loop_inv F Bare template (λ k more b. ground arith) max_level
          (record m { xp = m.xp + amount }) h;
    bonds = λ m gain h. h;
    fresh = λ route wild buffs rng found.
        ap (λ m. m.moves) (generate_wild_monster-IsFresh route wild buffs rng found).made;
  }

  grant_xp-IsOf :
      (m : MonsterInstance F) (amount : ℕ) (template : MonsterTemplate)
      → IsOf get_template template m
      → IsOf get_template template (grant_xp F m amount template).0
  unfolding grant_xp evolve_at level_up
  grant_xp-IsOf m amount template s =
      grant_loop_inv F (IsOf get_template template) template (λ k more o. ground (arith, o))
        max_level (record m { xp = m.xp + amount })
        (record { known = s.known; stats = s.stats; type = s.type; ev1 = s.ev1; ev2 = s.ev2 })

  pub create_monster_instance-IsOf :
      (template : MonsterTemplate) (level : ℕ)
      → get_template template.id ≡ some template
      → IsOf get_template template (create_monster_instance F template level)
  unfolding create_monster_instance
  create_monster_instance-IsOf template level known = record {
    known = known;
    stats = refl;
    type = refl;
    ev1 = refl;
    ev2 = refl;
  }

  fresh-IsOf :
      (wild : MonsterInstance F)
      → ((id : ℕ) (template : MonsterTemplate)
          → get_template id ≡ some template
          → get_template template.id ≡ some template)
      → IsFresh wild
      → IsSpecimen get_template wild
  fresh-IsOf wild registered f =
      let o =
        create_monster_instance-IsOf f.template f.level (registered f.id f.template f.known) in
      (
        f.template,
        subst (IsOf get_template f.template) (sym f.made)
            (record { known = o.known; stats = o.stats; type = o.type; ev1 = o.ev1; ev2 = o.ev2 }),
      )

  -- The species by which a registry knows an id is known by its own id.
  pub IsSpecimen-Keeps :
      ((id : ℕ) (template : MonsterTemplate)
        → get_template id ≡ some template
        → get_template template.id ≡ some template)
      → Keeps get_template (IsSpecimen {F = F} get_template)
  unfolding add_affection
  IsSpecimen-Keeps registered = record {
    lasts = record {
      heal = λ m h. (h.0, ground (arith, h.1));
      hurt = λ m hp le h. (h.0, ground (arith, h.1));
    };
    grows = λ m amount template known h. (
      template,
      grant_xp-IsOf m amount template
          (subst (λ t. IsOf get_template t m) (some-injective _ _ (sym h.1.known ∙ known)) h.1),
    );
    bonds = λ m gain h. (h.0, ground (arith, h.1));
    fresh = λ route wild buffs rng found.
        fresh-IsOf wild registered (generate_wild_monster-IsFresh route wild buffs rng found);
  }

module _ {F : Type 0} ⦃n : Num F⦄ (world : World F) (get_template : ℕ → Option MonsterTemplate)
    (opts : EngineOptions F) where
  -- Any number of ticks return, and keep what every tick keeps.
  pub run_ticks_keeps :
      {P : MonsterInstance F → Type 0} (keeps : Keeps get_template P) (k : ℕ) (e : Engine F)
      → IsRoster e.trainer
      → Everybody P e.trainer
      → (e' : Engine F) × (run_ticks world get_template opts k e ≡ some e')
        × IsRoster e'.trainer
        × Everybody P e'.trainer
  unfolding run_ticks
  run_ticks_keeps keeps zero e r h = (e, refl, r, h)
  run_ticks_keeps keeps (suc k) e r h =
      let (result, e', returns, r', h') = tick_keeps world get_template opts keeps e r h in
      let (e'', rest, r'', h'') = run_ticks_keeps keeps k e' r' h' in
      (e'', rw (returns, run_ticks) rest, r'', h'')

  -- Any number of ticks return, and keep what every tick keeps.
  pub run_ticks-Everybody :
      {P : MonsterInstance F → Type 0} (keeps : Keeps get_template P) (k : ℕ) (e : Engine F)
      → Everybody P e.trainer
      → (e' : Engine F) × (run_ticks world get_template opts k e ≡ some e') × Everybody P e'.trainer
  unfolding run_ticks
  run_ticks-Everybody keeps zero e h = (e, refl, h)
  run_ticks-Everybody keeps (suc k) e h =
      let (result, e', returns, h') = tick-Everybody world get_template opts keeps e h in
      let (e'', rest, h'') = run_ticks-Everybody keeps k e' h' in
      (e'', rw (returns, run_ticks) rest, h'')

  -- Every monster of the party and the box stays true to its species: after any number of ticks, which
  -- all return, it has exactly the stats of its species at its level, and the species' type and
  -- evolution levels, if everybody did before and the registry knows each of its species by its own id.
  pub run_ticks-IsSpecimen :
      ((id : ℕ) (template : MonsterTemplate)
        → get_template id ≡ some template
        → get_template template.id ≡ some template)
      → (k : ℕ) (e : Engine F) → Everybody (IsSpecimen get_template) e.trainer
      → (e' : Engine F) × (run_ticks world get_template opts k e ≡ some e')
        × Everybody (IsSpecimen get_template) e'.trainer
  run_ticks-IsSpecimen registered = run_ticks-Everybody (IsSpecimen-Keeps get_template registered)
