-- ===== src/Factory/Start.antt =====
-- src/factory.ts and src/engine.ts: a new trainer of the sample roster and its agent.
use pokeage.Prelude.{
  ℕ, ◌+◌, ◌≤◌, ◌<◌, ◌≡◌, ◌⊎◌, refl, arith, true, Option, none, some, [], ◌∷◌, List, String, length,
  length-append, All,
}
use pokeage.Num.{Num}
use pokeage.Types.{MonsterTemplate, MonsterInstance, Trainer}
use pokeage.Constants.{party_size}
use pokeage.Rng.{Rng}
use pokeage.Stats.{create_monster_instance}
use pokeage.Team.Place.{IsRoster}
use pokeage.Engine.State.{World, Engine, EngineOptions, new_engine}
use pokeage.Engine.Health.{Healthy, Everybody}
use pokeage.Engine.Fit.{Keeps, Keeps-and}
use pokeage.Engine.Total.{Healthy-Keeps}
use pokeage.Engine.Specimen.{
  Bare, Bare-Keeps, IsSpecimen, IsSpecimen-Keeps, create_monster_instance-IsOf, run_ticks_keeps,
}
use pokeage.Offline.{run_ticks}
use pokeage.Data.Monsters.{create_registry, sample_monsters, sample_registry}
use pokeage.Data.Monsters.Lookup.{distinct, get_monster_by_id_iff}
use pokeage.Data.Monsters.Final.{sample, sample_distinct}
use pokeage.Save.{or_else}
use pokeage.Factory.{NewTrainerOptions, new_trainer, starter_team, give_monster}

-- A registry knows the species that it finds by its own id.
create_registry_registered :
    (roster : List MonsterTemplate)
    → distinct roster ≡ true
    → (id : ℕ) (t : MonsterTemplate) → (create_registry roster).get_monster_by_id id ≡ some t
    → (create_registry roster).get_monster_by_id t.id ≡ some t
create_registry_registered roster d id t e =
    let (mem, same) = (get_monster_by_id_iff roster id t d).0 e in
    (get_monster_by_id_iff roster t.id t d).1 (mem, refl)

pub sample_registered : (id : ℕ) (t : MonsterTemplate) → sample id ≡ some t → sample t.id ≡ some t
unfolding sample_registry
sample_registered = create_registry_registered sample_monsters sample_distinct

abbrev pub IsHonest : {F : Type 0} ⦃n : Num F⦄ → MonsterInstance F → Type 0
IsHonest m = Healthy m × (Bare m × IsSpecimen sample m)

-- What the agent keeps: the sizes of party and box, and of every monster its hit points, its lack of
-- cached moves and its species.
pub record IsSound {F : Type 0} ⦃n : Num F⦄ (t : Trainer F) : Type 0 where
  pub roster : IsRoster t
  pub everybody : Everybody IsHonest t

starter_team-All :
    (F : Type 0) ⦃n : Num F⦄ (o : Option MonsterTemplate) (id level : ℕ)
    → sample id ≡ o
    → All IsHonest (starter_team F o level) × (length (starter_team F o level) ≤ 1)
unfolding create_monster_instance
starter_team-All F none id level e = (tt, omega arith)
starter_team-All F (some tpl) id level e = (
  (
    (
      omega arith,
      (refl, (tpl, create_monster_instance-IsOf sample tpl level (sample_registered id tpl e))),
    ),
    tt,
  ),
  omega arith,
)

module _ {F : Type 0} ⦃n : Num F⦄ where
  IsSound-Keeps : Keeps sample (IsHonest {F = F})
  IsSound-Keeps =
      Keeps-and (Healthy-Keeps sample)
        (Keeps-and (Bare-Keeps sample) (IsSpecimen-Keeps sample sample_registered))

  new_trainer-IsSound :
      (id name : String) (opts : NewTrainerOptions)
      → IsSound (new_trainer F id name sample_registry opts)
  unfolding new_trainer
  new_trainer-IsSound id name opts =
      let (ok, one) =
        starter_team-All F _ (or_else 1 opts.starter_id) (or_else 5 opts.starter_level) refl in
      record {
        roster = record { team_le = omega (arith, one); box_le = omega arith };
        everybody = record { team = ok; box = tt };
      }

  -- A new trainer of the sample roster can be left to the agent, in any world and with any options,
  -- for any number of ticks: they all return. Afterwards the party has at most 4 members and the box at
  -- most 6, and every monster has at most its maximum of hit points, exactly the stats of its species
  -- at its level, and no cached moves.
  pub new_trainer_runs :
      (world : World F) (engine_opts : EngineOptions F) (id name : String)
      (opts : NewTrainerOptions) (rng : Option Rng) (k : ℕ)
      → (e' : Engine F) × (run_ticks world sample engine_opts k
            (new_engine (new_trainer F id name sample_registry opts) rng)
          ≡ some e')
        × IsSound e'.trainer
  unfolding new_engine
  new_trainer_runs world engine_opts id name opts rng k =
      let start = new_trainer-IsSound id name opts in
      let (e', runs, r, h) =
        run_ticks_keeps world sample engine_opts IsSound-Keeps k
          (new_engine (new_trainer F id name sample_registry opts) rng) start.roster
          start.everybody in
      (e', runs, record { roster = r; everybody = h })

-- A gift joins a party that is not full and otherwise the box, which it may overfill.
pub give_monster_lem :
    {F : Type 0} (t : Trainer F) (mon : MonsterInstance F)
    → length t.team ≤ party_size
    → (length (give_monster t mon).team ≤ party_size)
      × (length (give_monster t mon).team + length (give_monster t mon).box
          ≡ length t.team + length t.box + 1)
      × ((length t.team < party_size) ⊎ (length (give_monster t mon).box ≡ length t.box + 1))
unfolding give_monster
give_monster_lem t mon h =
    ground (arith, length-append t.team (mon ∷ []), length-append t.box (mon ∷ []))
