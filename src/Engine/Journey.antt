-- ===== src/Engine/Journey.antt =====
-- src/engine.ts: journeys over several towns.
use pokeage.Prelude.{
  ℕ, suc, ◌+◌, ◌≤◌, ◌≡◌, ◌∙◌, inl, inr, refl, ap, sym, subst, arith, true, false, Option, some,
  List, [], ◌∷◌, String, length, Bool-cases,
}
use pokeage.Num.{Num}
use pokeage.Num.Laws.{IsNum}
use pokeage.Types.{MonsterTemplate, Town}
use pokeage.Team.{is_off}
use pokeage.Engine.State.{World, Engine, EngineOptions, given, heal_team, move_to_town, town_by_id}
use pokeage.Engine.Travel.{
  may_leave, may_enter, CanStand, tired, tired-heal_team, tired-move_to_town, can_stand-heal,
  tick_moves, tick_heals,
}
use pokeage.Offline.{run_ticks}

module _ {F : Type 0} (world : World F) (badges : List String) where
  -- From each town of the path the badges open the way to the next.
  abbrev pub Way : Town → List Town → Type 0
  Way t [] = Unit
  Way t (u ∷ us) =
      (given t.next_town ≡ some u.id)
      × (town_by_id world u.id ≡ some u)
      × (may_leave t badges ≡ true)
      × (may_enter u badges ≡ true)
      × Way u us

abbrev pub last_of : Town → List Town → Town
last_of t [] = t
last_of t (u ∷ us) = last_of u us

-- What a traveller needs: somebody who can be healed, and leave to move.
pub record IsTraveller {F : Type 0} ⦃n : Num F⦄ (badges : List String) (e : Engine F) : Type 0 where
  pub can_stand : CanStand e
  pub moves : is_off e.trainer.strategy.auto_move ≡ false
  pub holds : e.trainer.badges ≡ badges

module _ {F : Type 0} ⦃n : Num F⦄ (badges : List String) where
  move_to_town-IsTraveller :
      (u : Town) (e : Engine F) → IsTraveller badges e → IsTraveller badges (move_to_town u e)
  unfolding move_to_town heal_team
  move_to_town-IsTraveller u e t = record {
    can_stand = can_stand-heal e.trainer.team ∙ t.can_stand;
    moves = t.moves;
    holds = t.holds;
  }

  heal_team-IsTraveller : (e : Engine F) → IsTraveller badges e → IsTraveller badges (heal_team e)
  unfolding heal_team
  heal_team-IsTraveller e t = record {
    can_stand = can_stand-heal e.trainer.team ∙ t.can_stand;
    moves = t.moves;
    holds = t.holds;
  }

location-move_to_town :
    {F : Type 0} (u : Town) (e : Engine F) → (move_to_town u e).trainer.location ≡ u.id
unfolding move_to_town heal_team
location-move_to_town u e = refl

location-heal_team :
    {F : Type 0} (e : Engine F) → (heal_team e).trainer.location ≡ e.trainer.location
unfolding heal_team
location-heal_team e = refl

module _ {F : Type 0} ⦃n : Num F⦄ (laws : IsNum F) (world : World F)
    (get_template : ℕ → Option MonsterTemplate) (opts : EngineOptions F)
    (badges : List String) where
  -- One town a tick for an agent that is not tired.
  walks :
      (us : List Town) (t : Town) (e : Engine F)
      → Way world badges t us
      → town_by_id world e.trainer.location ≡ some t
      → e.trainer.location ≡ t.id
      → tired e ≡ false
      → IsTraveller badges e
      → (e' : Engine F) × (run_ticks world get_template opts (length us) e ≡ some e')
        × (e'.trainer.location ≡ (last_of t us).id)
  unfolding run_ticks
  walks [] t e way here at fit traveller = (e, refl, at)
  walks (u ∷ us) t e (next, there, leave, enter, way) here at fit traveller =
      let same = traveller.holds in
      let (result, moved) =
        tick_moves world get_template opts t u e here fit traveller.moves
          (subst (λ b. may_leave t b ≡ true) (sym same) leave) next there
          (subst (λ b. may_enter u b ≡ true) (sym same) enter) in
      let (e', rest, arrived) =
        walks us u (move_to_town u e) way
          (ap (town_by_id world) (location-move_to_town u e) ∙ there) (location-move_to_town u e)
          (tired-move_to_town laws u e traveller.can_stand)
          (move_to_town-IsTraveller badges u e traveller) in
      (e', rw (moved, run_ticks) rest, arrived)

  -- An agent with the badges for a path, with a party that can be healed and with leave to move, is at
  -- the end of the path after as many ticks as the path has steps, or one more if it is tired first.
  pub journey :
      (us : List Town) (t : Town) (e : Engine F)
      → Way world badges t us
      → town_by_id world e.trainer.location ≡ some t
      → e.trainer.location ≡ t.id
      → IsTraveller badges e
      → (k : ℕ) × (k ≤ length us + 1)
        × (e' : Engine F) × (run_ticks world get_template opts k e ≡ some e')
        × (e'.trainer.location ≡ (last_of t us).id)
  unfolding run_ticks
  journey us t e way here at traveller = elim (Bool-cases (tired e)) [
    | inr fit ↦
        let (e', runs, arrived) = walks us t e way here at fit traveller in
        (length us, omega arith, e', runs, arrived)
    | inl weary ↦
        let (result, healed) = tick_heals world get_template opts t e here weary in
        let (e', runs, arrived) =
          walks us t (heal_team e) way (ap (town_by_id world) (location-heal_team e) ∙ here)
            (location-heal_team e ∙ at) (tired-heal_team laws e traveller.can_stand)
            (heal_team-IsTraveller badges e traveller) in
        (suc (length us), omega arith, e', rw (healed, run_ticks) runs, arrived)
  ]
