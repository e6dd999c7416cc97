-- ===== src/Engine/Step.antt =====
-- src/engine.ts: a tick as a step from trainer to trainer, for travel and for a gym.
use pokeage.Prelude.{
  ℕ, ◌+◌, ◌≤◌, ◌≡◌, ◌⊎◌, inl, inr, refl, arith, Bool, true, false, Option, some, List, [], ◌∷◌,
  ◌++◌, String, map, take, keep_if, Bool-cases,
}
use pokeage.Num.{Num}
use pokeage.Types.{MonsterTemplate, MonsterInstance, Gym, Town, Trainer, Action, AgentState}
use pokeage.Team.Place.{IsRoster}
use pokeage.Battle.Leaders.{simulate_gym_total}
use pokeage.Engine.State.{Engine, EngineOptions, has_badge, is_up, move_to_town}
use pokeage.Engine.Rewards.{reward_member}
use pokeage.Engine.Challenge.{after_win, after_loss, do_gym_challenge}
use pokeage.Engine.Roster.{Hunts, heal_team-Hunts, length-write_back}
use pokeage.Engine.Health.{
  Lasts, Everybody, All-write_back, All-keep_if, All-take, All-Worn, heal_team-Everybody,
}
use pokeage.Engine.Fit.{Keeps, All-reward}
use pokeage.Prelude.{All}

-- 1 for a tick that caught a monster.
abbrev pub catches_of : Action → ℕ
catches_of Action.caught = 1
catches_of _ = 0

-- The badges after a tick: as before, or one more that was not there.
abbrev pub Badges : List String → List String → Type 0
Badges before after =
    (after ≡ before)
    ⊎ ((badge : String) × (after ≡ before ++ (badge ∷ [])) × (has_badge badge before ≡ false))

-- What a tick with this action may do to the trainer's record: it catches a monster exactly if it
-- says so, and only in a battle; it counts at most one battle, uses at most one ball and wins at
-- most one badge, a new one.
pub record Progress {F : Type 0} (action : Action) (t t' : Trainer F) : Type 0 where
  pub caught : t'.total_caught ≡ t.total_caught + catches_of action
  pub caught_in_battle : t.total_battles + catches_of action ≤ t'.total_battles
  pub one_battle : t'.total_battles ≤ t.total_battles + 1
  pub one_ball : t.ball ≤ t'.ball + 1
  pub badges : Badges t.badges t'.badges

pub record Step {F : Type 0} (P : MonsterInstance F → Type 0) (action : Action) (t t' : Trainer F)
    : Type 0 where
  pub progress : Progress action t t'
  pub roster : IsRoster t → IsRoster t'
  pub fit : Everybody P t → Everybody P t'

pub Step-Hunts :
    {F : Type 0} {P : MonsterInstance F → Type 0} (action : Action) (k : ℕ) (t t' : Trainer F)
    → k ≡ catches_of action
    → Hunts k t t'
    → (Everybody P t → Everybody P t')
    → Step P action t t'
Step-Hunts action k t t' e h f = record {
  progress = record {
    caught = omega (arith, h.caught);
    caught_in_battle = omega (arith, h.battles);
    one_battle = omega (arith, h.battles);
    one_ball = omega (arith, h.ball);
    badges = inl h.badges;
  };
  roster = h.roster;
  fit = f;
}

pub move_to_town-Step :
    {F : Type 0} {P : MonsterInstance F → Type 0} (town : Town) (e : Engine F)
    → Lasts P
    → Step P Action.move e.trainer (move_to_town town e).trainer
unfolding move_to_town
move_to_town-Step {F} town e lasts =
    let moved : Engine F = record e {
      state = AgentState.moving;
      trainer = record e.trainer { location = town.id };
    } in
    let h = heal_team-Hunts moved in
    record {
      progress = record {
        caught = omega (arith, h.caught);
        caught_in_battle = omega (arith, h.battles);
        one_battle = omega (arith, h.battles);
        one_ball = omega (arith, h.ball);
        badges = inl h.badges;
      };
      roster = λ r. h.roster (record { team_le = r.team_le; box_le = r.box_le });
      fit = λ f.
          let healed = heal_team-Everybody moved lasts (record { team = f.team; box = f.box }) in
          record { team = healed.team; box = healed.box };
    }

module _ {F : Type 0} ⦃n : Num F⦄ (get_template : ℕ → Option MonsterTemplate)
    (opts : EngineOptions F) {P : MonsterInstance F → Type 0} (keeps : Keeps get_template P) where
  -- The challenge returns, and its trainer is a step away.
  pub do_gym_challenge-Step :
      (gym : Gym) (e : Engine F)
      → has_badge gym.badge e.trainer.badges ≡ false
      → (won : Bool) × (e' : Engine F) × (do_gym_challenge get_template opts gym e ≡ some (won, e'))
        × Step P Action.gym e.trainer e'.trainer
  unfolding do_gym_challenge
  do_gym_challenge-Step gym e new =
      let t = e.trainer in
      let (result, rng, returns, _, _, _, _, worn) =
        simulate_gym_total (take 4 (keep_if is_up t.team)) gym.team get_template e.rng in
      let hurt : Everybody P t → All P result.party = λ f.
        All-Worn (take 4 (keep_if is_up t.team)) result.party keeps.lasts worn
          (All-take P 4 _ (All-keep_if P is_up t.team f.team)) in
      elim (Bool-cases result.won) [
        | inl won ↦ (
          true,
          after_win get_template opts gym result rng e,
          rw (returns, do_gym_challenge) (rw won refl),
          record {
            progress = record {
              caught = omega arith;
              caught_in_battle = omega arith;
              one_battle = omega arith;
              one_ball = omega arith;
              badges = inr (gym.badge, refl, new);
            };
            roster = λ h. record {
              team_le = omega (
                arith,
                h.team_le,
                length-write_back t.team (map (reward_member get_template opts gym) result.party),
              );
              box_le = h.box_le;
            };
            fit = λ f. record {
              team =
                  All-write_back P t.team _ f.team
                    (All-reward get_template opts keeps gym result.party (hurt f));
              box = f.box;
            };
          },
        )
        | inr lost ↦ (
          false,
          after_loss get_template opts result rng e,
          rw (returns, do_gym_challenge) (rw lost refl),
          record {
            progress = record {
              caught = omega arith;
              caught_in_battle = omega arith;
              one_battle = omega arith;
              one_ball = omega arith;
              badges = inl refl;
            };
            roster = λ h. record {
              team_le = omega (arith, h.team_le, length-write_back t.team result.party);
              box_le = h.box_le;
            };
            fit = λ f. record { team = All-write_back P t.team _ f.team (hurt f); box = f.box };
          },
        )
      ]
