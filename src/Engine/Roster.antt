-- ===== src/Engine/Roster.antt =====
-- src/engine.ts: what the steps of a tick do to the trainer.
use pokeage.Prelude.{
  ℕ, ◌+◌, ◌-◌, ◌≤◌, ◌≡◌, inl, inr, refl, arith, Bool, true, false, Option, none, some, List, [],
  ◌∷◌, length, set, Bool-cases, length-map, length-set,
}
use pokeage.Num.{Num}
use pokeage.Types.{MonsterTemplate, MonsterInstance, Trainer}
use pokeage.Rng.{Rng}
use pokeage.Team.{place_new_monster, should_catch}
use pokeage.Team.Place.{IsRoster, place_new_monster-IsRoster}
use pokeage.Rng.{chance}
use pokeage.Catch.{attempt_catch, catch_rate}
use pokeage.Battle.{simulate_auto}
use pokeage.Engine.Rewards.{reward_lead}
use pokeage.Engine.State.{Engine, EngineOptions, heal_team, write_back}
use pokeage.Engine.Wild.{throw_ball, fight_wild}

-- 1 for an encounter that caught its wild.
abbrev pub catches : Option Bool → ℕ
catches (some true) = 1
catches _ = 0

catches_le : (o : Option Bool) → catches o ≤ 1
catches_le none = omega arith
catches_le (some true) = omega arith
catches_le (some false) = omega arith

-- A hunt from `t` to `t'` with `k` catches.
pub record Hunts {F : Type 0} (k : ℕ) (t t' : Trainer F) : Type 0 where
  pub roster : IsRoster t → IsRoster t'
  pub caught : t'.total_caught ≡ t.total_caught + k
  pub battles : (t.total_battles + k ≤ t'.total_battles) × (t'.total_battles ≤ t.total_battles + 1)
  pub badges : t'.badges ≡ t.badges
  pub location : t'.location ≡ t.location
  pub ball : (t'.ball ≤ t.ball) × (t.ball ≤ t'.ball + 1)

-- A throw: it catches at most once and uses at most one ball.
record Throws {F : Type 0} (k : ℕ) (t t' : Trainer F) : Type 0 where
  roster : IsRoster t → IsRoster t'
  caught : t'.total_caught ≡ t.total_caught + k
  battles : t'.total_battles ≡ t.total_battles
  badges : t'.badges ≡ t.badges
  location : t'.location ≡ t.location
  ball : (t'.ball ≤ t.ball) × (t.ball ≤ t'.ball + 1)

module _ {F : Type 0} where
  pub length-write_back : (ms ps : List (MonsterInstance F)) → length (write_back ms ps) ≡ length ms
  unfolding write_back
  length-write_back [] ps = refl
  length-write_back (m ∷ ms) [] = refl
  length-write_back (m ∷ ms) (p ∷ ps) =
      ground (arith, length-write_back ms ps, length-write_back ms (p ∷ ps))

  place_new_monster_rest :
      (t : Trainer F) (new : MonsterInstance F)
      → let t' = (place_new_monster t new).0 in
        (t'.total_caught ≡ t.total_caught)
        × (t'.total_battles ≡ t.total_battles)
        × (t'.badges ≡ t.badges)
        × (t'.ball ≡ t.ball)
        × (t'.location ≡ t.location)
  unfolding place_new_monster
  place_new_monster_rest t new = ground arith

  pub heal_team-Hunts : (e : Engine F) → Hunts 0 e.trainer (heal_team e).trainer
  unfolding heal_team
  heal_team-Hunts e = record {
    roster = λ h. record {
      team_le =
          omega (
            arith,
            h.team_le,
            length-map e.trainer.team (λ m. record m { current_hp = m.stats.hp }),
          );
      box_le = h.box_le;
    };
    caught = omega arith;
    battles = (omega arith, omega arith);
    badges = refl;
    location = refl;
    ball = (omega arith, omega arith);
  }

  pub stays : (t : Trainer F) → Hunts 0 t t
  stays t = record {
    roster = λ h. h;
    caught = omega arith;
    battles = (omega arith, omega arith);
    badges = refl;
    location = refl;
    ball = (omega arith, omega arith);
  }

module _ {F : Type 0} ⦃n : Num F⦄ where
  throw_ball-Throws :
      (t : Trainer F) (wild : MonsterInstance F) (rng : Rng)
      → let (caught, t', rng') = throw_ball t wild rng in Throws (catches (some caught)) t t'
  unfolding throw_ball attempt_catch
  throw_ball-Throws t wild rng =
      let used : Trainer F = record t { ball = t.ball - 1 } in
      let rest = place_new_monster_rest used wild in
      elim (Bool-cases (should_catch t wild)) [
        | inl wanted ↦ rw wanted (elim (Bool-cases (chance (catch_rate wild (n.of_ℕ 1)) rng).0) [
          | inl hit ↦ rw hit (record {
            roster = λ h. record {
              team_le =
                  (place_new_monster-IsRoster used wild
                    (record { team_le = h.team_le; box_le = h.box_le })).team_le;
              box_le =
                  (place_new_monster-IsRoster used wild
                    (record { team_le = h.team_le; box_le = h.box_le })).box_le;
            };
            caught = omega (arith, rest);
            battles = omega (arith, rest);
            badges = rest.2;
            location = rest.4;
            ball = (omega (arith, rest), omega (arith, rest));
          })
          | inr miss ↦ rw miss (record {
            roster = λ h. record { team_le = h.team_le; box_le = h.box_le };
            caught = omega arith;
            battles = refl;
            badges = refl;
            location = refl;
            ball = (omega arith, omega arith);
          })
        ])
        | inr unwanted ↦ rw unwanted (record {
          roster = λ h. h;
          caught = omega arith;
          battles = refl;
          badges = refl;
          location = refl;
          ball = (omega arith, omega arith);
        })
      ]

  pub fight_wild-Hunts :
      (get_template : ℕ → Option MonsterTemplate) (opts : EngineOptions F) (i : ℕ)
      (lead wild : MonsterInstance F) (e : Engine F)
      → let (enc, e') = fight_wild get_template opts i lead wild e in
        Hunts (catches enc.caught) e.trainer e'.trainer
  unfolding fight_wild
  fight_wild-Hunts get_template opts i lead wild e =
      let (result, rng) = simulate_auto lead wild e.rng in
      let hurt : MonsterInstance F = record lead { current_hp = result.hp_remaining } in
      let paid = (reward_lead get_template opts hurt wild.level).0 in
      let team = e.trainer.team in
      let won_t : Trainer F = record e.trainer {
        team = set team i paid;
        total_battles = e.trainer.total_battles + 1;
      } in
      let thrown = throw_ball-Throws won_t wild rng in
      elim (Bool-cases result.won) [
        | inl won ↦ rw won (record {
          roster = λ h. thrown.roster (record {
            team_le = omega (arith, h.team_le, length-set team i paid);
            box_le = h.box_le;
          });
          caught = thrown.caught;
          battles = (
            omega (arith, thrown.battles, catches_le (some (throw_ball won_t wild rng).0)),
            omega (arith, thrown.battles),
          );
          badges = thrown.badges;
          location = thrown.location;
          ball = thrown.ball;
        })
        | inr lost ↦ rw lost (record {
          roster = λ h. record {
            team_le = omega (arith, h.team_le, length-set team i hurt);
            box_le = h.box_le;
          };
          caught = omega arith;
          battles = (omega arith, omega arith);
          badges = refl;
          location = refl;
          ball = (omega arith, omega arith);
        })
      ]
