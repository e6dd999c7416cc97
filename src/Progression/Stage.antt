-- ===== src/Progression/Stage.antt =====
-- src/progression.ts and src/stats.ts: evolution by leveling against `stageForLevel`.
use pokeage.Prelude.{
  ℕ, ◌+◌, ◌≤◌, ◌<◌, ◌≡◌, ◌⊎◌, arith, ◌&&◌, Option, none, some, if◌then◌else◌, ◌==◌,
}
use pokeage.Num.{Num}
use pokeage.Types.{MonsterTemplate, MonsterInstance}
use pokeage.Constants.{max_level}
use pokeage.Stats.{reaches, stage_for_level}
use pokeage.Progression.{evolve_at, level_up, grant_xp}
use pokeage.Progression.Level.{grant_loop_inv}

-- An evolution line: the second evolution has a first one, at a lower level.
abbrev pub IsLine : Option ℕ → Option ℕ → Type 0
IsLine ev1 none = Unit
IsLine none (some b) = b ≡ 0
IsLine (some a) (some b) = (b ≡ 0) ⊎ ((0 < a) × (a < b))

abbrev stage_at : Option ℕ → Option ℕ → ℕ → ℕ
stage_at ev1 ev2 level = if reaches ev2 level then 2 else if reaches ev1 level then 1 else 0

-- The stage after the evolution test at the next level.
abbrev stage_next : Option ℕ → Option ℕ → ℕ → ℕ → ℕ
stage_next ev1 ev2 stage level =
    if stage == 0 && reaches ev1 level
    then 1
    else if stage == 1 && reaches ev2 level
    then 2
    else stage

stage_next-stage_at :
    (ev1 ev2 : Option ℕ) (level : ℕ)
    → IsLine ev1 ev2
    → stage_next ev1 ev2 (stage_at ev1 ev2 level) (level + 1) ≡ stage_at ev1 ev2 (level + 1)
stage_next-stage_at none none level h = ground arith
stage_next-stage_at (some a) none level h = ground arith
stage_next-stage_at none (some b) level h = ground arith
stage_next-stage_at (some a) (some b) level h = ground arith

module _ (F : Type 0) ⦃n : Num F⦄ where
  -- The monster carries its species' evolution levels and is at the stage of its level.
  pub record IsStaged (template : MonsterTemplate) (m : MonsterInstance F) : Type 0 where
    pub same_ev1 : m.ev1 ≡ template.ev1
    pub same_ev2 : m.ev2 ≡ template.ev2
    pub staged : m.stage ≡ stage_for_level template m.level

  round-IsStaged :
      (template : MonsterTemplate) (m : MonsterInstance F)
      → IsLine template.ev1 template.ev2
      → IsStaged template m
      → IsStaged template (evolve_at F (level_up F template m)).0
  unfolding evolve_at level_up stage_for_level
  round-IsStaged template m line s =
      ground (arith, stage_next-stage_at template.ev1 template.ev2 m.level line)

  -- For a proper evolution line, leveling one by one ends at the stage that `stageForLevel` gives for
  -- the level reached, as `createMonsterInstance` starts.
  pub grant_xp-IsStaged :
      (mon : MonsterInstance F) (amount : ℕ) (template : MonsterTemplate)
      → IsLine template.ev1 template.ev2
      → IsStaged template mon
      → IsStaged template (grant_xp F mon amount template).0
  unfolding grant_xp
  grant_xp-IsStaged mon amount template line s =
      grant_loop_inv F (IsStaged template) template (λ m more k. round-IsStaged template m line k)
        max_level (record mon { xp = mon.xp + amount })
        (record { same_ev1 = s.same_ev1; same_ev2 = s.same_ev2; staged = s.staged })

  -- A species with a second evolution level and no first one, as the middle species of the sample
  -- roster are: leveling leaves its monsters at stage 0 for ever, while `stageForLevel` puts the
  -- same species at stage 2 from that level on.
  pub grant_xp_stuck :
      (mon : MonsterInstance F) (amount : ℕ) (template : MonsterTemplate) (ev level : ℕ)
      → mon.ev1 ≡ none
      → mon.stage ≡ 0
      → template.ev2 ≡ some ev
      → 0 < ev
      → ev ≤ level
      → ((grant_xp F mon amount template).0.stage ≡ 0) × (stage_for_level template level ≡ 2)
  unfolding grant_xp evolve_at level_up stage_for_level
  grant_xp_stuck mon amount template ev level h k e p q = (
    (grant_loop_inv F (λ m. (m.ev1 ≡ none) × (m.stage ≡ 0)) template (λ m more g. ground arith)
        max_level (record mon { xp = mon.xp + amount }) (h, k)).1,
    ground arith,
  )
