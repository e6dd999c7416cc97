-- ===== src/Trainers/Teams.antt =====
-- src/trainers.ts: the teams of `buildTeam`.
use mathlib.Core.List.{Memᴰ}
use pokeage.Prelude.{
  ℕ, zero, suc, ◌+◌, ◌-◌, ◌*◌, ◌≤◌, ◌<◌, ◌≡◌, ◌⊎◌, ◌∙◌, ap, inl, inr, refl, arith, max, Bool, true,
  false, not, ◌&&◌, some, List, [], ◌∷◌, ◌++◌, length, length-append, map, All, All-append, ltb,
  ◌==◌, if◌then◌else◌, Bool-cases, Option-cases, get_elem?-Memᴰ, keep_if-Memᴰ, map-snoc,
}
use pokeage.Num.{Num}
use pokeage.Types.{MonsterTemplate, MonsterInstance}
use pokeage.Rng.{Rng, pick, int}
use pokeage.Rng.Range.{int_bounds}
use pokeage.Stats.{create_monster_instance}
use pokeage.Encounter.{is_legendary}
use pokeage.Data.Monsters.{Registry}
use pokeage.Save.{or_else}
use pokeage.Trainers.{OpponentOptions, has_id, pool_of, level_near, build_loop, build_team}

-- No id stands twice.
abbrev pub distinct_ids : List ℕ → Bool
distinct_ids [] = true
distinct_ids (x ∷ xs) = not (has_id xs x) && distinct_ids xs

has_id-append :
    (xs : List ℕ) (x y : ℕ)
    → has_id xs y ≡ false
    → (x == y) ≡ false
    → has_id (xs ++ (x ∷ [])) y ≡ false
has_id-append [] x y h k = ground arith
has_id-append (z ∷ zs) x y h k = ground (arith, has_id-append zs x y)

distinct_ids-append :
    (xs : List ℕ) (x : ℕ)
    → distinct_ids xs ≡ true
    → has_id xs x ≡ false
    → distinct_ids (xs ++ (x ∷ [])) ≡ true
distinct_ids-append [] x h k = refl
distinct_ids-append (y ∷ ys) x h k = ground (arith, has_id-append ys x y, distinct_ids-append ys x)

pick-Memᴰ :
    (pool : List MonsterTemplate) (rng : Rng) {tpl : MonsterTemplate}
    → (pick pool rng).0 ≡ some tpl
    → Memᴰ tpl pool
unfolding pick
pick-Memᴰ pool rng e = get_elem?-Memᴰ pool _ e

tame_cases :
    (exclude b : Bool) → (if exclude then not b else true) ≡ true → (exclude ≡ false) ⊎ (b ≡ false)
tame_cases exclude b h = ground arith

pool_of-Memᴰ :
    (registry : Registry) (exclude : Bool) (t : MonsterTemplate)
    → Memᴰ t (pool_of registry exclude)
    → Memᴰ t registry.all × ((exclude ≡ false) ⊎ (is_legendary (some t) ≡ false))
pool_of-Memᴰ registry exclude t m =
    let (mem, ok) = keep_if-Memᴰ _ registry.all m in (mem, tame_cases exclude _ ok)

module _ {F : Type 0} ⦃n : Num F⦄ where
  -- A fresh instance of a species of the registry, which is not legendary if those are left out, within
  -- the spread of the level, and at least at level 2.
  pub record IsRival (registry : Registry) (exclude : Bool) (level spread : ℕ)
      (m : MonsterInstance F) : Type 0 where
    pub template : MonsterTemplate
    pub drawn : Memᴰ template registry.all
    pub tame : (exclude ≡ false) ⊎ (is_legendary (some template) ≡ false)
    pub made : m ≡ create_monster_instance F template m.level
    pub least : 2 ≤ m.level
    pub low : level - spread ≤ m.level
    pub high : m.level ≤ max 2 (level + spread)

  -- The team that the loop has built so far.
  record IsTeam (registry : Registry) (exclude : Bool) (size level spread : ℕ)
      (team : List (MonsterInstance F)) (used : List ℕ) : Type 0 where
    ids : map (λ m. m.template_id) team ≡ used
    once : distinct_ids used ≡ true
    bounded : length team ≤ size
    rivals : All (IsRival registry exclude level spread) team

  create-IsRival :
      (registry : Registry) (exclude : Bool) (level spread roll : ℕ) (tpl : MonsterTemplate)
      → Memᴰ tpl (pool_of registry exclude)
      → roll ≤ 2 * spread
      → IsRival registry exclude level spread
          (create_monster_instance F tpl (level_near F level spread roll))
  unfolding create_monster_instance
  create-IsRival registry exclude level spread roll tpl m h = record {
    template = tpl;
    drawn = (pool_of-Memᴰ registry exclude tpl m).0;
    tame = (pool_of-Memᴰ registry exclude tpl m).1;
    made = refl;
    least = omega arith;
    low = omega (arith, h);
    high = omega (arith, h);
  }

  snoc-IsTeam :
      (registry : Registry) (exclude : Bool) (size level spread : ℕ)
      (team : List (MonsterInstance F)) (used : List ℕ) (roll : ℕ) (tpl : MonsterTemplate)
      → IsTeam registry exclude size level spread team used
      → length team < size
      → Memᴰ tpl (pool_of registry exclude)
      → roll ≤ 2 * spread
      → has_id used tpl.id ≡ false
      → IsTeam registry exclude size level spread
          (team ++ (create_monster_instance F tpl (level_near F level spread roll) ∷ []))
          (used ++ (tpl.id ∷ []))
  unfolding create_monster_instance
  snoc-IsTeam registry exclude size level spread team used roll tpl t room m h new =
      let mon = create_monster_instance F tpl (level_near F level spread roll) in
      record {
        ids = map-snoc (λ m. m.template_id) team mon ∙ ap (λ ids. ids ++ (tpl.id ∷ [])) t.ids;
        once = distinct_ids-append used tpl.id t.once new;
        bounded = omega (arith, length-append team (mon ∷ []), room);
        rivals =
            All-append _ team (mon ∷ []) t.rivals
              (create-IsRival registry exclude level spread roll tpl m h, tt);
      }

  build_loop-IsTeam :
      (registry : Registry) (exclude : Bool) (left size level spread : ℕ)
      (team : List (MonsterInstance F)) (used : List ℕ) (rng : Rng)
      → IsTeam registry exclude size level spread team used
      → (used' : List ℕ) × IsTeam registry exclude size level spread
          (build_loop F left size level spread (pool_of registry exclude) team used rng).0
          used'
  unfolding build_loop
  build_loop-IsTeam registry exclude zero size level spread team used rng t = (used, t)
  build_loop-IsTeam registry exclude (suc left) size level spread team used rng t =
      let rng' = (pick (pool_of registry exclude) rng).1 in
      let (roll, rng'') = int 0 (2 * spread) rng' in
      elim (Bool-cases (ltb (length team) size)) [
        | inr full ↦ rw (full, build_loop) (used, t)
        | inl room ↦
            rw (room, build_loop)
              (elim (Option-cases (pick (pool_of registry exclude) rng).0) [
                | inl nothing ↦ rw nothing (used, t)
                | inr (tpl, picked) ↦ rw picked (elim (Bool-cases (has_id used tpl.id)) [
                  | inl seen ↦
                      rw seen
                        (build_loop-IsTeam registry exclude left size level spread team used rng' t)
                  | inr new ↦ rw new (
                      build_loop-IsTeam registry exclude left size level spread _ _ rng'' (
                        snoc-IsTeam registry exclude size level spread team used roll tpl t
                          (ground arith) (pick-Memᴰ (pool_of registry exclude) rng picked)
                          (omega (arith, int_bounds 0 (2 * spread) rng')) new))
                ])
              ])
      ]

-- An opponent's team has at most the size asked for, and no species twice. Each member is a fresh
-- instance of a species of the registry, at a level within the spread of the level asked for, or at
-- the least level 2, and none is legendary unless those are let in.
pub build_team_lem :
    (F : Type 0) ⦃n : Num F⦄ (registry : Registry) (level : ℕ) (opts : OpponentOptions) (rng : Rng)
    → let team = (build_team F registry level opts rng).0 in
      (length team ≤ or_else 3 opts.team_size)
      × (distinct_ids (map (λ m. m.template_id) team) ≡ true)
      × All
          (IsRival registry
            (or_else true opts.exclude_legendary)
            level
            (or_else 2 opts.level_spread))
          team
unfolding build_team
build_team_lem F registry level opts rng =
    let exclude = or_else true opts.exclude_legendary in
    let size = or_else 3 opts.team_size in
    let spread = or_else 2 opts.level_spread in
    elim (Bool-cases (length (pool_of registry exclude) == 0)) [
      | inl empty ↦ rw empty (omega arith, refl, tt)
      | inr some_left ↦
          let (used, t) =
            build_loop-IsTeam registry exclude (size * 8) size level spread [] [] rng
              (record { ids = refl; once = refl; bounded = omega arith; rivals = tt }) in
          rw some_left (t.bounded, rw t.ids t.once, t.rivals)
    ]
