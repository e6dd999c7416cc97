-- ===== src/Data/Monsters/Final.antt =====
-- src/data/monsters.ts: the evolution lines of the sample roster.
use pokeage.Prelude.{
  ℕ, ◌-◌, ◌^◌, ◌≤◌, ◌≡◌, ◌∙◌, subst, inl, inr, refl, arith, Bool, true, false, ◌&&◌, Option, none,
  some, length, get_elem?, Memᴰ, all, all-Memᴰ, leb, ◌==◌, Option-cases,
}
use pokeage.Num.{Num}
use pokeage.Num.Laws.{IsNum}
use pokeage.Types.{Stats, MonsterTemplate}
use pokeage.Typechart.{type_eq}
use pokeage.Typechart.Laws.{type_eq_iff}
use pokeage.Stats.{target_stats_for, stats_at_level}
use pokeage.Stats.Growth.{interp_stat_bounds}
use pokeage.Data.Monsters.{sample_monsters, sample_registry}
use pokeage.Data.Monsters.Lookup.{distinct}

abbrev pub sample : ℕ → Option MonsterTemplate
sample = sample_registry.get_monster_by_id

pub sample_distinct : distinct sample_monsters ≡ true
unfolding sample_monsters
sample_distinct = refl

abbrev no_more : Stats → Stats → Bool
no_more a b = leb a.hp b.hp && leb a.atk b.atk && leb a.def b.def && leb a.spd b.spd

-- The last species of the entry's line.
abbrev pub final_form : MonsterTemplate → Option MonsterTemplate
final_form t = elim t.full_line [
  | none ↦ some t
  | some line ↦ elim (get_elem? line (length line - 1)) [ none ↦ none | some id ↦ sample id ]
]

-- A stat and its target, at most 1,000.
abbrev in_order : ℕ → ℕ → Bool
in_order base target = leb base target && leb target 1000

abbrev in_order_all : Stats → Stats → Bool
in_order_all a b =
    in_order a.hp b.hp && in_order a.atk b.atk && in_order a.def b.def && in_order a.spd b.spd

abbrev same_stats : Stats → Stats → Bool
same_stats a b = (a.hp == b.hp) && (a.atk == b.atk) && (a.def == b.def) && (a.spd == b.spd)

abbrev grows_to : MonsterTemplate → Option MonsterTemplate → Bool
grows_to t none = false
grows_to t (some final) =
    in_order_all t.base (target_stats_for t)
    && same_stats (target_stats_for t) final.base
    && type_eq t.type final.type

sample_grows : all (λ t. grows_to t (final_form t)) sample_monsters ≡ true
unfolding sample_monsters sample_registry target_stats_for
sample_grows = refl

-- Every stat of `a` is at most that of `b`, which is at most 1,000.
pub record InOrder (a b : Stats) : Type 0 where
  pub hp : (a.hp ≤ b.hp) × (b.hp ≤ 1000)
  pub atk : (a.atk ≤ b.atk) × (b.atk ≤ 1000)
  pub def : (a.def ≤ b.def) × (b.def ≤ 1000)
  pub spd : (a.spd ≤ b.spd) × (b.spd ≤ 1000)

in_order_all-InOrder : (a b : Stats) → in_order_all a b ≡ true → InOrder a b
in_order_all-InOrder a b h = ground arith

same_stats_sound : (a b : Stats) → same_stats a b ≡ true → a ≡ b
same_stats_sound a b h = ground arith

pub record GrowsTo (t final : MonsterTemplate) : Type 0 where
  pub found : final_form t ≡ some final
  pub order : InOrder t.base (target_stats_for t)
  pub target : target_stats_for t ≡ final.base
  pub type : t.type ≡ final.type

grows_to_sound :
    (t final : MonsterTemplate)
    → final_form t ≡ some final
    → grows_to t (some final) ≡ true
    → GrowsTo t final
grows_to_sound t final e h = record {
  found = e;
  order = in_order_all-InOrder _ _ (ground arith);
  target = same_stats_sound _ _ (ground arith);
  type = (type_eq_iff _ _).0 (ground arith);
}

pub sample-GrowsTo :
    (t : MonsterTemplate) → Memᴰ t sample_monsters → (final : MonsterTemplate) × GrowsTo t final
sample-GrowsTo t m =
    let ok = all-Memᴰ (λ u. grows_to u (final_form u)) sample_monsters sample_grows m in
    elim (Option-cases (final_form t)) [
      | inl e ↦ absurd (cc (ok, e))
      | inr (final, e) ↦ (final, grows_to_sound t final e (subst (λ o. grows_to t o ≡ true) e ok))
    ]

module _ {F : Type 0} ⦃n : Num F⦄ (laws : IsNum F) where
  stats_at_level_one :
      (t : MonsterTemplate) → InOrder t.base (target_stats_for t) → stats_at_level F t 1 ≡ t.base
  unfolding stats_at_level
  stats_at_level_one t o =
      let b = t.base in
      let g = target_stats_for t in
      ground (
        arith,
        interp_stat_bounds laws b.hp g.hp 1,
        interp_stat_bounds laws b.atk g.atk 1,
        interp_stat_bounds laws b.def g.def 1,
        interp_stat_bounds laws b.spd g.spd 1,
      )

  stats_at_level_late :
      (t : MonsterTemplate) (level : ℕ)
      → InOrder t.base (target_stats_for t)
      → 50 ≤ level
      → level ≤ 2 ^ 53
      → stats_at_level F t level ≡ target_stats_for t
  unfolding stats_at_level
  stats_at_level_late t level o p q =
      let b = t.base in
      let g = target_stats_for t in
      ground (
        arith,
        interp_stat_bounds laws b.hp g.hp level,
        interp_stat_bounds laws b.atk g.atk level,
        interp_stat_bounds laws b.def g.def level,
        interp_stat_bounds laws b.spd g.spd level,
      )

  -- Every species of the sample roster starts at level 1 with its base stats and has, from level 50
  -- on, exactly the base stats of the last species of its line, which the registry knows and which
  -- is of the same type.
  pub sample_final :
      (t : MonsterTemplate) (level : ℕ)
      → Memᴰ t sample_monsters
      → 50 ≤ level
      → level ≤ 2 ^ 53
      → (final : MonsterTemplate) × (final_form t ≡ some final)
        × (stats_at_level F t 1 ≡ t.base)
        × (stats_at_level F t level ≡ final.base)
        × (t.type ≡ final.type)
  sample_final t level m p q =
      let (final, g) = sample-GrowsTo t m in
      (
        final,
        g.found,
        stats_at_level_one t g.order,
        stats_at_level_late t level g.order p q ∙ g.target,
        g.type,
      )
