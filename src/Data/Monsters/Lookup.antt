-- ===== src/Data/Monsters/Lookup.antt =====
-- src/data/monsters.ts: the registry's index.
use mathlib.Core.List.{Memᴰ}
use pokeage.Prelude.{
  ℕ, ◌≡◌, ◌⊎◌, inl, inr, ◌↔◌, refl, subst, ◌∙◌, arith, Bool, true, not, ◌&&◌, Option, none, some,
  List, [], ◌∷◌, all, foldl, ◌==◌, Bool-cases,
}
use pokeage.Types.{MonsterTemplate}
use pokeage.Data.Monsters.{set_entry, create_registry}

-- No entry has this id.
abbrev pub lacks : ℕ → List MonsterTemplate → Bool
lacks id = all (λ t. not (t.id == id))

-- The ids are all different.
abbrev pub distinct : List MonsterTemplate → Bool
distinct [] = true
distinct (t ∷ ts) = lacks t.id ts && distinct ts

foldl-set_entry-lacks :
    (id : ℕ) (roster : List MonsterTemplate) (index : ℕ → Option MonsterTemplate)
    → lacks id roster ≡ true
    → foldl set_entry index roster id ≡ index id
foldl-set_entry-lacks id [] index h = refl
foldl-set_entry-lacks id (t ∷ ts) index h =
    foldl-set_entry-lacks id ts (set_entry index t) (ground arith) ∙ ground arith

lacks-Memᴰ :
    (id : ℕ) (t : MonsterTemplate) (roster : List MonsterTemplate)
    → lacks id roster ≡ true
    → Memᴰ t roster
    → (t.id == id) ≡ not true
lacks-Memᴰ id t [] h m = elim m [ ]
lacks-Memᴰ id t (u ∷ us) h (Memᴰ.head e) = rw e (ground arith)
lacks-Memᴰ id t (u ∷ us) h (Memᴰ.tail m) = lacks-Memᴰ id t us (ground arith) m

foldl-set_entry-Memᴰ :
    (t : MonsterTemplate) (roster : List MonsterTemplate) (index : ℕ → Option MonsterTemplate)
    → distinct roster ≡ true
    → Memᴰ t roster
    → foldl set_entry index roster t.id ≡ some t
foldl-set_entry-Memᴰ t [] index h m = elim m [ ]
foldl-set_entry-Memᴰ t (u ∷ us) index h (Memᴰ.head e) =
    rw e (foldl-set_entry-lacks u.id us (set_entry index u) (ground arith) ∙ ground arith)
foldl-set_entry-Memᴰ t (u ∷ us) index h (Memᴰ.tail m) =
    foldl-set_entry-Memᴰ t us (set_entry index u) (ground arith) m

foldl-set_entry-some :
    (id : ℕ) (t : MonsterTemplate) (roster : List MonsterTemplate)
    (index : ℕ → Option MonsterTemplate)
    → foldl set_entry index roster id ≡ some t
    → (Memᴰ t roster × (t.id ≡ id)) ⊎ (index id ≡ some t)
foldl-set_entry-some id t [] index e = inr e
foldl-set_entry-some id t (u ∷ us) index e =
    elim (foldl-set_entry-some id t us (set_entry index u) e) [
      | inl (m, same) ↦ inl (Memᴰ.tail m, same)
      | inr found ↦ elim (Bool-cases (id == u.id)) [
        | inl hit ↦ inl (Memᴰ.head (cc (hit)), ground arith)
        | inr miss ↦ inr (ground arith)
      ]
    ]

-- Over a roster of different ids, the registry finds exactly the entry that has the id.
pub get_monster_by_id_iff :
    (roster : List MonsterTemplate) (id : ℕ) (t : MonsterTemplate)
    → distinct roster ≡ true
    → ((create_registry roster).get_monster_by_id id ≡ some t) ↔ (Memᴰ t roster × (t.id ≡ id))
unfolding create_registry
get_monster_by_id_iff roster id t h = (
  λ e. elim (foldl-set_entry-some id t roster (λ k. none) e) [
    | inl found ↦ found
    | inr none_left ↦ cc
  ],
  λ found.
      subst (λ k. foldl set_entry (λ k. none) roster k ≡ some t) found.1
        (foldl-set_entry-Memᴰ t roster (λ k. none) h found.0),
)
