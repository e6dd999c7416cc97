-- ===== src/Team/Place.antt =====
-- src/team.ts: the cases of a placement, and the bounds of the roster.
use native.Mathlib.Nat.{sub-zero, suc-sub-suc}
use pokeage.Prelude.{
  ℕ, zero, suc, ◌-◌, ◌≤◌, ◌<◌, ◌≡◌, inl, inr, refl, arith, List, [], ◌∷◌, ◌++◌, some, none, length,
  get_elem?, remove_at, length-append, length-remove_at, All, ltb, leb, ltb→lt, leb→le, sym, ◌∙◌,
  if◌then◌else◌, Bool-cases, false,
}
use pokeage.Types.{MonsterInstance, Trainer}
use pokeage.Constants.{party_size, box_size}
use pokeage.Power.{get_monster_power}
use pokeage.Team.{weak_scan, place_new_monster, PlacementResult, placed_in, party, box, nowhere}
use pokeage.Team.Weakest.{IsWeakest, weak_scan-IsWeakest, All-le}

module _ {F : Type 0} where
  abbrev pub roster : Trainer F → List (MonsterInstance F)
  roster t = t.team ++ t.box

  pub record IsRoster (t : Trainer F) : Type 0 where
    pub team_le : length t.team ≤ party_size
    pub box_le : length t.box ≤ box_size

  IsWeakest-roster :
      (xs : List (MonsterInstance F))
      → 0 < length xs
      → IsWeakest xs (weak_scan xs).0 (weak_scan xs).1
  IsWeakest-roster [] h = elim h [ ]
  IsWeakest-roster (m ∷ ms) h = weak_scan-IsWeakest m ms

  abbrev pub IsFull : Trainer F → Type 0
  IsFull t = (party_size ≤ length t.team) × (box_size ≤ length t.box)

  -- Placing keeps the party at most 4 and the box at most 6 strong.
  pub place_new_monster-IsRoster :
      (t : Trainer F) (new : MonsterInstance F) → IsRoster t → IsRoster (place_new_monster t new).0
  unfolding place_new_monster
  place_new_monster-IsRoster t new h = ground (
    arith,
    length-append t.team (new ∷ []),
    length-append t.box (new ∷ []),
    length-append t.team t.box,
    λ (h : 0 < length (t.team ++ t.box)). (IsWeakest-roster (t.team ++ t.box) h).inside,
    length-remove_at t.team (weak_scan (t.team ++ t.box)).0,
    length-remove_at t.box ((weak_scan (t.team ++ t.box)).0 - length t.team),
    length-append (remove_at t.team (weak_scan (t.team ++ t.box)).0) (new ∷ []),
    length-append (remove_at t.box ((weak_scan (t.team ++ t.box)).0 - length t.team)) (new ∷ []),
  )

  module _ (t : Trainer F) (new : MonsterInstance F) where
    -- What may become of a placement, as a relation: room in the party, room in the box, or a full
    -- roster whose weakest member stays or goes.
    pub data Placement : Trainer F × PlacementResult F → Type 0 where
      joins_party :
          length t.team < party_size
          → Placement (record t { team = t.team ++ (new ∷ []) }, placed_in party none)
      joins_box :
          party_size ≤ length t.team
          → length t.box < box_size
          → Placement (record t { box = t.box ++ (new ∷ []) }, placed_in box none)
      refused :
          IsFull t
          → All (λ x. get_monster_power new ≤ get_monster_power x) (roster t)
          → Placement (t, record { placed = false; place = nowhere; released = none })
      replaces_in_party :
          IsFull t
          → (i : ℕ) (m : MonsterInstance F) → get_elem? t.team i ≡ some m
          → get_monster_power m < get_monster_power new
          → All (λ x. get_monster_power m ≤ get_monster_power x) (roster t)
          → Placement
              (record t { team = remove_at t.team i ++ (new ∷ []) }, placed_in party (some m))
      replaces_in_box :
          IsFull t
          → (i : ℕ) (m : MonsterInstance F) → get_elem? t.box i ≡ some m
          → get_monster_power m < get_monster_power new
          → All (λ x. get_monster_power m ≤ get_monster_power x) (roster t)
          → Placement (record t { box = remove_at t.box i ++ (new ∷ []) }, placed_in box (some m))

  get_elem?-append_left :
      (xs ys : List (MonsterInstance F)) (i : ℕ)
      → i < length xs
      → get_elem? (xs ++ ys) i ≡ get_elem? xs i
  get_elem?-append_left [] ys i h = elim h [ ]
  get_elem?-append_left (x ∷ xs) ys zero h = refl
  get_elem?-append_left (x ∷ xs) ys (suc i) h = get_elem?-append_left xs ys i (omega arith)

  get_elem?-append_right :
      (xs ys : List (MonsterInstance F)) (i : ℕ)
      → length xs ≤ i
      → get_elem? (xs ++ ys) i ≡ get_elem? ys (i - length xs)
  get_elem?-append_right [] ys i h = rw sub-zero
  get_elem?-append_right (x ∷ xs) ys zero h = absurd (omega arith)
  get_elem?-append_right (x ∷ xs) ys (suc i) h =
      rw suc-sub-suc (get_elem?-append_right xs ys i (omega arith))

  -- A placement is one of five: the newcomer joins a party with room; it joins a box with room; it is
  -- turned away from a full roster in which nobody is weaker; or it takes the place of a weakest member
  -- of a full roster, weaker than itself, in the party or in the box.
  pub place_new_monster-Placement :
      (t : Trainer F) (new : MonsterInstance F) → Placement t new (place_new_monster t new)
  unfolding place_new_monster
  place_new_monster-Placement t new = elim (Bool-cases (ltb (length t.team) party_size)) [
    | inl room ↦ rw room (joins_party (ltb→lt _ _ room))
    | inr no_room ↦ rw no_room (elim (Bool-cases (ltb (length t.box) box_size)) [
      | inl space ↦ rw space (joins_box (ground arith) (ltb→lt _ _ space))
      | inr no_space ↦ rw no_space (full_case (ground arith))
    ])
  ]
    where
      full_case :
          IsFull t
          → let (i, p) = weak_scan (roster t) in
            Placement t new (
              if leb (get_monster_power new) p
              then (t, record { placed = false; place = nowhere; released = none })
              else if ltb i (length t.team)
              then (
                record t { team = remove_at t.team i ++ (new ∷ []) },
                placed_in party (get_elem? t.team i),
              )
              else (
                record t { box = remove_at t.box (i - length t.team) ++ (new ∷ []) },
                placed_in box (get_elem? t.box (i - length t.team)),
              ))
      full_case full =
          let weakest = IsWeakest-roster (roster t) (omega (arith, length-append t.team t.box)) in
          let p = (weak_scan (roster t)).1 in
          let i = (weak_scan (roster t)).0 in
          elim (Bool-cases (leb (get_monster_power new) p)) [
            | inl weak ↦
                rw weak (refused full (All-le (roster t) p _ (leb→le _ _ weak) weakest.least))
            | inr strong ↦ rw strong (elim (Bool-cases (ltb i (length t.team))) [
              | inl in_team ↦
                  let at : get_elem? t.team i ≡ some weakest.member =
                    sym (get_elem?-append_left t.team t.box i (ltb→lt _ _ in_team))
                    ∙ weakest.at_index in
                  rw (in_team, at)
                    (replaces_in_party full i weakest.member at (ground (arith, weakest.has_power))
                      (rw weakest.has_power weakest.least))
              | inr in_box ↦
                  let at : get_elem? t.box (i - length t.team) ≡ some weakest.member =
                    sym (get_elem?-append_right t.team t.box i (ground arith)) ∙ weakest.at_index in
                  rw (in_box, at)
                    (replaces_in_box full (i - length t.team) weakest.member at
                      (ground (arith, weakest.has_power)) (rw weakest.has_power weakest.least))
            ])
          ]
