-- ===== src/Team/Weakest.antt =====
-- src/team.ts and src/power.ts: the scan for the weakest member.
use pokeage.Prelude.{
  ℕ, suc, ◌+◌, ◌≤◌, ◌<◌, ◌≡◌, ◌⊎◌, inl, inr, refl, sym, arith, List, [], ◌∷◌, some, length,
  get_elem?, All, ltb, if◌then◌else◌, Bool, true, false,
}
use pokeage.Types.{MonsterInstance}
use pokeage.Power.{get_monster_power, weakest_from, weakest_of}
use pokeage.Team.{weak_loop, weak_scan}

module _ {F : Type 0} where
  -- `q` is the least power of `xs`, and the member at `j` has it.
  pub record IsWeakest (xs : List (MonsterInstance F)) (j q : ℕ) : Type 0 where
    pub inside : j < length xs
    pub member : MonsterInstance F
    pub at_index : get_elem? xs j ≡ some member
    pub has_power : get_monster_power member ≡ q
    pub least : All (λ m. q ≤ get_monster_power m) xs

  pub All-le :
      (xs : List (MonsterInstance F)) (p q : ℕ)
      → q ≤ p
      → All (λ m. p ≤ get_monster_power m) xs
      → All (λ m. q ≤ get_monster_power m) xs
  All-le [] p q h a = tt
  All-le (x ∷ xs) p q h a = (omega arith, All-le xs p q h a.1)

  -- The loop either keeps what it had, which is then least, or finds a weakest of what is left.
  abbrev Describes : List (MonsterInstance F) → ℕ → ℕ → ℕ → ℕ × ℕ → Type 0
  Describes xs i wi wp res =
      (res.1 ≤ wp)
      × All (λ m. res.1 ≤ get_monster_power m) xs
      × (((res.0 ≡ wi) × (res.1 ≡ wp))
          ⊎ ((k : ℕ) × (k < length xs)
              × (res.0 ≡ i + k)
              × (m : MonsterInstance F) × (get_elem? xs k ≡ some m)
              × (get_monster_power m ≡ res.1)))

  weak_step :
      (m : MonsterInstance F) (ms : List (MonsterInstance F)) (i wi wp : ℕ) (b : Bool)
      → ltb (get_monster_power m) wp ≡ b
      → ((j p : ℕ) → Describes ms (i + 1) j p (weak_loop ms (i + 1) j p))
      → Describes
          (m ∷ ms)
          i
          wi
          wp
          (weak_loop ms (i + 1) (if b then i else wi) (if b then get_monster_power m else wp))
  weak_step m ms i wi wp true e ih =
      let (le, least, found) = ih i (get_monster_power m) in
      (
        ground arith,
        (le, least),
        elim found [
          | inl (ej, eq) ↦ inr (0, omega arith, omega arith, m, refl, sym eq)
          | inr (k, lt, ej, m', at, ep) ↦ inr (suc k, omega arith, omega arith, m', at, ep)
        ],
      )
  weak_step m ms i wi wp false e ih =
      let (le, least, found) = ih wi wp in
      (
        le,
        (ground arith, least),
        elim found [
          | inl same ↦ inl same
          | inr (k, lt, ej, m', at, ep) ↦ inr (suc k, omega arith, omega arith, m', at, ep)
        ],
      )

  weak_loop_lem :
      (xs : List (MonsterInstance F)) (i wi wp : ℕ) → Describes xs i wi wp (weak_loop xs i wi wp)
  unfolding weak_loop
  weak_loop_lem [] i wi wp = (omega arith, tt, inl (refl, refl))
  weak_loop_lem (m ∷ ms) i wi wp =
      weak_step m ms i wi wp (ltb (get_monster_power m) wp) refl (weak_loop_lem ms (i + 1))

  found_at :
      (xs : List (MonsterInstance F)) (j q k : ℕ) (m : MonsterInstance F)
      → j ≡ k
      → k < length xs
      → get_elem? xs k ≡ some m
      → get_monster_power m ≡ q
      → All (λ x. q ≤ get_monster_power x) xs
      → IsWeakest xs j q
  found_at xs j q k m e lt at ep least = record {
    inside = omega arith;
    member = m;
    at_index = rw e at;
    has_power = ep;
    least = least;
  }

  -- The scan finds a member of least power.
  pub weak_scan-IsWeakest :
      (m : MonsterInstance F) (ms : List (MonsterInstance F))
      → IsWeakest (m ∷ ms) (weak_scan (m ∷ ms)).0 (weak_scan (m ∷ ms)).1
  unfolding weak_scan
  weak_scan-IsWeakest m ms =
      let (le, least, found) = weak_loop_lem (m ∷ ms) 0 0 (get_monster_power m) in
      elim found [
        | inl (ej, eq) ↦ found_at (m ∷ ms) _ _ 0 m ej (omega arith) refl (sym eq) least
        | inr (k, lt, ej, m', at, ep) ↦ found_at (m ∷ ms) _ _ k m' (omega arith) lt at ep least
      ]

  abbrev Agrees : List (MonsterInstance F) → ℕ → ℕ → ℕ → MonsterInstance F → Type 0
  Agrees ms i j p w = (weak_loop ms i j p).1 ≡ get_monster_power (weakest_from w ms)

  Agrees-if :
      (ms : List (MonsterInstance F)) (i j k : ℕ) (m w : MonsterInstance F) (b : Bool)
      → ((j : ℕ) (w : MonsterInstance F) → Agrees ms i j (get_monster_power w) w)
      → Agrees ms i
          (if b then j else k)
          (if b then get_monster_power m else get_monster_power w)
          (if b then m else w)
  Agrees-if ms i j k m w true ih = ih j m
  Agrees-if ms i j k m w false ih = ih k w

  weak_loop-weakest_from :
      (ms : List (MonsterInstance F)) (i j : ℕ) (w : MonsterInstance F)
      → Agrees ms i j (get_monster_power w) w
  unfolding weak_loop weakest_from
  weak_loop-weakest_from [] i j w = refl
  weak_loop-weakest_from (m ∷ ms) i j w =
      Agrees-if ms (i + 1) i j m w (ltb (get_monster_power m) (get_monster_power w))
        (weak_loop-weakest_from ms (i + 1))

  -- The scan by index and `weakestOf` agree on the least power.
  pub weak_scan-weakest_of :
      (m : MonsterInstance F) (ms : List (MonsterInstance F))
      → (w : MonsterInstance F) × (weakest_of (m ∷ ms) ≡ some w)
        × ((weak_scan (m ∷ ms)).1 ≡ get_monster_power w)
  unfolding weak_scan weakest_of weak_loop
  weak_scan-weakest_of m ms =
      (weakest_from m ms, refl, ground (arith, weak_loop-weakest_from ms 1 0 m))
