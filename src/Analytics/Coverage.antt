-- ===== src/Analytics/Coverage.antt =====
-- src/analytics.ts: the two type lists of a report.
use pokeage.Prelude.{
  ◌≤◌, ◌<◌, ◌≡◌, ◌↔◌, refl, arith, Bool, true, false, List, [], ◌∷◌, Memᴰ, length, keep_if,
  keep_if-Memᴰ, keep_if_of_Memᴰ, any_iff, all, All, leb, leb→le, ◌==◌,
}
use pokeage.Types.{MonsterType, normal, MonsterInstance}
use pokeage.Typechart.{get_type_multiplier}
use pokeage.Analytics.{all_types, hits_some, hits_all, offensive_coverage, shared_weaknesses}

ruleset position = (Memᴰ.head, Memᴰ.tail, refl)

Memᴰ-all_types : (t : MonsterType) → Memᴰ t all_types
Memᴰ-all_types normal = search position depth 20
Memᴰ-all_types _ = search position depth 20

shared_weaknesses-nil : (F : Type 0) → shared_weaknesses {F = F} [] ≡ []
unfolding shared_weaknesses
shared_weaknesses-nil F = refl

module _ {F : Type 0} where
  -- Every member is hit hard.
  abbrev pub AllWeak : MonsterType → List (MonsterInstance F) → Type 0
  AllWeak atk = All (λ m. 4 ≤ get_type_multiplier atk m.type)

  all_iff-AllWeak :
      (atk : MonsterType) (ms : List (MonsterInstance F))
      → (all (λ m. leb 4 (get_type_multiplier atk m.type)) ms ≡ true) ↔ AllWeak atk ms
  all_iff-AllWeak atk [] = (λ e. tt, λ h. refl)
  all_iff-AllWeak atk (m ∷ ms) =
      let later = all_iff-AllWeak atk ms in
      (λ e. (ground arith, later.0 (ground arith)), λ h. ground (arith, later.1 h.1, h.0))

  -- The offensive coverage lists exactly the types that some member hits super-effectively.
  pub offensive_coverage_iff :
      (team : List (MonsterInstance F)) (def : MonsterType)
      → Memᴰ def (offensive_coverage team)
        ↔ ((m : MonsterInstance F) × Memᴰ m team × (4 ≤ get_type_multiplier m.type def))
  unfolding offensive_coverage
  offensive_coverage_iff team def =
      let hits : MonsterInstance F → Bool = λ m. leb 4 (get_type_multiplier m.type def) in
      (
        λ listed.
            let (m, mem, h) =
              (any_iff hits team).0 (keep_if-Memᴰ (hits_some team) all_types listed).1 in
            (m, mem, leb→le _ _ h),
        λ h.
            keep_if_of_Memᴰ (hits_some team) all_types (Memᴰ-all_types def)
              ((any_iff hits team).1 (h.0, h.1, ground (arith, h.2))),
      )

  shared_weaknesses-cons :
      (m : MonsterInstance F) (ms : List (MonsterInstance F))
      → shared_weaknesses (m ∷ ms) ≡ keep_if (hits_all (m ∷ ms)) all_types
  unfolding shared_weaknesses
  shared_weaknesses-cons m ms = let e : (length (m ∷ ms) == 0) ≡ false = ground arith in rw e refl

  -- The shared weaknesses list exactly the types that hit every member of the team super-effectively,
  -- and none for a team without members.
  pub shared_weaknesses_iff :
      (team : List (MonsterInstance F)) (atk : MonsterType)
      → Memᴰ atk (shared_weaknesses team) ↔ ((0 < length team) × AllWeak atk team)
  shared_weaknesses_iff [] atk =
      rw (shared_weaknesses-nil F) (λ m. elim m [ ], λ h. absurd (omega (arith, h.0)))
  shared_weaknesses_iff (m ∷ ms) atk = rw (shared_weaknesses-cons m ms) (
    λ listed. (
      omega arith,
      (all_iff-AllWeak atk (m ∷ ms)).0 (keep_if-Memᴰ (hits_all (m ∷ ms)) all_types listed).1,
    ),
    λ h.
        keep_if_of_Memᴰ (hits_all (m ∷ ms)) all_types (Memᴰ-all_types atk)
          ((all_iff-AllWeak atk (m ∷ ms)).1 h.1),
  )
