-- ===== src/Prelude/Membership.antt =====
-- Membership in a list, and what the array methods make of it.
use Prim.Native.Nat.{ℕ, zero, suc}
use mathlib.Core.Path.{◌≡◌, refl, sym, subst}
use mathlib.Core.Logic.{◌↔◌, inl, inr}
use mathlib.Core.Bool.{Bool, true, false}
use mathlib.Core.List.{List, [], ◌∷◌, Memᴰ}
use mathlib.Core.Option.{some, some-injective}
use native.Mathlib.Omega.{arith}
use pokeage.Prelude.Tests.{if◌then◌else◌, Bool-cases}
use pokeage.Prelude.Lists.{get_elem?, keep_if, any, all, find?, All}

module _ {ℓ} {A : Type ℓ} where
  pub all-Memᴰ : (p : A → Bool) {x : A} (xs : List A) → all p xs ≡ true → Memᴰ x xs → p x ≡ true
  all-Memᴰ p [] h m = elim m [ ]
  all-Memᴰ p (y ∷ ys) h (Memᴰ.head e) = rw e (ground arith)
  all-Memᴰ p (y ∷ ys) h (Memᴰ.tail m) = all-Memᴰ p ys (ground arith) m

pub get_elem?-Memᴰ {ℓ} :
    {A : Type ℓ} (xs : List A) (i : ℕ) {x : A} → get_elem? xs i ≡ some x → Memᴰ x xs
get_elem?-Memᴰ [] i e = cc
get_elem?-Memᴰ (y ∷ ys) zero e = Memᴰ.head (ground arith)
get_elem?-Memᴰ (y ∷ ys) (suc i) e = Memᴰ.tail (get_elem?-Memᴰ ys i e)

module _ {ℓ} {A : Type ℓ} (p : A → Bool) where
  keep_if_step :
      (y : A) (ys : List A) {x : A} (b : Bool)
      → p y ≡ b
      → (Memᴰ x (keep_if p ys) → Memᴰ x ys × (p x ≡ true))
      → Memᴰ x (if b then y ∷ keep_if p ys else keep_if p ys)
      → Memᴰ x (y ∷ ys) × (p x ≡ true)
  keep_if_step y ys true e later (Memᴰ.head h) = (Memᴰ.head h, rw h e)
  keep_if_step y ys true e later (Memᴰ.tail m) = (Memᴰ.tail (later m).0, (later m).1)
  keep_if_step y ys false e later m = (Memᴰ.tail (later m).0, (later m).1)

  pub keep_if-Memᴰ : (xs : List A) {x : A} → Memᴰ x (keep_if p xs) → Memᴰ x xs × (p x ≡ true)
  keep_if-Memᴰ [] m = elim m [ ]
  keep_if-Memᴰ (y ∷ ys) m = keep_if_step y ys (p y) refl (keep_if-Memᴰ ys) m

module _ {ℓ} {A : Type ℓ} (p : A → Bool) where
  pub keep_if_of_Memᴰ : (xs : List A) {x : A} → Memᴰ x xs → p x ≡ true → Memᴰ x (keep_if p xs)
  keep_if_of_Memᴰ [] m h = elim m [ ]
  keep_if_of_Memᴰ (y ∷ ys) (Memᴰ.head e) h = rw (← e) (rw h (Memᴰ.head refl))
  keep_if_of_Memᴰ (y ∷ ys) (Memᴰ.tail m) h = elim (Bool-cases (p y)) [
    | inl kept ↦ rw kept (Memᴰ.tail (keep_if_of_Memᴰ ys m h))
    | inr dropped ↦ rw dropped (keep_if_of_Memᴰ ys m h)
  ]

  any-Memᴰ : {x : A} → p x ≡ true → (ys : List A) → Memᴰ x ys → any p ys ≡ true
  any-Memᴰ h [] m = elim m [ ]
  any-Memᴰ h (y ∷ ys) (Memᴰ.head e) = rw (← e) (rw h refl)
  any-Memᴰ h (y ∷ ys) (Memᴰ.tail m) = ground (arith, any-Memᴰ h ys m)

  pub any_iff : (xs : List A) → (any p xs ≡ true) ↔ ((x : A) × Memᴰ x xs × (p x ≡ true))
  any_iff [] = (λ e. absurd (cc (e)), λ h. elim h.1 [ ])
  any_iff (y ∷ ys) = (
    λ e. elim (Bool-cases (p y)) [
      | inl hit ↦ (y, Memᴰ.head refl, hit)
      | inr miss ↦ let (x, m, h) = (any_iff ys).0 (rw miss at e) in (x, Memᴰ.tail m, h)
    ],
    λ h. any-Memᴰ h.2 (y ∷ ys) h.1,
  )

module _ {ℓ} {A : Type ℓ} (p : A → Bool) where
  pub find?-Memᴰ : (xs : List A) {x : A} → find? p xs ≡ some x → Memᴰ x xs
  find?-Memᴰ [] = λ e. cc
  find?-Memᴰ (y ∷ ys) = elim (Bool-cases (p y)) [
    | inl hit ↦ rw hit (λ e. Memᴰ.head (sym (some-injective _ _ e)))
    | inr miss ↦ rw miss (λ e. Memᴰ.tail (find?-Memᴰ ys e))
  ]

module _ {ℓ κ} {A : Type ℓ} (P : A → Type κ) where
  pub All-Memᴰ : (xs : List A) {x : A} → All P xs → Memᴰ x xs → P x
  All-Memᴰ [] h m = elim m [ ]
  All-Memᴰ (y ∷ ys) h (Memᴰ.head e) = subst P (sym e) h.0
  All-Memᴰ (y ∷ ys) h (Memᴰ.tail m) = All-Memᴰ ys h.1 m
