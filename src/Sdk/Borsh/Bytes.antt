-- ===== src/Sdk/Borsh/Bytes.antt =====
-- sdk/src/borsh.ts: numbers and their little-endian bytes.
use native.Mathlib.Nat.{pow-suc, suc-add, zero-add}
use pokeage.Prelude.{
  ℕ, zero, suc, ◌+◌, ◌-◌, ◌/◌, ◌^◌, ◌<◌, ◌≡◌, refl, ap, arith, List, [], ◌∷◌, ◌++◌, length, take,
  drop,
}
use pokeage.Sdk.Borsh.{le_bytes, of_le}

pub length-le_bytes : (k v : ℕ) → length (le_bytes k v) ≡ k
unfolding le_bytes
length-le_bytes zero v = refl
length-le_bytes (suc k) v = ap suc (length-le_bytes k (v / 256))

pub of_le-le_bytes : (k v : ℕ) → v < 256 ^ k → of_le (le_bytes k v) ≡ v
unfolding le_bytes of_le
of_le-le_bytes zero v h = omega arith
of_le-le_bytes (suc k) v h =
    let small : v / 256 < 256 ^ k = omega (arith, pow-suc 256 k) in
    omega (arith, of_le-le_bytes k (v / 256) small)

pub drop-drop : (a b : ℕ) (xs : List ℕ) → drop (a + b) xs ≡ drop b (drop a xs)
drop-drop zero b xs = ap (λ n. drop n xs) (zero-add b)
drop-drop (suc a) zero [] = rw suc-add
drop-drop (suc a) (suc b) [] = rw suc-add
drop-drop (suc a) b (x ∷ xs) = rw suc-add (drop-drop a b xs)

pub take-append : (xs ys : List ℕ) (k : ℕ) → length xs ≡ k → take k (xs ++ ys) ≡ xs
take-append [] ys zero h = refl
take-append [] ys (suc k) h = absurd (omega arith)
take-append (x ∷ xs) ys zero h = absurd (omega arith)
take-append (x ∷ xs) ys (suc k) h = ap (◌∷◌ x) (take-append xs ys k (omega arith))

pub drop-append : (xs ys : List ℕ) (k : ℕ) → length xs ≡ k → drop k (xs ++ ys) ≡ ys
drop-append [] ys zero h = refl
drop-append [] ys (suc k) h = absurd (omega arith)
drop-append (x ∷ xs) ys zero h = absurd (omega arith)
drop-append (x ∷ xs) ys (suc k) h = drop-append xs ys k (omega arith)

pub length-drop : (k : ℕ) (xs : List ℕ) → length (drop k xs) ≡ length xs - k
length-drop zero xs = omega arith
length-drop (suc k) [] = omega arith
length-drop (suc k) (x ∷ xs) = omega (arith, length-drop k xs)
