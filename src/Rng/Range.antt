-- ===== src/Rng/Range.antt =====
-- src/rng.ts: the results of `int` and `pick`.
use pokeage.Prelude.{
  ℕ, ◌+◌, ◌-◌, ◌*◌, ◌/◌, ◌^◌, ◌≤◌, ◌<◌, ◌≡◌, arith, List, length, some, get_elem?, get_elem?-lt,
  min, max,
}
use pokeage.Rng.{Rng, next_word, int, pick}
use pokeage.Rng.Word.{next_word-IsWord}

-- A 32-bit fraction of a width lies below the width.
scaled-lt : (t w : ℕ) → t < 2 ^ 32 → 0 < w → t * w / 2 ^ 32 < w
scaled-lt t w h p = omega (arith, scaled t w h p)
  where
    scaled : (t w : ℕ) → t < 2 ^ 32 → 0 < w → t * w < 2 ^ 32 * w
    scaled t w h p = grind arith

-- `int` stays between its two bounds, in whichever order they are given, and both end values are
-- in the range.
pub int_bounds : (a b : ℕ) (r : Rng) → (min a b ≤ (int a b r).0) × ((int a b r).0 ≤ max a b)
unfolding int
int_bounds a b r = ground (
  arith,
  scaled-lt (next_word r).0 (b - a + 1) (next_word-IsWord r).0,
  scaled-lt (next_word r).0 (a - b + 1) (next_word-IsWord r).0,
)

-- `pick` finds an element of every non-empty array.
pub pick-some {ℓ} :
    {A : Type ℓ} (arr : List A) (r : Rng)
    → 0 < length arr
    → (x : A) × (i : ℕ) × (i < length arr) × (get_elem? arr i ≡ some x) × ((pick arr r).0 ≡ some x)
unfolding pick
pick-some arr r h =
    let i : ℕ = (next_word r).0 * length arr / 2 ^ 32 in
    let lt : i < length arr = scaled-lt (next_word r).0 (length arr) (next_word-IsWord r).0 h in
    let (x, e) = get_elem?-lt arr i lt in (x, i, lt, e, e)
