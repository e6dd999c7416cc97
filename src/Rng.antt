-- ===== src/Rng.antt =====
-- src/rng.ts: mulberry32. The state and every intermediate 32-bit value is its unsigned pattern, so
-- `>>> 0`, ToInt32 and ToUint32 are `% 2 ^ 32` and a signed value has the same pattern.
pub mod Word
pub mod Range
pub mod Drawn
use pokeage.Prelude.{
  ℕ, ◌+◌, ◌-◌, ◌*◌, ◌/◌, ◌%◌, ◌^◌, bit_or, bit_xor, Bool, true, false, Option, List, length,
  get_elem?, foldl, ltb, if◌then◌else◌,
}
use pokeage.Num.{Num, ratio}

abbrev pub word : ℕ → ℕ
word x = x % 2 ^ 32

pub record Rng : Type 0 where
  pub state : ℕ

-- `new Rng(seed)`
unfoldable pub new_rng : ℕ → Rng
new_rng seed = record { state = bit_xor (word seed) 0x9e3779b9 }

abbrev pub default_rng : Rng
default_rng = new_rng 0x2545f491

abbrev pub increment : ℕ
increment = 0x6d2b79f5

-- `Math.imul`
abbrev pub imul : ℕ → ℕ → ℕ
imul a b = word (a * b)

-- The output mixing of `next`, from the advanced state to the numerator of the result.
unfoldable pub mix : ℕ → ℕ
mix s =
    let t = imul (bit_xor s (s / 2 ^ 15)) (bit_or s 1) in
    let t' = bit_xor t (word (t + imul (bit_xor t (t / 2 ^ 7)) (bit_or t 61))) in
    word (bit_xor t' (t' / 2 ^ 14))

unfoldable pub advance : Rng → Rng
advance r = record { state = word (r.state + increment) }

-- `next()` is `next_word` / 2^32: the quotient of a 32-bit value by a power of two is exact.
unfoldable pub next_word : Rng → ℕ × Rng
unfolding advance
next_word r = (mix (advance r).state, advance r)

-- `int(min, max)` for bounds that are not negative. `next() * (max - min + 1)` is exact while the
-- width is at most 2^21, so its floor is the integer quotient.
unfoldable pub int_range : ℕ → ℕ → Rng → ℕ × Rng
int_range lo hi r = let (t, r') = next_word r in (lo + t * (hi - lo + 1) / 2 ^ 32, r')

unfoldable pub int : ℕ → ℕ → Rng → ℕ × Rng
unfolding int_range
int min max r = if ltb max min then int_range max min r else int_range min max r

-- `arr[Math.floor(next() * arr.length)]`; `none` is the `undefined` of an empty array.
unfoldable pub pick {ℓ} : {A : Type ℓ} → List A → Rng → Option A × Rng
pick arr r = let (t, r') = next_word r in (get_elem? arr (t * length arr / 2 ^ 32), r')

abbrev pub snapshot : Rng → ℕ
snapshot r = word r.state

abbrev pub restore : ℕ → Rng
restore s = record { state = word s }

-- The loop of `rngFromString` over the UTF-16 code units of the seed.
abbrev pub hash_step : ℕ → ℕ → ℕ
hash_step h c = imul (bit_xor h c) 0x01000193

unfoldable pub rng_from_string : List ℕ → Rng
unfolding new_rng
rng_from_string seed = new_rng (word (foldl hash_step 0x811c9dc5 seed))

module _ {F : Type 0} ⦃n : Num F⦄ where
  open n use {of_ℕ, add, sub, mul, le, lt}

  unfoldable pub next : Rng → F × Rng
  next r = let (t, r') = next_word r in (ratio t (2 ^ 32), r')

  unfoldable pub float : F → F → Rng → F × Rng
  float min max r = let (u, r') = next r in (add min (mul u (sub max min)), r')

  unfoldable pub chance : F → Rng → Bool × Rng
  chance p r =
      let (u, r') = next r in
      if le p (of_ℕ 0) then (false, r) else if le (of_ℕ 1) p then (true, r) else (lt u p, r')

  unfoldable pub variance : F → F → Rng → F × Rng
  variance hi lo r = let (u, r') = next r in (add lo (mul u (sub hi lo)), r')
