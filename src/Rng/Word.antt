-- ===== src/Rng/Word.antt =====
-- src/rng.ts: 32-bit bounds, and the period of the state.
use pokeage.Prelude.{ℕ, zero, suc, ◌+◌, ◌*◌, ◌%◌, ◌^◌, ◌<◌, ◌≡◌, ◌↔◌, arith}
use pokeage.Rng.{Rng, mix, next_word, increment}

abbrev pub IsWord : ℕ → Type 0
IsWord w = w < 2 ^ 32

-- The state and the numerator that `next` draws are 32-bit words, whatever the state was.
pub next_word-IsWord : (r : Rng) → IsWord (next_word r).0 × IsWord (next_word r).1.state
unfolding next_word mix
next_word-IsWord r = omega arith

unfoldable pub draws : ℕ → Rng → Rng
draws zero r = r
draws (suc k) r = draws k (next_word r).1

pub state-draws :
    (k : ℕ) (r : Rng) → IsWord r.state → (draws k r).state ≡ (r.state + k * increment) % 2 ^ 32
unfolding next_word draws
state-draws zero r h = omega arith
state-draws (suc k) r h = omega (arith, state-draws k (next_word r).1 (omega arith))

-- The generator has full period: two draws leave the same state exactly when their numbers agree
-- modulo 2^32.
pub state-draws_iff :
    (r : Rng) (i j : ℕ)
    → IsWord r.state
    → ((draws i r).state ≡ (draws j r).state) ↔ (i % 2 ^ 32 ≡ j % 2 ^ 32)
state-draws_iff r i j h = omega (arith, state-draws i r h, state-draws j r h)
