-- ===== src/Rng/Drawn.antt =====
-- src/rng.ts: a generator that others drew from.
use pokeage.Prelude.{
  ℕ, zero, suc, ◌+◌, ◌≡◌, ◌∙◌, refl, ap, sym, subst, inl, inr, arith, List, ltb, Bool-cases,
}
use pokeage.Num.{Num}
use pokeage.Rng.{Rng, next_word, int_range, int, pick, next, float, chance}
use pokeage.Rng.Word.{IsWord, next_word-IsWord, draws}

-- `r'` is `r` after a number of calls of `next`.
pub record IsDrawn (r r' : Rng) : Type 0 where
  pub count : ℕ
  pub at : draws count r ≡ r'

draws-draws : (i j : ℕ) (r : Rng) → draws j (draws i r) ≡ draws (i + j) r
unfolding draws
draws-draws zero j r = let none_more : j ≡ 0 + j = omega arith in ap (λ k. draws k r) none_more
draws-draws (suc i) j r =
    let more : suc (i + j) ≡ suc i + j = omega arith in
    draws-draws i j (next_word r).1 ∙ ap (λ k. draws k r) more

pub IsDrawn-refl : (r : Rng) → IsDrawn r r
unfolding draws
IsDrawn-refl r = record { count = 0; at = refl }

pub IsDrawn-trans : (q r s : Rng) → IsDrawn q r → IsDrawn r s → IsDrawn q s
IsDrawn-trans q r s a b = record {
  count = a.count + b.count;
  at = sym (draws-draws a.count b.count q) ∙ ap (draws b.count) a.at ∙ b.at;
}

pub next_word-IsDrawn : (r : Rng) → IsDrawn r (next_word r).1
unfolding draws
next_word-IsDrawn r = record { count = 1; at = refl }

draws-IsWord : (k : ℕ) (r : Rng) → IsWord r.state → IsWord (draws k r).state
unfolding draws
draws-IsWord zero r h = h
draws-IsWord (suc k) r h = draws-IsWord k (next_word r).1 (next_word-IsWord r).1

-- A state of 32 bits stays one.
pub IsDrawn-IsWord : (r r' : Rng) → IsDrawn r r' → IsWord r.state → IsWord r'.state
IsDrawn-IsWord r r' d h = subst (λ q. IsWord q.state) d.at (draws-IsWord d.count r h)

pub int-IsDrawn : (min max : ℕ) (r : Rng) → IsDrawn r (int min max r).1
unfolding int int_range
int-IsDrawn min max r = elim (Bool-cases (ltb max min)) [
  | inl swapped ↦ rw (swapped, int) (next_word-IsDrawn r)
  | inr in_order ↦ rw (in_order, int) (next_word-IsDrawn r)
]

pub pick-IsDrawn {ℓ} : {A : Type ℓ} (arr : List A) (r : Rng) → IsDrawn r (pick arr r).1
unfolding pick
pick-IsDrawn arr r = next_word-IsDrawn r

pub next-IsDrawn : (F : Type 0) ⦃n : Num F⦄ (r : Rng) → IsDrawn r (next {F = F} r).1
unfolding next
next-IsDrawn F r = next_word-IsDrawn r

module _ {F : Type 0} ⦃n : Num F⦄ where
  pub float-IsDrawn : (min max : F) (r : Rng) → IsDrawn r (float min max r).1
  unfolding float next
  float-IsDrawn min max r = next_word-IsDrawn r

  -- A chance of nothing or of one draws nothing.
  pub chance-IsDrawn : (p : F) (r : Rng) → IsDrawn r (chance p r).1
  unfolding chance next
  chance-IsDrawn p r = elim (Bool-cases (n.le p (n.of_ℕ 0))) [
    | inl never ↦ rw (never, chance) (IsDrawn-refl r)
    | inr some_chance ↦
        rw (some_chance, chance)
          (elim (Bool-cases (n.le (n.of_ℕ 1) p)) [
            | inl sure ↦ rw sure (IsDrawn-refl r)
            | inr open_chance ↦ rw open_chance (next_word-IsDrawn r)
          ])
  ]
