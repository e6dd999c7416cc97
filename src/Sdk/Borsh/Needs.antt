-- ===== src/Sdk/Borsh/Needs.antt =====
-- sdk/src/borsh.ts: how many bytes a reader needs. `Skips m k` moves on by `k` and never throws;
-- `Needs m k` moves on by `k`, and throws exactly when fewer than `k` bytes are left.
use native.Mathlib.Decide.{dec_le}
use pokeage.Prelude.{
  ℕ, ◌+◌, ◌≤◌, ◌<◌, ◌≡◌, refl, ap, ◌∙◌, ◌↔◌, arith, none, some, List, length, take, drop,
}
use pokeage.Sdk.Borsh.{
  BorshReader, skip, Read, ◌>>=◌, pure, read_uint, pubkey, of_le, run, new_reader,
}

pub record Skips {A : Type 0} (m : Read A) (k : ℕ) : Type 0 where
  pub moves : (r : BorshReader) → (a : A) × (m r ≡ some (a, skip k r))

pub record Needs {A : Type 0} (m : Read A) (k : ℕ) : Type 0 where
  pub enough :
      (r : BorshReader) → r.offset + k ≤ length r.buf → (a : A) × (m r ≡ some (a, skip k r))
  pub short : (r : BorshReader) → length r.buf < r.offset + k → m r ≡ none

pub Skips-pubkey : Skips pubkey 32
unfolding pubkey
Skips-pubkey = record { moves = λ r. (take 32 (drop r.offset r.buf), refl) }

pub Needs-uint : (k : ℕ) → Needs (read_uint k) k
unfolding read_uint
Needs-uint k = record {
  enough = λ r h. (of_le (take k (drop r.offset r.buf)), ground arith);
  short = λ r h. ground arith;
}

skip-skip : (j k : ℕ) (r : BorshReader) → skip k (skip j r) ≡ skip (j + k) r
skip-skip j k r = ground arith

module _ {A B : Type 0} {m : Read A} where
  pub Needs-map : (g : A → B) {k : ℕ} → Needs m k → Needs (m >>= λ a. pure (g a)) k
  unfolding ◌>>=◌ pure
  Needs-map g hm = record {
    enough = λ r h. let (a, e) = hm.enough r h in (g a, rw (e, ◌>>=◌));
    short = λ r h. rw (hm.short r h, ◌>>=◌);
  }

  pub Skips-map : (g : A → B) {k : ℕ} → Skips m k → Skips (m >>= λ a. pure (g a)) k
  unfolding ◌>>=◌ pure
  Skips-map g hm = record { moves = λ r. let (a, e) = hm.moves r in (g a, rw (e, ◌>>=◌)) }

module _ {A B : Type 0} {m : Read A} {f : A → Read B} {j k : ℕ} where
  pub Needs-skip : Skips m j → ((a : A) → Needs (f a) k) → Needs (m >>= f) (j + k)
  unfolding ◌>>=◌
  Needs-skip hm hf = record {
    enough = λ r h.
        let (a, e) = hm.moves r in
        let (b, e') = (hf a).enough (skip j r) (omega arith) in
        (b, rw (e, ◌>>=◌) (e' ∙ ap (λ x. some (b, x)) (skip-skip j k r)));
    short = λ r h. let (a, e) = hm.moves r in rw (e, ◌>>=◌) ((hf a).short (skip j r) (omega arith));
  }

  pub Needs-bind : Needs m j → ((a : A) → Needs (f a) k) → Needs (m >>= f) (j + k)
  unfolding ◌>>=◌
  Needs-bind hm hf = record {
    enough = λ r h.
        let (a, e) = hm.enough r (omega arith) in
        let (b, e') = (hf a).enough (skip j r) (omega arith) in
        (b, rw (e, ◌>>=◌) (e' ∙ ap (λ x. some (b, x)) (skip-skip j k r)));
    short = λ r h. elim (dec_le (r.offset + j) (length r.buf)) [
      | yes fits ↦
          let (a, e) = hm.enough r fits in rw (e, ◌>>=◌) ((hf a).short (skip j r) (omega arith))
      | no over ↦ rw (hm.short r (omega arith), ◌>>=◌)
    ];
  }

-- A decoder that needs `k` bytes, run behind a prefix of 8 bytes.
pub run-Needs :
    {A : Type 0} (m : Read A) (j k : ℕ) (buf : List ℕ)
    → Needs m k
    → ((a : A) × (run m (skip j (new_reader buf)) ≡ some a)) ↔ (j + k ≤ length buf)
run-Needs m j k buf h = (
  λ (a, e). elim (dec_le (j + k) (length buf)) [
    | yes fits ↦ fits
    | no over ↦
        let e' = h.short (skip j (new_reader buf)) (omega arith) in
        absurd (let e'' : run m (skip j (new_reader buf)) ≡ none = rw (e', run) in cc)
  ],
  λ fits. let (a, e) = h.enough (skip j (new_reader buf)) (omega arith) in (a, rw (e, run)),
)
