-- ===== src/Sdk/Borsh/Reads.antt =====
-- sdk/src/borsh.ts: a reader meets an encoding. `Reads m bs a` says that `m`, run on a reader in
-- front of the bytes `bs`, returns `a` and stops behind them, whatever follows.
use native.Mathlib.Nat.{zero-add}
use mathlib.Core.List.{append_assoc}
use pokeage.Prelude.{
  ℕ, ◌+◌, ◌^◌, ◌≤◌, ◌<◌, ◌≡◌, refl, ap, ◌∙◌, arith, Bool, true, false, some, List, [], ◌∷◌, ◌++◌,
  length, drop, length-append, ◌==◌, suc,
}
use pokeage.Sdk.Borsh.{
  concat, ℤ, pos, negsuc, le_bytes, BorshReader, skip, Read, ◌>>=◌, pure, read_uint, i64, bool,
  pubkey, i64_word, word_i64, run, new_reader, magnitude,
}
use pokeage.Sdk.Borsh.Bytes.{
  length-le_bytes, of_le-le_bytes, drop-drop, take-append, drop-append, length-drop,
}

abbrev pub IsAt : BorshReader → List ℕ → Type 0
IsAt r bytes = drop r.offset r.buf ≡ bytes

pub record Reads {A : Type 0} (m : Read A) (bs : List ℕ) (a : A) : Type 0 where
  pub from_at :
      (r : BorshReader) (rest : List ℕ)
      → IsAt r (bs ++ rest)
      → (r' : BorshReader) × (m r ≡ some (a, r')) × IsAt r' rest

-- A layout is read field by field.
pub Reads-bind :
    {A B : Type 0} {m : Read A} (f : A → Read B) {bs : List ℕ} (ps : List (List ℕ)) {a : A} {b : B}
    → Reads m bs a
    → Reads (f a) (concat ps) b
    → Reads (m >>= f) (concat (bs ∷ ps)) b
unfolding ◌>>=◌ concat
Reads-bind {m} f {bs} ps {a} hm hf = record {
  from_at = λ r rest at.
      let (r', e, at') = hm.from_at r (concat ps ++ rest) (at ∙ append_assoc bs (concat ps) rest) in
      let (r'', e', at'') = hf.from_at r' rest at' in (r'', rw (e, ◌>>=◌) e', at'');
}

pub Reads-pure : {A : Type 0} (a : A) → Reads (pure a) (concat []) a
unfolding pure concat
Reads-pure a = record { from_at = λ r rest at. (r, refl, at) }

pub Reads-map :
    {A B : Type 0} {m : Read A} (g : A → B) {bs : List ℕ} {a : A} {b : B}
    → g a ≡ b
    → Reads m bs a
    → Reads (m >>= λ x. pure (g x)) bs b
unfolding ◌>>=◌ pure
Reads-map {m} g {a} h hm = record {
  from_at = λ r rest at.
      let (r', e, at') = hm.from_at r rest at in
      (r', rw (e, ◌>>=◌) (ap (λ y. some (y, r')) h), at');
}

IsAt-skip :
    (r : BorshReader) (bs rest : List ℕ) (k : ℕ)
    → length bs ≡ k
    → IsAt r (bs ++ rest)
    → IsAt (skip k r) rest
IsAt-skip r bs rest k h at = drop-drop r.offset k r.buf ∙ ap (drop k) at ∙ drop-append bs rest k h

-- Whatever is in front of the reader lies inside the buffer.
IsAt-fits :
    (r : BorshReader) (bs rest : List ℕ)
    → IsAt r (bs ++ rest)
    → 0 < length bs
    → r.offset + length bs ≤ length r.buf
IsAt-fits r bs rest at h =
    omega (arith, ap length at, length-drop r.offset r.buf, length-append bs rest)

pub Reads-uint : (k v : ℕ) → v < 256 ^ suc k → Reads (read_uint (suc k)) (le_bytes (suc k) v) v
unfolding read_uint
Reads-uint k v h = record {
  from_at = λ r rest at. (
    skip (suc k) r,
    ground (
      arith,
      at,
      length-le_bytes (suc k) v,
      IsAt-fits r (le_bytes (suc k) v) rest at,
      take-append (le_bytes (suc k) v) rest (suc k) (length-le_bytes (suc k) v),
      of_le-le_bytes (suc k) v h,
    ),
    IsAt-skip r (le_bytes (suc k) v) rest (suc k) (length-le_bytes (suc k) v) at,
  );
}

pub Reads-pubkey : (key : List ℕ) → length key ≡ 32 → Reads pubkey key key
unfolding pubkey
Reads-pubkey key h = record {
  from_at =
      λ r rest at. (skip 32 r, cc (at, take-append key rest 32 h), IsAt-skip r key rest 32 h at);
}

abbrev pub bool_byte : Bool → ℕ
bool_byte true = 1
bool_byte false = 0

pub Reads-bool : (v : Bool) → Reads bool (le_bytes 1 (bool_byte v)) v
unfolding bool
Reads-bool true = Reads-map (λ v. v == 1) refl (Reads-uint 0 1 (omega arith))
Reads-bool false = Reads-map (λ v. v == 1) refl (Reads-uint 0 0 (omega arith))

word_i64-i64_word : (z : ℤ) → magnitude z < 2 ^ 63 → word_i64 (i64_word z) ≡ z
word_i64-i64_word (pos v) h = ground arith
word_i64-i64_word (negsuc v) h = ground arith

i64_word-lt : (z : ℤ) → magnitude z < 2 ^ 63 → i64_word z < 256 ^ 8
i64_word-lt (pos v) h = omega arith
i64_word-lt (negsuc v) h = omega arith

pub Reads-i64 : (z : ℤ) → magnitude z < 2 ^ 63 → Reads i64 (le_bytes 8 (i64_word z)) z
unfolding i64
Reads-i64 z h =
    Reads-map word_i64 (word_i64-i64_word z h) (Reads-uint 7 (i64_word z) (i64_word-lt z h))

-- A decoder run from the start of a buffer, behind a prefix of `k` bytes.
pub run-Reads :
    {A : Type 0} (m : Read A) (prefix bs rest : List ℕ) (k : ℕ) (a : A)
    → length prefix ≡ k
    → Reads m bs a
    → run m (skip k (new_reader (prefix ++ (bs ++ rest)))) ≡ some a
run-Reads m prefix bs rest k a h hm =
    let r : BorshReader = skip k (new_reader (prefix ++ (bs ++ rest))) in
    let at : IsAt r (bs ++ rest) = rw zero-add (drop-append prefix (bs ++ rest) k h) in
    let (r', e, at') = hm.from_at r rest at in rw (e, run)
