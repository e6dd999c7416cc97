-- ===== src/Sdk/Borsh.antt =====
-- sdk/src/borsh.ts: the little-endian codec. A buffer is a list of bytes. `none` is a thrown
-- RangeError: a value that does not fit a 64-bit write, or a read past the end of the buffer.
pub mod Bytes
pub mod Reads
pub mod Needs
use pokeage.Prelude.{
  ℤ, pos, negsuc, ℕ, zero, suc, ◌+◌, ◌-◌, ◌*◌, ◌/◌, ◌%◌, ◌^◌, Bool, true, false, Option, none, some,
  List, [], ◌∷◌, ◌++◌, ltb, ◌==◌, if◌then◌else◌, length, take, drop,
}

-- The `k` low bytes of a number, lowest first, and the number that bytes stand for.
unfoldable pub le_bytes : ℕ → ℕ → List ℕ
le_bytes zero v = []
le_bytes (suc k) v = v % 256 ∷ le_bytes k (v / 256)

unfoldable pub of_le : List ℕ → ℕ
of_le [] = 0
of_le (b ∷ bs) = b + 256 * of_le bs

pub record BorshWriter : Type 0 where
  pub parts : List (List ℕ)

abbrev pub new_writer : BorshWriter
new_writer = record { parts = [] }

abbrev pub push : List ℕ → BorshWriter → BorshWriter
push bytes w = record { parts = w.parts ++ (bytes ∷ []) }

abbrev pub put_u8 : ℕ → BorshWriter → BorshWriter
put_u8 v = push (le_bytes 1 (v % 2 ^ 8))

abbrev pub put_u16 : ℕ → BorshWriter → BorshWriter
put_u16 v = push (le_bytes 2 (v % 2 ^ 16))

abbrev pub put_u32 : ℕ → BorshWriter → BorshWriter
put_u32 v = push (le_bytes 4 (v % 2 ^ 32))

unfoldable pub put_u64 : ℤ → BorshWriter → Option BorshWriter
put_u64 (pos v) w = if ltb v (2 ^ 64) then some (push (le_bytes 8 v) w) else none
put_u64 (negsuc v) w = none

-- The two's complement pattern of a signed 64-bit number, and back.
abbrev pub i64_word : ℤ → ℕ
i64_word (pos v) = v
i64_word (negsuc v) = 2 ^ 64 - 1 - v

abbrev pub word_i64 : ℕ → ℤ
word_i64 w = if ltb w (2 ^ 63) then pos w else negsuc (2 ^ 64 - 1 - w)

abbrev pub magnitude : ℤ → ℕ
magnitude (pos v) = v
magnitude (negsuc v) = v

unfoldable pub put_i64 : ℤ → BorshWriter → Option BorshWriter
put_i64 v w = if ltb (magnitude v) (2 ^ 63) then some (push (le_bytes 8 (i64_word v)) w) else none

abbrev pub put_bool : Bool → BorshWriter → BorshWriter
put_bool v = put_u8 (if v then 1 else 0)

-- `v` is the raw key.
abbrev pub put_pubkey : List ℕ → BorshWriter → BorshWriter
put_pubkey v = push v

abbrev pub disc : List ℕ → BorshWriter → BorshWriter
disc d w = record { parts = d ∷ w.parts }

unfoldable pub concat : List (List ℕ) → List ℕ
concat [] = []
concat (p ∷ ps) = p ++ concat ps

abbrev pub build : BorshWriter → List ℕ
build w = concat w.parts

pub record BorshReader : Type 0 where
  pub buf : List ℕ
  pub offset : ℕ

abbrev pub new_reader : List ℕ → BorshReader
new_reader buf = record { buf = buf; offset = 0 }

abbrev pub skip : ℕ → BorshReader → BorshReader
skip n r = record r { offset = r.offset + n }

abbrev pub Read : Type 0 → Type 0
Read A = BorshReader → Option (A × BorshReader)

infixl 5 ◌>>=◌
unfoldable pub ◌>>=◌ : {A B : Type 0} → Read A → (A → Read B) → Read B
◌>>=◌ m f r = elim (m r) [ none ↦ none | some (a, r') ↦ f a r' ]

unfoldable pub pure : {A : Type 0} → A → Read A
pure a r = some (a, r)

-- `buf.readUIntLE(offset, k)`, which checks that the bytes are there.
unfoldable pub read_uint : ℕ → Read ℕ
read_uint k r =
    if ltb (length r.buf) (r.offset + k)
    then none
    else some (of_le (take k (drop r.offset r.buf)), skip k r)

abbrev pub u8 : Read ℕ
u8 = read_uint 1

abbrev pub u16 : Read ℕ
u16 = read_uint 2

abbrev pub u32 : Read ℕ
u32 = read_uint 4

abbrev pub u64 : Read ℕ
u64 = read_uint 8

unfoldable pub i64 : Read ℤ
unfolding ◌>>=◌ pure
i64 = do w ← read_uint 8; pure (word_i64 w)

unfoldable pub bool : Read Bool
unfolding ◌>>=◌ pure
bool = do v ← u8; pure (v == 1)

-- `subarray` stops at the end of the buffer and throws nothing.
unfoldable pub pubkey : Read (List ℕ)
pubkey r = some (take 32 (drop r.offset r.buf), skip 32 r)

abbrev pub run : {A : Type 0} → Read A → BorshReader → Option A
run m r = elim (m r) [ none ↦ none | some (a, r') ↦ some a ]
