-- ===== src/Hpack/Integer/Laws.antt =====
-- The prefixed integers of Cutelyst/Server/hpack.cpp, read back.
use cutelyst.Common.{Bool-cases, inl, inr, ltb}
use cutelyst.Common.{ℕ, zero, suc, ◌+◌, ◌-◌, ◌*◌, ◌/◌, ◌%◌, ◌^◌, ◌≤◌, ◌<◌, ◌≡◌, refl, arith}
use cutelyst.Common.{all_below, all_below_sound, leb, ◌&&◌, true}
use cutelyst.Common.{Bytes, [], ◌∷◌, ◌++◌, length}
use cutelyst.Hpack.Integer.{Read, then_read, read, failed, undefined, int_mask}
use cutelyst.Hpack.Integer.{decode_loop, decode_uint, encode_loop, encode_uint}
use native.Mathlib.Nat.{mod-eq_of_lt}

last_group :
    (i dst m : ℕ) (rest : Bytes)
    → i < 128
    → m < 32
    → i * 2 ^ m < 2 ^ 32
    → dst + i * 2 ^ m < 2 ^ 16
    → decode_loop (i ∷ rest) dst m ≡ read (dst + i * 2 ^ m) rest
unfolding decode_loop
last_group i dst m rest hi hm hp hs = ground arith

inner_group :
    (g dst m : ℕ) (rest : Bytes)
    → g < 128
    → m < 32
    → dst + g * 2 ^ m < 2 ^ 16
    → decode_loop ((g + 128) ∷ rest) dst m ≡ decode_loop rest (dst + g * 2 ^ m) (m + 7)
unfolding decode_loop
inner_group g dst m rest hg hm hs = ground arith

encode_last : (fuel i : ℕ) → i < 128 → encode_loop fuel i ≡ i ∷ []
unfolding encode_loop
encode_last zero i h = refl
encode_last (suc fuel) i h = ground arith

encode_inner :
    (fuel i : ℕ)
    → 128 ≤ i
    → 0 < fuel
    → encode_loop fuel i ≡ (i % 128 + 128) ∷ encode_loop (fuel - 1) (i / 128)
unfolding encode_loop
encode_inner zero i h p = absurd (omega arith)
encode_inner (suc fuel) i h p = ground arith

-- The third group of a number below 2 ^ 16 is its last, the second its last or its last but one.
decode_third :
    (fuel i dst : ℕ) (rest : Bytes)
    → i < 4
    → dst + i * 2 ^ 14 < 2 ^ 16
    → decode_loop (encode_loop fuel i ++ rest) dst 14 ≡ read (dst + i * 2 ^ 14) rest
decode_third fuel i dst rest hi hs =
    rw (encode_last fuel i (omega arith))
      (last_group i dst 14 rest (omega arith) (omega arith) (omega arith) hs)

decode_second :
    (fuel i dst : ℕ) (rest : Bytes)
    → i < 512
    → i / 128 ≤ fuel
    → dst + i * 2 ^ 7 < 2 ^ 16
    → decode_loop (encode_loop fuel i ++ rest) dst 7 ≡ read (dst + i * 2 ^ 7) rest
decode_second fuel i dst rest hi hf hs = ground (
  arith,
  encode_last fuel i,
  encode_inner fuel i,
  last_group i dst 7 rest,
  inner_group (i % 128) dst 7 (encode_loop (fuel - 1) (i / 128) ++ rest),
  decode_third (fuel - 1) (i / 128) (dst + i % 128 * 2 ^ 7) rest,
)

decode_first :
    (fuel i dst : ℕ) (rest : Bytes)
    → i ≤ fuel
    → dst + i < 2 ^ 16
    → decode_loop (encode_loop fuel i ++ rest) dst 0 ≡ read (dst + i) rest
decode_first fuel i dst rest hf hs = ground (
  arith,
  encode_last fuel i,
  encode_inner fuel i,
  last_group i dst 0 rest,
  inner_group (i % 128) dst 0 (encode_loop (fuel - 1) (i / 128) ++ rest),
  decode_second (fuel - 1) (i / 128) (dst + i % 128) rest,
)

pow_bits_table : all_below 9 (λ x. leb 1 (2 ^ x) && leb (2 ^ x) 256) ≡ true
pow_bits_table = refl

pow_bits : (bits : ℕ) → bits ≤ 8 → (1 ≤ 2 ^ bits) × (2 ^ bits ≤ 256)
pow_bits bits h =
    let e = all_below_sound 9 (λ x. leb 1 (2 ^ x) && leb (2 ^ x) 256) bits pow_bits_table in
    ground (arith, e (omega arith))

-- decodeUInt16 reads back the number that encodeUInt16 wrote, and leaves what follows it, for
-- every number of 16 bits and every prefix of up to eight bits.
pub decode_uint-encode_uint :
    (i bits : ℕ) (rest : Bytes)
    → i < 2 ^ 16
    → bits ≤ 8
    → decode_uint (encode_uint i bits ++ rest) bits ≡ read i rest
unfolding decode_uint encode_uint
decode_uint-encode_uint i bits rest hi hb = ground (
  arith,
  pow_bits bits hb,
  mod-eq_of_lt {n = i} {m = 2 ^ bits},
  mod-eq_of_lt {n = int_mask bits} {m = 2 ^ bits},
  decode_first (i - int_mask bits) (i - int_mask bits) (int_mask bits) rest,
)

-- A number that is read takes at least one byte of the block, and is a quint16.
decode_loop-shorter :
    (src : Bytes) (dst m v : ℕ) (rest : Bytes)
    → decode_loop src dst m ≡ read v rest
    → (v < 2 ^ 16) × (length rest < length src)
unfolding decode_loop
decode_loop-shorter [] dst m v rest e = cc
decode_loop-shorter (b ∷ bs) dst m v rest e =
    ground
      (arith, decode_loop-shorter bs ((dst + b % 128 * 2 ^ m % 2 ^ 32) % 2 ^ 16) (m + 7) v rest)

pub decode_uint-shorter :
    (src : Bytes) (bits v : ℕ) (rest : Bytes)
    → bits ≤ 8
    → decode_uint src bits ≡ read v rest
    → (v < 2 ^ 16) × (length rest < length src)
unfolding decode_uint
decode_uint-shorter [] bits v rest hb e = cc
decode_uint-shorter (b ∷ bs) bits v rest hb e =
    ground (arith, decode_loop-shorter bs (int_mask bits) 0 v rest, pow_bits bits hb)

-- The first byte that encodeUInt16 writes with a prefix of seven bits has its top bit clear.
pub encode_uint_head : (i : ℕ) → (b : ℕ) × (t : Bytes) × (encode_uint i 7 ≡ b ∷ t) × (b < 128)
unfolding encode_uint
encode_uint_head i = elim (Bool-cases (ltb i 127)) [
  | inl small ↦ (i, [], rw small refl, ground arith)
  | inr large ↦ (127, encode_loop (i - 127) (i - 127), rw large refl, omega arith)
]

-- Inversion of a successful chain.
pub then_read-eq-read {ℓ κ} :
    {A : Type ℓ} {B : Type κ} (m : Read A) (f : A → Bytes → Read B) {b : B} {rest : Bytes}
    → then_read m f ≡ read b rest
    → (a : A) × (buf : Bytes) × (m ≡ read a buf) × (f a buf ≡ read b rest)
then_read-eq-read (read a buf) f e = (a, buf, refl, e)
then_read-eq-read failed f e = cc
then_read-eq-read undefined f e = cc
