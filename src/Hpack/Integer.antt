-- ===== src/Hpack/Integer.antt =====
-- The prefixed integers of Cutelyst/Server/hpack.cpp: decodeUInt16 and encodeUInt16.
pub mod Laws
mod Tests
use cutelyst.Common.{ℕ, zero, suc, ◌+◌, ◌-◌, ◌*◌, ◌/◌, ◌%◌, ◌^◌, ltb, leb, ◌==◌, if◌then◌else◌}
use cutelyst.Common.{Bytes, [], ◌∷◌}

-- What a read from the block between `src` and `src_end` gives: a value with the bytes that
-- follow it, a null pointer (`failed`), or `undefined`: a read at or behind `src_end` that the
-- code does not check, or a shift by the width of `int` or more.
pub data Read {ℓ} (A : Type ℓ) : Type ℓ where
  read : A → Bytes → Read A
  failed : Read A
  undefined : Read A

-- Go on with the value and the rest.
abbrev pub then_read {ℓ κ} : {A : Type ℓ} {B : Type κ} → Read A → (A → Bytes → Read B) → Read B
then_read (read a rest) f = f a rest
then_read failed f = failed
then_read undefined f = undefined

-- INT_MASK(bits). For such a mask `x & mask` is `x % 2 ^ bits`.
abbrev pub int_mask : ℕ → ℕ
int_mask bits = 2 ^ bits - 1

-- The `do … while` loop of decodeUInt16. The list starts at `src + 1`; `dst` is a quint16, and
-- the 32-bit `(*src & 0x7f) << M` has no meaning for M of 32 and more.
unfoldable pub decode_loop : Bytes → ℕ → ℕ → Read ℕ
decode_loop [] dst m = failed
decode_loop (b ∷ rest) dst m =
    let dst' = (dst + b % 128 * 2 ^ m % 2 ^ 32) % 2 ^ 16 in
    let more = decode_loop rest dst' (m + 7) in
    if leb 32 m then undefined else if b / 128 % 2 == 0 then read dst' rest else more

unfoldable pub decode_uint : Bytes → ℕ → Read ℕ
unfolding decode_loop
decode_uint [] bits = undefined
decode_uint (b ∷ rest) bits =
    if b % 2 ^ bits == int_mask bits
    then decode_loop rest (int_mask bits) 0
    else read (b % 2 ^ bits) rest

-- The `while (I >= 128)` loop of encodeUInt16; the fuel starts at I and I / 128 is smaller, so
-- it is never used up.
pub encode_loop : ℕ → ℕ → Bytes
encode_loop zero i = i ∷ []
encode_loop (suc fuel) i =
    let rest = encode_loop fuel (i / 128) in if ltb i 128 then i ∷ [] else (i % 128 + 128) ∷ rest

unfoldable pub encode_uint : ℕ → ℕ → Bytes
unfolding encode_loop
encode_uint i bits =
    if ltb i (int_mask bits)
    then i ∷ []
    else int_mask bits ∷ encode_loop (i - int_mask bits) (i - int_mask bits)
