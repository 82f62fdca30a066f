-- ===== src/FastCgi/Params/Lengths.antt =====
-- The lengths of FastCGI's pairs, written and read back, with the bytes behind `j` for the buffer.
use cutelyst.Common.{
  ℕ, ◌+◌, ◌/◌, ◌%◌, ◌<◌, Bytes, [], ◌∷◌, ◌++◌, if◌then◌else◌, ltb, some, length, drop, ◌≡◌, arith,
}
use cutelyst.FastCgi.Params.{take_length, long_length}

-- A length as the FastCGI specification writes it: a byte, or four with the first bit set.
abbrev pub encode_length : ℕ → Bytes
encode_length n =
    if ltb n 0x80
    then n ∷ []
    else (0x80 + n / 0x1000000) ∷ (n / 0x10000 % 0x100) ∷ (n / 0x100 % 0x100) ∷ (n % 0x100) ∷ []

abbrev pub length_size : ℕ → ℕ
length_size n = if ltb n 0x80 then 1 else 4

pub length-encode_length : (n : ℕ) → length (encode_length n) ≡ length_size n
length-encode_length n = ground arith

-- A length is read back where a byte follows it in the record.
pub take_length-encode_length :
    (buf rest : Bytes) (len j n : ℕ)
    → n < 0x80000000
    → drop j buf ≡ encode_length n ++ rest
    → j + length_size n < len
    → take_length buf len j ≡ some (n, j + length_size n)
unfolding take_length long_length
take_length-encode_length buf rest len j n small at fits = rw (at, take_length) (ground arith)
