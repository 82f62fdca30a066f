-- ===== src/Hpack/Strings/Laws.antt =====
-- The string literals of Cutelyst/Server/hpack.cpp: plain values read back, keys halved.
use cutelyst.Common.{append-nil}
use cutelyst.Common.{ℕ, zero, suc, ◌%◌, ◌^◌, ◌≤◌, ◌<◌, ◌≡◌, refl, ◌∙◌, arith}
use cutelyst.Common.{Bytes, [], ◌∷◌, ◌++◌, length, length-append, length-drop, false}
use cutelyst.Common.{take-length-append, drop-length-append, append_assoc}
use cutelyst.Hpack.Integer.{read, decode_uint, encode_uint}
use cutelyst.Hpack.Integer.Laws.{
  decode_uint-encode_uint, decode_uint-shorter, encode_uint_head, then_read-eq-read,
}
use cutelyst.Hpack.Strings.{HuffDecode, is_upper, decode_string, parse_string}
use cutelyst.Hpack.Strings.{key_loop, parse_string_key}

module _ (table : ℕ → ℕ → HuffDecode) where
  plain_literal :
      (b : ℕ) (t v rest : Bytes)
      → b < 128
      → decode_uint (b ∷ t) 7 ≡ read (length v) (v ++ rest)
      → parse_string table (b ∷ t) ≡ read v rest
  unfolding parse_string
  plain_literal b t v rest hb e = ground (
    arith,
    length-append {0} v rest,
    take-length-append {0} v rest,
    drop-length-append {0} v rest,
  )

  -- A plain value of fewer than 2 ^ 16 bytes, written as its length by encodeUInt16 and its bytes,
  -- is read back by parse_string, which leaves what follows it.
  pub parse_string-plain :
      (v rest : Bytes)
      → length v < 2 ^ 16
      → parse_string table (encode_uint (length v) 7 ++ (v ++ rest)) ≡ read v rest
  parse_string-plain v rest h =
      let (b, t, e, hb) = encode_uint_head (length v) in
      let d = decode_uint-encode_uint (length v) 7 (v ++ rest) h (omega arith) in
      rw e (plain_literal b (t ++ (v ++ rest)) v rest hb (rw e at d))

-- The bytes of a key that parse_string_key keeps: the second of each pair.
abbrev seconds : Bytes → Bytes
seconds [] = []
seconds (c ∷ []) = []
seconds (c ∷ d ∷ k) = d ∷ seconds k

-- No byte that parse_string_key tests is an upper-case letter.
abbrev LowerFirsts : Bytes → Type 0
LowerFirsts [] = Unit
LowerFirsts (c ∷ []) = is_upper c ≡ false
LowerFirsts (c ∷ d ∷ k) = (is_upper c ≡ false) × LowerFirsts k

abbrev IsEven : ℕ → Type 0
IsEven n = n % 2 ≡ 0

key_loop-seconds :
    (k rest dst : Bytes)
    → IsEven (length k)
    → LowerFirsts k
    → key_loop (length k) (k ++ rest) dst ≡ read (dst ++ seconds k) rest
unfolding key_loop
key_loop-seconds [] rest dst h l = rw append-nil refl
key_loop-seconds (c ∷ []) rest dst h l = absurd (omega arith)
key_loop-seconds (c ∷ d ∷ k) rest dst h (l, ls) =
    rw l (key_loop-seconds k rest (dst ++ (d ∷ [])) (omega arith) ls ∙ rw append_assoc refl)

module _ (table : ℕ → ℕ → HuffDecode) where
  plain_key :
      (b : ℕ) (t k rest : Bytes)
      → b < 128
      → decode_uint (b ∷ t) 7 ≡ read (length k) (k ++ rest)
      → parse_string_key table (b ∷ t) ≡ key_loop (length k) (k ++ rest) []
  unfolding parse_string_key
  plain_key b t k rest hb e = ground (arith, length-append {0} k rest)

  -- Of a plain key of even length, fewer than 2 ^ 16 bytes and no upper-case letter among its
  -- first, third, fifth … bytes, parse_string_key keeps only the second, fourth, sixth … byte.
  parse_string_key-halves :
      (k rest : Bytes)
      → length k < 2 ^ 16
      → IsEven (length k)
      → LowerFirsts k
      → parse_string_key table (encode_uint (length k) 7 ++ (k ++ rest)) ≡ read (seconds k) rest
  parse_string_key-halves k rest h ev lf =
      let (b, t, e, hb) = encode_uint_head (length k) in
      let d = decode_uint-encode_uint (length k) 7 (k ++ rest) h (omega arith) in
      rw e (plain_key b (t ++ (k ++ rest)) k rest hb (rw e at d) ∙ key_loop-seconds k rest [] ev lf)

  decode_string-shorter :
      (len : ℕ) (src v rest : Bytes)
      → decode_string table len src ≡ read v rest
      → length rest ≤ length src
  unfolding decode_string
  decode_string-shorter len src v rest e = ground (arith, length-drop {0} len src)

  -- A literal that is read takes at least one byte of the block.
  pub parse_string-shorter :
      (src v rest : Bytes) → parse_string table src ≡ read v rest → length rest < length src
  unfolding parse_string
  parse_string-shorter [] v rest e = cc
  parse_string-shorter (b ∷ bs) v rest e =
      let (len, buf, d, r) = then_read-eq-read (decode_uint (b ∷ bs) 7) _ e in
      ground (
        arith,
        decode_uint-shorter (b ∷ bs) 7 len buf,
        decode_string-shorter len buf v rest,
        length-drop {0} len buf,
      )

  key_loop-shorter :
      (n : ℕ) (buf dst v rest : Bytes) → key_loop n buf dst ≡ read v rest → length rest ≤ length buf
  unfolding key_loop
  key_loop-shorter zero buf dst v rest e = ground arith
  key_loop-shorter (suc n) [] dst v rest e = cc
  key_loop-shorter (suc n) (c ∷ []) dst v rest e = ground arith
  key_loop-shorter (suc zero) (c ∷ d ∷ buf) dst v rest e = ground arith
  key_loop-shorter (suc (suc n)) (c ∷ d ∷ buf) dst v rest e =
      ground (arith, key_loop-shorter n buf (dst ++ (d ∷ [])) v rest)

  -- A key literal that is read takes at least one byte of the block.
  pub parse_string_key-shorter :
      (src v rest : Bytes) → parse_string_key table src ≡ read v rest → length rest < length src
  unfolding parse_string_key
  parse_string_key-shorter [] v rest e = cc
  parse_string_key-shorter (b ∷ bs) v rest e =
      let (len, buf, d, r) = then_read-eq-read (decode_uint (b ∷ bs) 7) _ e in
      ground (
        arith,
        decode_uint-shorter (b ∷ bs) 7 len buf,
        decode_string-shorter len buf v rest,
        key_loop-shorter len buf [] v rest,
      )
