-- ===== src/Hpack/Integer/Tests.antt =====
-- The number 1337 with a prefix of five bits, the example of RFC 7541 appendix C.1.2.
use cutelyst.Common.{◌≡◌, refl, [], ◌∷◌, ◌++◌, arith}
use cutelyst.Hpack.Integer.{read, decode_uint, encode_uint}
use cutelyst.Hpack.Integer.Laws.{decode_uint-encode_uint}

encode_1337 : encode_uint 1337 5 ≡ 31 ∷ 154 ∷ 10 ∷ []
unfolding encode_uint
encode_1337 = refl

decode_uint-encode_uint_example :
    decode_uint (encode_uint 1337 5 ++ (7 ∷ [])) 5 ≡ read 1337 (7 ∷ [])
decode_uint-encode_uint_example =
    decode_uint-encode_uint 1337 5 (7 ∷ []) (omega arith) (omega arith)
