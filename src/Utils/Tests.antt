-- ===== src/Utils/Tests.antt =====
-- Queries and values through the decoders of Cutelyst/utils.cpp.
use cutelyst.Common.{◌≡◌, ◌≢◌, refl, Bytes, List, [], ◌∷◌, map, All, codes, arith}
use cutelyst.EngineRequest.{hex_digit}
use cutelyst.Utils.{process_key_pair, query_plain, query_loop, decode_query}
use cutelyst.Utils.Laws.{encode_pairs, IsPair, both_texts, decode_query-encode_pairs}

abbrev same_text : Bytes → Bytes
same_text s = s

-- Names without a value, empty parts and plus signs.
mixed_query :
    decode_query same_text (codes "a=1+2&&b&c=%41")
    ≡ (codes "a", codes "1 2") ∷ (codes "b", []) ∷ (codes "c", codes "A") ∷ []
unfolding decode_query query_loop query_plain process_key_pair hex_digit
mixed_query = refl

abbrev two_pairs : List (Bytes × Bytes)
two_pairs = (codes "a", codes "&") ∷ (codes "b", codes "=") ∷ []

two_pairs-IsPair : All IsPair two_pairs
two_pairs-IsPair =
    (((omega arith, tt), (omega arith, tt)), (((omega arith, tt), (omega arith, tt)), tt))

decode_query-encode_pairs_example :
    decode_query same_text (encode_pairs two_pairs) ≡ map (both_texts same_text) two_pairs
decode_query-encode_pairs_example = decode_query-encode_pairs same_text two_pairs two_pairs-IsPair

a_plus-IsPlain : All (λ x. x ≢ 0x25) (codes "a+")
a_plus-IsPlain = (omega arith, (omega arith, tt))
