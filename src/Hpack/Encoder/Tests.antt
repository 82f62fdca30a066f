-- ===== src/Hpack/Encoder/Tests.antt =====
-- HPack::encodeHeaders (Cutelyst/Server/hpack.cpp) on a response with one header.
use cutelyst.Common.{
  ℕ, suc, ◌+◌, ◌≡◌, refl, Bytes, List, [], ◌∷◌, ◌++◌, map, length, codes, arith, All,
}
use cutelyst.Hpack.Integer.{read}
use cutelyst.Hpack.Strings.{HuffDecode}
use cutelyst.Hpack.Encoder.{number, encode_headers}
use cutelyst.Hpack.Encoder.Blocks.{
  IsShort, h2_field, read_fields, added_date, encode_headers-reads_back,
}

-- An automaton that accepts everything and has no symbols.
abbrev silent_table : ℕ → ℕ → HuffDecode
silent_table state nibble = record { state = 0; flags = 1; sym = 0 }

abbrev one_header : List (Bytes × Bytes)
one_header = (codes "X-Frame_Options", codes "DENY") ∷ []

abbrev server_date : Bytes
server_date = 13 ∷ 10 ∷ codes "Date: Mon, 01 Jan 2024 00:00:00 GMT"

one_header-IsShort : All IsShort one_header
one_header-IsShort = ((omega arith, omega arith), tt)

encode_headers-reads_back_example :
    read_fields silent_table
      (suc (length one_header + length (added_date one_header server_date)))
      (encode_headers 302 one_header server_date)
    ≡ read
        ((codes ":status", number 302)
          ∷ (map h2_field one_header ++ added_date one_header server_date))
        []
encode_headers-reads_back_example =
    encode_headers-reads_back silent_table 302 one_header server_date one_header-IsShort refl
