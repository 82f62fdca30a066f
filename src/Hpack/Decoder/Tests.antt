-- ===== src/Hpack/Decoder/Tests.antt =====
-- HPack::decode (Cutelyst/Server/hpack.cpp) on a concrete block.
use cutelyst.Common.{◌≡◌, ◌≢◌, refl, Bytes, [], ◌∷◌, true, false, codes, arith}
use cutelyst.Common.Int.{pos}
use cutelyst.EngineRequest.{path_loop, path_text, set_path}
use cutelyst.Hpack.Integer.{decode_uint}
use cutelyst.Hpack.Strings.{parse_string}
use cutelyst.Hpack.Table.{DynamicTableEntry, HPack, evict, add_entry}
use cutelyst.Hpack.Table.Laws.{IsValid}
use cutelyst.Hpack.Decoder.{
  H2Stream, Host, Decoding, leading_slashes, store_path, valid_pseudo_header, consume_header,
  valid_header, take_field, dynamic_field, indexed_field, indexed_round, literal_name,
  literal_value, literal_round, decode_round, returned, out_of_fuel, complete, decode_loop, decode,
}
use cutelyst.Hpack.Decoder.Runs.{decode-ne-out_of_fuel}
use cutelyst.Hpack.Decoder.Invariants.{IsSound, IsRequest, decode-IsRequest, decode-IsValid}
use cutelyst.Hpack.Decoder.PseudoHeaders.{Keeps, decode-Keeps}

-- An automaton that accepts everything and a decoder of ASCII.
abbrev ascii_host : Host
ascii_host = record {
  table = λ state nibble. record { state = 0; flags = 1; sym = 0 };
  from_utf8 = λ s. s;
  to_long_long = λ s. pos 0;
}

abbrev fresh_stream : H2Stream
fresh_stream = record {
  path = [];
  query = [];
  method = [];
  scheme = [];
  server_address = [];
  is_secure = false;
  got_path = false;
  content_length = pos 0;
  headers = [];
}

-- `:method: GET`, `:scheme: http`, `:path: /`, and `user-agent: x` with indexing.
abbrev get_block : Bytes
get_block = 0x82 ∷ 0x86 ∷ 0x84 ∷ 0x7a ∷ 1 ∷ 0x78 ∷ []

abbrev agent_entry : DynamicTableEntry
agent_entry = record { key = codes "user-agent"; value = codes "x" }

-- A table of 64 bytes that is full.
abbrev full_table : HPack
full_table = record {
  dynamic_table = record { key = codes "old"; value = codes "entry" } ∷ [];
  dynamic_table_size = 40;
  current_max_dynamic_table_size = 64;
  max_table_size = 64;
}

full_table-IsValid : IsValid full_table
full_table-IsValid = record { counted = refl; within = omega arith; limited = omega arith }

abbrev get_decoded : Decoding
get_decoded = record {
  hpack = record {
    dynamic_table = agent_entry ∷ [];
    dynamic_table_size = 43;
    current_max_dynamic_table_size = 64;
    max_table_size = 64;
  };
  stream = record {
    path = codes "/";
    query = [];
    method = codes "GET";
    scheme = codes "http";
    server_address = [];
    is_secure = false;
    got_path = true;
    content_length = pos 0;
    headers = (codes "user-agent", codes "x") ∷ [];
  };
  pseudo_headers_allowed = false;
  allowed_to_update = false;
}

decode_get : decode ascii_host get_block full_table fresh_stream ≡ returned 0 get_decoded
unfolding decode decode_loop decode_round indexed_round literal_round literal_name literal_value
    take_field valid_pseudo_header store_path leading_slashes consume_header valid_header
    indexed_field dynamic_field complete path_loop path_text set_path decode_uint parse_string evict
    add_entry
decode_get = refl

fresh_stream-IsSound : IsSound fresh_stream
fresh_stream-IsSound = record { regular = tt; path_leads = λ e. ground arith }

decode-IsRequest_example : IsRequest get_decoded.stream
decode-IsRequest_example =
    decode-IsRequest ascii_host get_block full_table fresh_stream get_decoded fresh_stream-IsSound
      decode_get

decode-IsValid_example : IsValid get_decoded.hpack
decode-IsValid_example =
    decode-IsValid ascii_host get_block full_table fresh_stream 0 get_decoded full_table-IsValid
      decode_get

decode-Keeps_example : Keeps fresh_stream get_decoded.stream
decode-Keeps_example =
    decode-Keeps ascii_host get_block full_table fresh_stream 0 get_decoded decode_get

decode-ne-out_of_fuel_example : decode ascii_host get_block full_table fresh_stream ≢ out_of_fuel
decode-ne-out_of_fuel_example = decode-ne-out_of_fuel ascii_host get_block full_table fresh_stream
