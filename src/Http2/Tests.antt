-- ===== src/Http2/Tests.antt =====
-- Frames through Cutelyst/Server/protocolhttp2.cpp.
use cutelyst.Common.{◌++◌, Bytes, [], ◌∷◌, true, false, none, codes, ◌≡◌, refl, arith}
use cutelyst.Common.Int.{pos}
use cutelyst.Hpack.Decoder.{Host}
use cutelyst.Http2.Frames.{method_line, Connection, frame_header}
use cutelyst.Http2.Streams.{Server}
use cutelyst.Http2.Parse.{preface, frame_of, out_of_fuel, parse}
use cutelyst.Http2.Parse.Laws.{
  Ends, parse-IsConnection, cut_header, parse-cut_header, frame_of-frame_header,
}

abbrev ascii_host : Host
ascii_host = record {
  table = λ state nibble. record { state = 0; flags = 1; sym = 0 };
  from_utf8 = λ s. s;
  to_long_long = λ s. pos 0;
}

abbrev a_server : Server
a_server = record {
  host = ascii_host;
  takes = λ out bytes. true;
  can_create_body = true;
  buffer_size = 16393;
  header_table_size = 4096;
  server_address = codes "localhost";
  is_secure = false;
  read_fails = false;
}

-- A connection on which `io` has come.
abbrev connection : Bytes → Connection
connection io = record {
  io = io;
  out = [];
  buffer = [];
  behind = [];
  conn_state = method_line;
  headers_buffer = [];
  hpack = none;
  stream_for_continuation = 0;
  max_stream_id = 0;
  window_size = pos 65535;
  settings_initial_window_size = 65535;
  settings_max_frame_size = 16384;
  can_push = true;
  streams = [];
  events = [];
}

-- The preface, the settings, and GET / for localhost in the static table.
abbrev greeting : Connection
greeting =
    connection
      (preface ++ frame_header 4 0 0 0 ++ frame_header 1 5 1 3 ++ (0x82 ∷ 0x84 ∷ 0x86 ∷ []))

parse-IsConnection_example : Ends (parse a_server 1 5 greeting)
parse-IsConnection_example = parse-IsConnection a_server 1 5 greeting (tt, tt, tt)

parse-cut_header_example :
    parse a_server 2 5 (cut_header a_server (1 ∷ 2 ∷ []) greeting) ≡ out_of_fuel
parse-cut_header_example =
    parse-cut_header a_server 2 5 1 (2 ∷ []) greeting refl (omega arith) (omega arith)

frame_of-frame_header_example :
    frame_of (frame_header 1 5 3 70000 ++ (0x82 ∷ []))
    ≡ record { len = 70000; stream_id = 3; type_ = 1; flags = 5 }
frame_of-frame_header_example =
    frame_of-frame_header 1 5 3 70000 (0x82 ∷ []) (omega arith) (omega arith)
