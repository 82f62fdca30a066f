-- ===== src/WebSocket/Tests.antt =====
-- Frames of Cutelyst/Server/protocolwebsocket.cpp, written, read and delivered.
use cutelyst.Common.{◌<◌, ◌≡◌, refl, Bytes, [], ◌∷◌, false, some, arith, All}
use cutelyst.WebSocket.Receive.{Utf8, headers, ProtoRequest}
use cutelyst.WebSocket.Parse.{Settings, parse}
use cutelyst.WebSocket.Parse.Laws.{Left, parse-Left}
use cutelyst.WebSocket.Parse.Delivery.{client_frame, delivered, parse-delivers}

-- A decoder of ASCII, which has no state and no errors.
abbrev ascii_text : Utf8
ascii_text = record {
  State = Unit;
  fresh = tt;
  decode = λ s bytes. (s, bytes);
  has_error = λ s. false;
  to_utf8 = λ text. text;
}

abbrev small_server : Settings
small_server = record { post_buffer_size = 4096; websockets_max_size = 1048576; read_fails = false }

abbrev idle : ProtoRequest
idle = record {
  message = [];
  payload = [];
  payload_size = 0;
  need = 2;
  mask = 0 ∷ 0 ∷ 0 ∷ 0 ∷ [];
  start_of_frame = 0;
  phase = headers;
  continue_opcode = 0;
  finn_opcode = 0;
  events = [];
}

-- The last frame of a fragmented binary message has been read.
abbrev last_fragment : ProtoRequest
last_fragment = record idle {
  message = 1 ∷ 2 ∷ [];
  payload = 3 ∷ [];
  continue_opcode = 2;
  finn_opcode = 0x80;
}

abbrev some_mask : Bytes
some_mask = 0x37 ∷ 0xfa ∷ 0x21 ∷ 0x3d ∷ []

some_mask-IsByte : All (λ m. m < 256) some_mask
some_mask-IsByte = (omega arith, (omega arith, (omega arith, (omega arith, tt))))

two_bytes-IsByte : All (λ b. b < 256) (0x48 ∷ 0x69 ∷ [])
two_bytes-IsByte = (omega arith, (omega arith, tt))

parse-delivers_example :
    parse ascii_text small_server idle (client_frame 0x37 0xfa 0x21 0x3d (0x48 ∷ 0x69 ∷ []))
    ≡ some (delivered some_mask (0x48 ∷ 0x69 ∷ []) idle, [])
parse-delivers_example =
    parse-delivers ascii_text small_server idle 0x37 0xfa 0x21 0x3d 0x48 (0x69 ∷ []) refl
      (omega arith) refl refl refl some_mask-IsByte two_bytes-IsByte (omega arith)

parse-Left_example :
    Left 1048576 (parse ascii_text small_server idle (0x81 ∷ 0 ∷ [])) (0x81 ∷ 0 ∷ [])
parse-Left_example =
    parse-Left ascii_text small_server (omega arith) idle (0x81 ∷ 0 ∷ []) (omega arith) refl
