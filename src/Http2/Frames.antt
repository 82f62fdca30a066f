-- ===== src/Http2/Frames.antt =====
-- The state of an HTTP/2 connection and the frames that are written: sendFrame, sendGoAway,
-- sendRstStream, sendSettings, sendPing of Cutelyst/Server/protocolhttp2.cpp.
pub mod Laws
use cutelyst.Common.{
  ℕ, ◌+◌, ◌/◌, ◌%◌, ◌==◌, Bytes, List, [], ◌∷◌, ◌++◌, Bool, true, false, not, ◌&&◌, if◌then◌else◌,
  length, Option,
}
use cutelyst.Common.Int.{ℤ}
use cutelyst.Hpack.Table.{HPack}
use cutelyst.Hpack.Decoder.{H2Stream}

-- H2Stream::State.
pub data State : Type 0 where
  idle open_ half_closed closed : State

-- An H2Stream, with the members that the decoder of headers writes apart.
pub record Stream : Type 0 where
  pub stream_id : ℕ
  pub window_size : ℤ
  pub consumed_data : ℕ
  pub state : State
  pub body : Option Bytes
  pub request : H2Stream

-- H2Frame.
pub record Frame : Type 0 where
  pub len : ℕ
  pub stream_id : ℕ
  pub type_ : ℕ
  pub flags : ℕ

pub data ParserState : Type 0 where
  method_line h2_frames : ParserState

-- What is seen outside: a stream handed to the engine, and the connection closed.
pub data Event : Type 0 where
  queued : ℕ → H2Stream → Option Bytes → Event
  connection_close : Event

-- The connection's ProtoRequestHttp2. `buffer` is the first `buf_size` bytes of the buffer, `behind`
-- the memory after them, `io` what the socket has, and `out` what was written to it.
pub record Connection : Type 0 where
  pub io : Bytes
  pub out : Bytes
  pub buffer : Bytes
  pub behind : Bytes
  pub conn_state : ParserState
  pub headers_buffer : Bytes
  pub hpack : Option HPack
  pub stream_for_continuation : ℕ
  pub max_stream_id : ℕ
  pub window_size : ℤ
  pub settings_initial_window_size : ℕ
  pub settings_max_frame_size : ℕ
  pub can_push : Bool
  pub streams : List Stream
  pub events : List Event

abbrev pub emit : Event → Connection → Connection
emit e c = record c { events = c.events ++ (e ∷ []) }

abbrev pub be32 : ℕ → Bytes
be32 n = (n / 0x1000000 % 0x100) ∷ (n / 0x10000 % 0x100) ∷ (n / 0x100 % 0x100) ∷ (n % 0x100) ∷ []

-- The h2_frame in front of `len` bytes.
unfoldable pub frame_header : ℕ → ℕ → ℕ → ℕ → Bytes
frame_header type_ flags stream_id len =
    (len / 0x10000 % 0x100) ∷ (len / 0x100 % 0x100) ∷ (len % 0x100) ∷ type_ ∷ flags ∷ be32 stream_id

-- Whether the socket takes a write whole, given what was written before; of one that it does not take,
-- nothing is written.
abbrev pub Takes : Type 0
Takes = Bytes → Bytes → Bool

abbrev io_write : Takes → Bytes → Connection → Connection × Bool
io_write takes bytes c =
    if takes c.out bytes then (record c { out = c.out ++ bytes }, true) else (c, false)

module _ (takes : Takes) where
  -- sendFrame; true is the result 0.
  pub send_frame : ℕ → ℕ → ℕ → Bytes → Connection → Connection × Bool
  send_frame type_ flags stream_id bytes c =
      let (c1, header) = io_write takes (frame_header type_ flags stream_id (length bytes)) c in
      let (c2, content) = io_write takes bytes c1 in
      if not header then (c1, false) else if length bytes == 0 then (c1, true) else (c2, content)

  -- sendGoAway; false is a result other than 0, and the connection is closed for it.
  pub send_go_away : ℕ → Connection → Connection × Bool
  send_go_away error c =
      let (c', ok) = send_frame 7 0 0 (be32 c.max_stream_id ++ be32 error) c in
      (c', error == 0 && ok)

  pub send_rst_stream : ℕ → ℕ → Connection → Connection × Bool
  send_rst_stream stream_id error c =
      let (c', ok) = send_frame 3 0 stream_id (be32 error) c in (c', error == 0 && ok)

  abbrev setting : ℕ → ℕ → Bytes
  setting identifier value = (identifier / 0x100 % 0x100) ∷ (identifier % 0x100) ∷ be32 value

  abbrev settings_text : List (ℕ × ℕ) → Bytes
  settings_text [] = []
  settings_text ((identifier, value) ∷ settings) =
      setting identifier value ++ settings_text settings

  pub send_settings : List (ℕ × ℕ) → Connection → Connection × Bool
  send_settings settings = send_frame 4 0 0 (settings_text settings)

  pub send_settings_ack : Connection → Connection × Bool
  send_settings_ack = send_frame 4 1 0 []

  pub send_ping : ℕ → Bytes → Connection → Connection × Bool
  send_ping flags bytes = send_frame 6 flags 0 bytes
