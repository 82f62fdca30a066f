-- ===== src/Http2/Streams.antt =====
-- The streams of an HTTP/2 connection and what the handlers of its frames share:
-- Cutelyst/Server/protocolhttp2.cpp.
pub mod Laws
use cutelyst.Common.{
  ℕ, ◌+◌, ◌*◌, ◌/◌, ◌%◌, ◌==◌, Bytes, List, [], ◌∷◌, Bool, true, false, if◌then◌else◌, drop, Option,
  none, some,
}
use cutelyst.FastCgi.Params.{byte_at}
use cutelyst.Hpack.Decoder.{Host}
use cutelyst.Http2.Frames.{
  State, idle, open_, half_closed, closed, Stream, queued, Connection, emit, Takes, send_go_away,
}

-- What the protocol takes from elsewhere: the decoder's host, the socket, whether a body can be made,
-- and the members of the socket that a stream starts with.
pub record Server : Type 0 where
  pub host : Host
  pub takes : Takes
  pub can_create_body : Bool
  pub buffer_size : ℕ
  pub header_table_size : ℕ
  pub server_address : Bytes
  pub is_secure : Bool
  pub read_fails : Bool

-- A handler's result: 0, another number, or a read that may leave the buffer.
pub data Handled : Type 0 where
  handled refused : Connection → Handled
  undefined : Handled

abbrev pub from_send : Connection × Bool → Handled
from_send (c, true) = handled c
from_send (c, false) = refused c

abbrev pub bit : ℕ → ℕ → Bool
bit flags mask = flags / mask % 2 == 1

-- net_be32.
abbrev pub net_be32 : Bytes → ℕ
net_be32 at =
    byte_at at * 0x1000000
    + byte_at (drop 1 at) * 0x10000
    + byte_at (drop 2 at) * 0x100
    + byte_at (drop 3 at)

pub find_stream : ℕ → List Stream → Option Stream
find_stream id [] = none
find_stream id (s ∷ streams) =
    let later = find_stream id streams in if s.stream_id == id then some s else later

-- A stream changed in place, or inserted.
pub put_stream : Stream → List Stream → List Stream
put_stream s [] = s ∷ []
put_stream s (t ∷ streams) =
    let later = put_stream s streams in
    if t.stream_id == s.stream_id then s ∷ streams else t ∷ later

abbrev pub with_stream : Stream → Connection → Connection
with_stream s c = record c { streams = put_stream s c.streams }

abbrev pub is_idle : State → Bool
is_idle idle = true
is_idle _ = false

abbrev pub is_open : State → Bool
is_open open_ = true
is_open _ = false

abbrev pub is_half_closed : State → Bool
is_half_closed half_closed = true
is_half_closed _ = false

abbrev pub is_closed : State → Bool
is_closed closed = true
is_closed _ = false

abbrev pub max_window : ℕ
max_window = 2147483647

-- queueStream.
abbrev pub queue_stream : Stream → Connection → Connection
queue_stream s c = emit (queued s.stream_id s.request s.body) c

module _ (server : Server) where
  -- `return sendGoAway(…)`.
  abbrev pub go_away : ℕ → Connection → Handled
  go_away error c = from_send (send_go_away server.takes error c)
