-- ===== src/FastCgi/Parse.antt =====
-- The read loop of FastCGI: ProtocolFastCGI::parse, and what ProtoRequestFastCGI::processingFinished
-- leaves (Cutelyst/Server/protocolfastcgi.cpp).
pub mod Laws
use cutelyst.Common.{
  ℕ, zero, suc, ◌+◌, ◌-◌, ltb, if◌then◌else◌, [], ◌∷◌, ◌++◌, length, take, drop, Bool, true, false,
  not, ◌||◌, is_empty, Option, none, some,
}
use cutelyst.Http.Requests.{HeaderConnection, not_set, close}
use cutelyst.Http.Parse.{method_line, is_body}
use cutelyst.FastCgi.Packets.{
  Event, processed, wrote, connection_close, io_close, Connection, Answer, finished, later, Server,
  Packet, wsgi_ok, wsgi_again, wsgi_body, wsgi_error, undefined, out_of_fuel, process_packet,
  read_body,
}
use cutelyst.FastCgi.Records.{end_request}

abbrev pub emit : Event → Connection → Connection
emit e c = record c { events = c.events ++ (e ∷ []) }

-- ProtoRequestFastCGI::resetData, behind which `buf_size` is what it was.
pub reset_data : Connection → Connection
reset_data c = record c {
  conn_state = method_line;
  stream_id = 0;
  pktsize = 0;
  body = none;
  async = false;
  request = record c.request {
    header_connection = not_set;
    header_host = false;
    x_forwarded_for = false;
    x_forwarded_host = false;
    x_forwarded_proto = false;
  };
}

abbrev closes : HeaderConnection → Bool
closes close = true
closes _ = false

-- processingFinished, for a socket that is still connected or not. The call of `parse` at its end is
-- under a test of the status that resetData has just reset, and never made.
pub processing_finished : Bool → Connection → Connection
processing_finished connected c =
    let c' = emit (wrote (end_request c.stream_id)) c in
    if not connected
    then c'
    else if closes c.request.header_connection
    then emit connection_close c'
    else reset_data c'

-- Whether the read loop goes on.
pub data Turn : Type 0 where
  goes leaves : Connection → Turn
  breaks : Turn
  stalls : Turn

-- A request handed to the engine.
pub answered : Answer → Connection → Turn
answered (finished connected) c = goes (processing_finished connected c)
answered later c = leaves (record c { async = true })

-- What readBody leaves.
pub body_read : Option (Connection × Bool) → Turn
body_read none = stalls
body_read (some (c, true)) = goes c
body_read (some (c, false)) = leaves c

-- How parse ends: as it should, in a `memmove` without a meaning, or with no fuel left.
pub data Outcome : Type 0 where
  done : Connection → Outcome
  broken : Outcome
  stuck : Outcome

module _ (server : Server) where
  pub after_packet : Packet → Turn
  after_packet (wsgi_ok c) =
      answered (server.answer c.request c.body) (emit (processed c.request c.body) c)
  after_packet (wsgi_again c) = goes c
  after_packet (wsgi_body c) = body_read (read_body server c)
  after_packet (wsgi_error c) = goes (emit io_close (record c { is_open = false }))
  after_packet undefined = breaks
  after_packet out_of_fuel = stalls

  -- The read into the buffer, and what is done with it.
  pub read_turn : Connection → Turn
  read_turn c =
      let room = server.buffer_size - length c.buffer in
      let chunk = take room c.io in
      let c' = record c {
        io = drop room c.io;
        buffer = c.buffer ++ chunk;
        behind = drop (length chunk) c.behind;
      } in
      if not c.is_open || server.read_fails c.events || is_empty chunk
      then leaves c
      else if ltb (length c'.buffer) 8
      then goes c'
      else after_packet (process_packet server (suc (length c'.buffer)) c')

  -- `do … while (bytesAvailable)`.
  pub parse_loop : ℕ → Connection → Outcome
  parse_loop zero c = stuck
  parse_loop (suc fuel) c = elim (read_turn c) [
    | goes c' ↦ elim (is_empty c'.io) [ true ↦ done c' | false ↦ parse_loop fuel c' ]
    | leaves c' ↦ done c'
    | breaks ↦ broken
    | stalls ↦ stuck
  ]

  pub parse : Connection → Outcome
  parse c =
      if c.async
      then done c
      else if not (is_body c.conn_state)
      then parse_loop (suc (length c.io)) c
      else elim (body_read (read_body server c)) [
        | goes c' ↦ parse_loop (suc (length c.io)) c'
        | leaves c' ↦ done c'
        | breaks ↦ broken
        | stalls ↦ stuck
      ]
