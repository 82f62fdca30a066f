-- ===== src/Http/Parse.antt =====
-- The read loop of HTTP/1: ProtocolHttp::parse and processRequest, and what
-- ProtoRequestHttp::processingFinished leaves (Cutelyst/Server/protocolhttp.cpp).
pub mod Laws
pub mod Splits
pub mod Heads
pub mod Whole
pub mod Closed
use cutelyst.Common.{
  ℕ, zero, suc, ◌+◌, ◌-◌, min, ltb, ◌==◌, if◌then◌else◌, Bytes, List, [], ◌∷◌, ◌++◌, length, take,
  drop, Bool, true, false, not, ◌&&◌, is_empty, Option, none, some,
}
use cutelyst.Common.Int.{ℤ, pos, negsuc}
use cutelyst.Http.Lines.{crlf_index_in}
use cutelyst.Http.Requests.{
  HeaderConnection, not_set, close, upgrade, ProtoRequest, parse_method, parse_header,
}

-- ProtocolData::ParserState, without the frames of HTTP/2.
pub data ParserState : Type 0 where
  method_line header_line content_body : ParserState

-- What is seen outside: a request handed to the engine with its body, and the socket closed.
pub data Event : Type 0 where
  processed : ProtoRequest → Option Bytes → Event
  h2c_upgraded connection_close : Event

-- What the engine does with a request before it returns: it finishes it, with the `Connection` that
-- was answered and whether the socket is still connected, or goes on later, or upgrades it to a
-- WebSocket.
pub data Answer : Type 0 where
  finished : HeaderConnection → Bool → Answer
  later upgraded : Answer

-- The connection's ProtoRequestHttp: the first `buf_size` bytes of the buffer, and `io`, the bytes
-- that the socket has and that are not read yet.
pub record Connection : Type 0 where
  pub io : Bytes
  pub buffer : Bytes
  pub last : ℕ
  pub begin_line : ℕ
  pub conn_state : ParserState
  pub request : ProtoRequest
  pub body : Option Bytes
  pub async : Bool
  pub events : List Event

-- Members of the server and of the socket, and what is called elsewhere: whether reads fail and
-- whether a body can be made, QString::fromUtf8, QByteArray::toLongLong, ProtocolHttp2::upgradeH2C
-- and the engine.
pub record Server : Type 0 where
  pub buffer_size : ℕ
  pub post_buffer_size : ℕ
  pub using_frontend_proxy : Bool
  pub server_address : Bytes
  pub remote_address : Bytes
  pub remote_port : ℕ
  pub is_secure : Bool
  pub read_fails : Bool
  pub can_create_body : ℕ → Bool
  pub from_utf8 : Bytes → Bytes
  pub to_long_long : Bytes → Option ℤ
  pub upgrade_h2c : ProtoRequest → Bool
  pub answer : ProtoRequest → Option Bytes → Answer

abbrev pub emit : Event → Connection → Connection
emit e c = record c { events = c.events ++ (e ∷ []) }

abbrev body_of : Option Bytes → Bytes
body_of none = []
body_of (some body) = body

-- Whether the loop over the lines goes on; `endless` where the fuel of a body's loop ran out.
pub data Turn : Type 0 where
  go_on leave : Connection → Turn
  endless : Turn

abbrev pub leave_with : Option Connection → Turn
leave_with none = endless
leave_with (some c) = leave c

abbrev pub loop_if : Connection × Bool → Turn
loop_if (c, true) = go_on c
loop_if (c, false) = leave c

abbrev natural : ℤ → ℕ
natural (pos n) = n
natural (negsuc n) = 0

abbrev closes : HeaderConnection → Bool
closes close = true
closes _ = false

abbrev pub is_body : ParserState → Bool
is_body content_body = true
is_body _ = false

module _ (server : Server) where
  -- ProtoRequestHttp::resetData.
  pub reset_data : Connection → Connection
  reset_data c = record c {
    buffer = [];
    last = 0;
    begin_line = 0;
    conn_state = method_line;
    body = none;
    async = false;
    request = record c.request {
      header_connection = not_set;
      header_host = false;
      x_forwarded_for = false;
      x_forwarded_host = false;
      x_forwarded_proto = false;
      server_address = server.server_address;
      remote_address = server.remote_address;
      remote_port = server.remote_port;
      is_secure = server.is_secure;
    };
  }

  -- ProtoRequestHttp::processingFinished of a request that was not upgraded, called by the engine
  -- before it returns: pipelined bytes move to the front.
  pub processing_finished : Bool → Connection → Connection
  unfolding reset_data
  processing_finished connected c =
      if not connected
      then c
      else if closes c.request.header_connection
      then emit connection_close c
      else if ltb c.last (length c.buffer)
      then record (reset_data c) { buffer = drop c.last c.buffer }
      else reset_data c

  abbrev pub answered : Answer → Connection → Connection × Bool
  answered (finished connection connected) c = (
    processing_finished connected
        (record c { request = record c.request { header_connection = connection } }),
    true,
  )
  answered later c = (record c { async = true }, false)
  answered upgraded c =
      (record c { buffer = []; request = record c.request { header_connection = upgrade } }, false)

  -- ProtocolHttp::processRequest.
  pub process_request : Connection → Connection × Bool
  unfolding processing_finished
  process_request c =
      if server.upgrade_h2c c.request
      then (emit h2c_upgraded c, false)
      else answered (server.answer c.request c.body) (emit (processed c.request c.body) c)

  -- The loop that reads a body: what it has then, what is left, and `remaining == len`; `none` means
  -- that the fuel ran out.
  pub body_loop : ℕ → ℕ → Bytes → Bytes → Option (Bytes × Bytes × Bool)
  body_loop zero content_length body io = none
  body_loop (suc fuel) content_length body io =
      let remaining = content_length - length body in
      let len = min server.post_buffer_size remaining in
      let rest = drop len io in
      let body' = body ++ take len io in
      let again = body_loop fuel content_length body' rest in
      if not (is_empty rest) && not (remaining == 0)
      then again
      else some (body', rest, remaining == length (take len io))

  -- Behind the loop.
  pub body_read : Connection → Option (Bytes × Bytes × Bool) → Option Connection
  unfolding process_request
  body_read c none = none
  body_read c (some (body, rest, complete)) =
      let c' = record c { io = rest; body = some body } in
      some (if complete then (process_request c').0 else c')

  -- The ContentBody branch of `parse`.
  pub parse_body : Connection → Option Connection
  unfolding body_loop body_read
  parse_body c =
      if server.read_fails
      then some (emit connection_close c)
      else body_read c
          (body_loop (suc (length c.io)) (natural c.request.content_length) (body_of c.body) c.io)

  -- The empty line behind the header lines, with positive `contentLength` or without.
  pub start_body : ℕ → Connection → Turn
  unfolding parse_body process_request
  start_body content_length c =
      let body = take content_length (drop c.last c.buffer) in
      let c' = record c {
        conn_state = content_body;
        body = some body;
        last = c.last + length body;
      } in
      if not (server.can_create_body content_length)
      then leave (emit connection_close (record c { conn_state = content_body; body = none }))
      else if ltb (length body) content_length
      then leave_with (if is_empty c'.io then some c' else parse_body c')
      else loop_if (process_request c')

  pub end_of_head : ℤ → Connection → Turn
  unfolding start_body process_request
  end_of_head (pos (suc n)) c = start_body (suc n) c
  end_of_head (pos zero) c = loop_if (process_request c)
  end_of_head (negsuc n) c = loop_if (process_request c)

  -- A line, by the state.
  pub take_line : ParserState → Bytes → Connection → Turn
  unfolding end_of_head
  take_line method_line line c = go_on (record c {
    conn_state = header_line;
    request = record (parse_method server.from_utf8 line c.request) {
      content_length = negsuc 0;
      headers = [];
    };
  })
  take_line header_line [] c = end_of_head c.request.content_length c
  take_line header_line (x ∷ line) c = go_on (record c {
    request = parse_header server.to_long_long server.using_frontend_proxy (x ∷ line) c.request;
  })
  take_line content_body line c = go_on c

  -- A round of `while (last < buf_size)`, with the line end that was found.
  pub round : Option ℕ → Connection → Turn
  unfolding take_line
  round none c = go_on (record c { last = length c.buffer })
  round (some ix) c =
      take_line c.conn_state (take (ix - c.begin_line) (drop c.begin_line c.buffer))
        (record c { begin_line = ix + 2; last = ix + 2 })

  -- `none` means that the fuel ran out.
  pub line_loop : ℕ → Connection → Option Connection
  unfolding round
  line_loop zero c = none
  line_loop (suc fuel) c =
      if ltb c.last (length c.buffer)
      then elim (round (crlf_index_in c.buffer c.last) c) [
        | go_on c' ↦ line_loop fuel c'
        | leave c' ↦ some c'
        | endless ↦ none
      ]
      else some c

  -- The read into the buffer.
  abbrev pub fill : Connection → Connection
  fill c =
      let room = server.buffer_size - length c.buffer in
      record c { buffer = c.buffer ++ take room c.io; io = drop room c.io }

  pub parse : Connection → Option Connection
  unfolding line_loop parse_body
  parse c =
      if c.async
      then some c
      else if is_body c.conn_state
      then parse_body c
      else if server.read_fails
      then some c
      else line_loop (suc (length (fill c).buffer)) (fill c)
