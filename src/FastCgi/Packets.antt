-- ===== src/FastCgi/Packets.antt =====
-- The records that a web server sends: ProtocolFastCGI::processPacket, writeBody and readBody of
-- Cutelyst/Server/protocolfastcgi.cpp.
pub mod Written
pub mod Laws
pub mod Whole
pub mod Padding
use cutelyst.Common.{
  ℕ, zero, suc, ◌+◌, ◌-◌, ◌*◌, ◌%◌, min, ◌==◌, Bytes, List, [], ◌∷◌, ◌++◌, Bool, true, false, not,
  ◌&&◌, ◌||◌, if◌then◌else◌, ltb, Option, none, some, take, drop, length, is_empty,
}
use cutelyst.Common.Int.{ℤ, negsuc}
use cutelyst.Http.Requests.{keep, close, ProtoRequest}
use cutelyst.Http.Parse.{ParserState, method_line, content_body}
use cutelyst.FastCgi.Params.{Readers, byte_at, parsed, refused, parse_headers}

abbrev pub fcgi_begin_request : ℕ
fcgi_begin_request = 1

abbrev pub fcgi_params : ℕ
fcgi_params = 4

abbrev pub fcgi_stdin : ℕ
fcgi_stdin = 5

-- What is seen outside: a request handed to the engine, bytes written, and the ends of a connection.
pub data Event : Type 0 where
  processed : ProtoRequest → Option Bytes → Event
  wrote : Bytes → Event
  connection_close io_close : Event

-- The connection's ProtoRequestFastCGI. `buffer` is the first `buf_size` bytes of the buffer and
-- `behind` the memory after them; while a body is read `buf_size` counts the padding that is left,
-- which is `pad` here. `io` is the bytes that the socket has and that are not read yet.
pub record Connection : Type 0 where
  pub io : Bytes
  pub is_open : Bool
  pub buffer : Bytes
  pub behind : Bytes
  pub pad : ℕ
  pub pktsize : ℕ
  pub stream_id : ℕ
  pub conn_state : ParserState
  pub request : ProtoRequest
  pub body : Option Bytes
  pub async : Bool
  pub events : List Event

-- What the engine does with a request before it returns: it finishes it, with the socket still
-- connected or not, or goes on later.
pub data Answer : Type 0 where
  finished : Bool → Answer
  later : Answer

-- Members of the protocol, and what is called elsewhere: Qt's readers, whether a body can be made for
-- a length, how many bytes of a write the body takes, whether the socket's reads fail
-- after what happened so far, and the engine.
pub record Server : Type 0 where
  pub qt : Readers
  pub buffer_size : ℕ
  pub post_buffer_size : ℕ
  pub can_create_body : ℤ → Bool
  pub body_takes : Bytes → ℕ → ℕ
  pub read_fails : List Event → Bool
  pub answer : ProtoRequest → Option Bytes → Answer

-- What processPacket returns; `undefined` is a `memmove` of a negative number of bytes.
pub data Packet : Type 0 where
  wsgi_ok wsgi_again wsgi_body wsgi_error : Connection → Packet
  undefined : Packet
  out_of_fuel : Packet

-- fcgi_len and fcgi_all_len of the record at the front of the buffer.
abbrev pub content_length : Bytes → ℕ
content_length buffer = byte_at (drop 5 buffer) + byte_at (drop 4 buffer) * 0x100

abbrev pub padding : Bytes → ℕ
padding buffer = byte_at (drop 6 buffer)

abbrev pub all_length : Bytes → ℕ
all_length buffer = 8 + content_length buffer + padding buffer

-- The `memmove` to the front, and `buf_size` less; the bytes moved stay behind them too.
abbrev pub shift : ℕ → Connection → Option Connection
shift n c =
    if ltb (length c.buffer) n
    then none
    else some (record c {
      buffer = drop n c.buffer;
      behind = drop (length c.buffer - n) c.buffer ++ c.behind;
    })

-- A record that is not STDIN and not there as a whole.
abbrev pub waits : Bytes → Bool
waits buffer =
    not (byte_at (drop 1 buffer) == fcgi_stdin) && ltb (length buffer) (all_length buffer)

abbrev pub with_id : Connection → Connection
with_id c = record c { stream_id = byte_at (drop 3 c.buffer) + byte_at (drop 2 c.buffer) * 0x100 }

-- Behind a record it is moved away, and the loop ends at the end of the input, or goes on.
abbrev pub moved : Option Connection → (Connection → Packet) → Packet
moved none next = undefined
moved (some c) next = next c

pub after_record : ℕ → (Connection → Packet) → Packet → Packet
after_record all next (wsgi_ok c) = moved (shift all c) wsgi_ok
after_record all next (wsgi_again c) = moved (shift all c) next
after_record all next (wsgi_body c) = wsgi_body c
after_record all next (wsgi_error c) = wsgi_error c
after_record all next undefined = undefined
after_record all next out_of_fuel = out_of_fuel

module _ (server : Server) where
  -- The body as it is or as it is made; `none` where it cannot be made.
  abbrev opened : Connection → Option Bytes
  opened c = elim c.body [
    | some body ↦ some body
    | none ↦ if server.can_create_body c.request.content_length then some [] else none
  ]

  -- writeBody: the connection then, and whether all was written.
  pub write_body : Bytes → Connection → Connection × Bool
  write_body buf c = elim (opened c) [
    | none ↦ (c, false)
    | some body ↦
        let len = server.body_takes body (length buf) in
        (record c { body = some (body ++ take len buf) }, len == length buf)
  ]

  -- BEGIN_REQUEST: the flags are the third byte behind the record's header.
  pub begin_request : Connection → Connection
  begin_request c =
      let flags = byte_at (drop 10 (c.buffer ++ c.behind)) in
      record c {
        conn_state = method_line;
        request = record c.request {
          header_connection = if flags % 2 == 1 then keep else close;
          content_length = negsuc 0;
          headers = [];
        };
      }

  -- A whole record other than STDIN.
  pub other_record : ℕ → ℕ → Connection → Packet
  other_record type_ len c =
      if type_ == fcgi_params
      then elim (parse_headers server.qt server.buffer_size (drop 8 (c.buffer ++ c.behind)) len
          (record { head = c.request; pktsize = c.pktsize })) [
            | parsed p ↦ wsgi_again (record c { request = p.head; pktsize = p.pktsize })
            | refused p ↦ wsgi_error (record c { request = p.head; pktsize = p.pktsize })
            | _ ↦ out_of_fuel
          ]
      else if type_ == fcgi_begin_request
      then wsgi_again (begin_request c)
      else wsgi_again c

  -- A STDIN record with content; `wsgi_again` where it was whole.
  pub stdin_record : ℕ → Connection → Packet
  stdin_record len c =
      let content_size = length c.buffer - 8 in
      let (c', complete) = write_body (take (min content_size len) (drop 8 c.buffer)) c in
      if not complete
      then wsgi_error c'
      else if ltb content_size len
      then wsgi_body (record c' {
        conn_state = content_body;
        pktsize = len - content_size;
        pad = padding c.buffer;
        buffer = [];
        behind = c.buffer ++ c.behind;
      })
      else wsgi_again c'

  -- What a round does with the record at the front; after `wsgi_again` the record is moved away.
  pub take_record : Connection → Packet
  take_record c =
      let type_ = byte_at (drop 1 c.buffer) in
      let len = content_length c.buffer in
      if type_ == fcgi_stdin
      then (if len == 0 then wsgi_ok c else stdin_record len c)
      else other_record type_ len c

  -- processPacket: the record at the front is looked at where it is whole, or is STDIN.
  pub process_packet : ℕ → Connection → Packet
  process_packet zero c = out_of_fuel
  process_packet (suc fuel) c =
      if ltb (length c.buffer) 8
      then wsgi_again c
      else if waits c.buffer
      then wsgi_again (with_id c)
      else after_record (all_length c.buffer) (λ d. process_packet fuel d) (take_record (with_id c))

  -- The bytes of a read in the middle of a body: those of the content go to the body.
  pub take_bytes : Bytes → Connection → Connection
  take_bytes chunk c =
      let content = take (min c.pktsize (length chunk)) chunk in
      let body : Bytes = elim c.body [ none ↦ [] | some b ↦ b ] in
      record c {
        pktsize = c.pktsize - length chunk;
        pad = c.pad - (length chunk - c.pktsize);
        body = some (body ++ take (server.body_takes body (length content)) content);
      }

  -- The loop of readBody; false where a read fails.
  pub body_loop : ℕ → Connection → Option (Connection × Bool)
  body_loop zero c = none
  body_loop (suc fuel) c =
      let n = min server.post_buffer_size (c.pktsize + c.pad) in
      let again = body_loop fuel (take_bytes (take n c.io) (record c { io = drop n c.io })) in
      if is_empty c.io || (c.pktsize + c.pad == 0)
      then some (c, true)
      else if server.read_fails c.events
      then some (record c { events = c.events ++ (connection_close ∷ []) }, false)
      else again

  abbrev body_end : Connection → Connection
  body_end c = if c.pktsize + c.pad == 0 then record c { conn_state = method_line } else c

  -- readBody; a round reads a byte at least.
  pub read_body : Connection → Option (Connection × Bool)
  read_body c = elim (body_loop (suc (length c.io)) c) [
    | some (c', true) ↦ some (body_end c', true)
    | other ↦ other
  ]
