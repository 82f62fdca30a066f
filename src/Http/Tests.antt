-- ===== src/Http/Tests.antt =====
-- Requests through ProtocolHttp::parse of Cutelyst/Server/protocolhttp.cpp.
use cutelyst.Common.{
  ap, ◌-◌, Bytes, List, [], ◌∷◌, ◌++◌, true, false, Option, none, some, codes, ◌≡◌, ◌≢◌, refl, All,
  arith,
}
use cutelyst.Common.Int.{ℤ, pos, negsuc}
use cutelyst.EngineRequest.{set_path}
use cutelyst.Http.Lines.Laws.{IsLine, crlf}
use cutelyst.Http.Requests.{
  HeaderConnection, not_set, keep, close, ProtoRequest, parse_method, note_header,
}
use cutelyst.Http.Requests.Laws.{request_line, parse_method-request_line}
use cutelyst.Http.Parse.{
  method_line, processed, connection_close, Answer, finished, later, Connection, Server,
  process_request, parse,
}
use cutelyst.Http.Parse.Laws.{parse-ne-none}
use cutelyst.Http.Parse.Splits.{IsWaiting, arrive, waiting, parse_split, parse_split_crlf}
use cutelyst.Http.Parse.Heads.{IsField}
use cutelyst.Http.Parse.Whole.{
  IsFresh, HasNoLength, request_of, behind_head, closing_events, request_text, parse-no_body,
  parse-body,
}
use cutelyst.Http.Parse.Closed.{parse-closed_twice}
use cutelyst.Headers.{Headers}
use cutelyst.Http.Responses.{http11_status_message, write_headers}
use cutelyst.Http.Responses.Laws.{lines_text, write_headers-lines}

abbrev same_bytes : Bytes → Bytes
same_bytes s = s

-- A number of one digit, as QByteArray::toLongLong reads it.
abbrev one_digit : Bytes → Option ℤ
one_digit (c ∷ []) = some (pos (c - 0x30))
one_digit _ = none

abbrev closing : Answer
closing = finished close true

abbrev a_server : Answer → Server
a_server answer = record {
  buffer_size = 4096;
  post_buffer_size = 4096;
  using_frontend_proxy = false;
  server_address = codes "localhost";
  remote_address = codes "127.0.0.1";
  remote_port = 40000;
  is_secure = false;
  read_fails = false;
  can_create_body = λ n. true;
  from_utf8 = same_bytes;
  to_long_long = one_digit;
  upgrade_h2c = λ q. false;
  answer = λ q body. answer;
}

abbrev no_request : ProtoRequest
no_request = record {
  method = [];
  path = [];
  query = [];
  protocol = [];
  headers = [];
  content_length = negsuc 0;
  header_connection = not_set;
  header_host = false;
  server_address = codes "localhost";
  remote_address = codes "127.0.0.1";
  remote_port = 40000;
  x_forwarded_for = false;
  x_forwarded_host = false;
  x_forwarded_proto = false;
  is_secure = false;
}

abbrev new_connection : Connection
new_connection = record {
  io = [];
  buffer = [];
  last = 0;
  begin_line = 0;
  conn_state = method_line;
  request = no_request;
  body = none;
  async = false;
  events = [];
}

abbrev get_line : Bytes
get_line = codes "GET /a HTTP/1.1"

new_connection-IsFresh : IsFresh new_connection
new_connection-IsFresh = record {
  nothing_to_read = refl;
  nothing_read = refl;
  at_the_start = (refl, refl);
  not_async = refl;
  no_line_yet = refl;
}

new_connection-IsWaiting : IsWaiting new_connection
new_connection-IsWaiting = record {
  nothing_to_read = refl;
  all_seen = refl;
  not_async = refl;
  not_body = refl;
}

abbrev host_field : List (Bytes × Bytes)
host_field = (codes "Host", codes "x") ∷ []

abbrev length_field : List (Bytes × Bytes)
length_field = (codes "Content-Length", codes "2") ∷ []

get_line-IsLine : IsLine get_line
get_line-IsLine = omega arith

length_field-IsField : All IsField length_field
length_field-IsField = ground arith

host_field-IsField : All IsField host_field
host_field-IsField = ground arith

no_length :
    HasNoLength (request_of (a_server closing) get_line host_field no_request).content_length
unfolding note_header parse_method
no_length = tt

two_given : (request_of (a_server closing) get_line length_field no_request).content_length ≡ pos 2
unfolding note_header parse_method
two_given = refl

parse-ne-none_example :
    parse (a_server later) (arrive (request_text get_line host_field []) new_connection) ≢ none
parse-ne-none_example =
    parse-ne-none (a_server later) (omega arith)
      (arrive (request_text get_line host_field []) new_connection)

parse_split_example :
    (c' : Connection) × (parse (a_server later) (arrive (codes "GET") new_connection) ≡ some c')
    × (parse (a_server later) (arrive (codes " /" ++ crlf (codes "Ho")) c')
        ≡ parse
            (a_server later)
            (arrive (codes "GET" ++ (codes " /" ++ crlf (codes "Ho"))) new_connection))
parse_split_example =
    parse_split (a_server later) new_connection new_connection-IsWaiting refl (codes "GET")
      (codes " /") (codes "Ho") (omega arith) (omega arith) (omega arith)

parse_split_crlf_example :
    (parse (a_server later) (arrive (get_line ++ 0xd ∷ []) new_connection)
      ≡ some (waiting new_connection (get_line ++ 0xd ∷ [])))
    × (parse
          (a_server later)
          (arrive (0xa ∷ codes "Ho") (waiting new_connection (get_line ++ 0xd ∷ [])))
        ≡ some (waiting new_connection (get_line ++ crlf (codes "Ho"))))
parse_split_crlf_example =
    parse_split_crlf (a_server later) new_connection new_connection-IsWaiting refl get_line
      (codes "Ho") get_line-IsLine (omega arith) (omega arith)

parse-no_body_example :
    parse (a_server closing) (arrive (request_text get_line host_field []) new_connection)
    ≡ some
        (process_request
          (a_server closing)
          (behind_head (a_server closing) get_line host_field [] new_connection)).0
parse-no_body_example =
    parse-no_body (a_server closing) new_connection get_line host_field [] new_connection-IsFresh
      refl get_line-IsLine host_field-IsField (omega arith) refl no_length

parse-body_example :
    (c' : Connection) × (parse
        (a_server closing)
        (arrive (request_text get_line length_field (codes "hi")) new_connection)
      ≡ some c')
    × (c'.events
        ≡ ([]
            ++ (processed
                  (request_of (a_server closing) get_line length_field no_request)
                  (some (codes "hi"))
                ∷ []))
          ++ closing_events closing)
parse-body_example =
    parse-body (a_server closing) new_connection get_line length_field (codes "hi")
      new_connection-IsFresh refl get_line-IsLine length_field-IsField (omega arith) (omega arith)
      two_given refl refl

-- The engine closes the connection at the first request, and finds it closed at the next.
abbrev close_once : HeaderConnection → Answer
close_once close = finished close false
close_once _ = closing

abbrev closing_server : Server
closing_server = record (a_server closing) { answer = λ q body. close_once q.header_connection }

no_connection_yet :
    (request_of closing_server get_line host_field no_request).header_connection ≡ not_set
unfolding note_header parse_method
no_connection_yet = refl

no_length_here :
    HasNoLength (request_of closing_server get_line host_field no_request).content_length
unfolding note_header parse_method
no_length_here = tt

parse-closed_twice_example :
    (c' : Connection) × (parse closing_server
        (arrive (request_text get_line host_field (crlf [])) new_connection)
      ≡ some c')
    × (c'.events
        ≡ processed (request_of closing_server get_line host_field no_request) none
          ∷ connection_close
          ∷ processed
              (record (request_of closing_server get_line host_field no_request) {
                header_connection = close;
              })
              none
          ∷ [])
parse-closed_twice_example =
    parse-closed_twice closing_server new_connection get_line host_field new_connection-IsFresh refl
      get_line-IsLine host_field-IsField (omega arith) no_length_here (λ q. refl)
      (ap close_once no_connection_yet) close refl

parse_method-request_line_example :
    parse_method same_bytes
      (request_line (codes "GET") (codes "/a") (some (codes "b=c")) (codes "HTTP/1.1"))
      no_request
    ≡ record no_request {
      method = codes "GET";
      path = set_path same_bytes (codes "/a");
      query = codes "b=c";
      protocol = codes "HTTP/1.1";
    }
parse_method-request_line_example =
    parse_method-request_line same_bytes (codes "GET") (codes "/a") (some (codes "b=c"))
      (codes "HTTP/1.1") no_request (ground arith) (ground arith) (omega arith) (ground arith)
      (ground arith)

abbrev known : ProtoRequest
known = record no_request { content_length = pos 2; header_connection = keep; header_host = true }

abbrev reply_fields : Headers
reply_fields = (codes "Server", codes "x") ∷ []

write_headers-lines_example :
    (text : Bytes) × (write_headers false 200 reply_fields not_set
        (codes "HTTP/1.1")
        (codes "today")
      ≡ some (text, keep))
    × (text ++ []
        ≡ lines_text
            (http11_status_message 200
              ∷ codes "Server: x"
              ∷ codes "Connection: keep-alive"
              ∷ codes "Date: today"
              ∷ [])
            [])
write_headers-lines_example =
    write_headers-lines false 200 reply_fields not_set (codes "HTTP/1.1") (codes "today") [] refl
