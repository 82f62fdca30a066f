-- ===== src/FastCgi/Tests.antt =====
-- Requests through Cutelyst/Server/protocolfastcgi.cpp.
use cutelyst.Common.{
  Bytes, List, [], ◌∷◌, ◌++◌, true, false, none, some, codes, length, All, ◌≡◌, refl, arith,
}
use cutelyst.Common.Int.{pos, negsuc}
use cutelyst.Http.Requests.{ProtoRequest, not_set}
use cutelyst.Http.Parse.{method_line}
use cutelyst.FastCgi.Params.{Readers, Params, parsed, parse_headers}
use cutelyst.FastCgi.Params.RoundTrip.{encode_pairs, note_pairs, IsPair, parse_headers-encode_pairs}
use cutelyst.FastCgi.Params.Laws.{IsKey}
use cutelyst.FastCgi.Packets.{processed, Connection, Server, finished}
use cutelyst.FastCgi.Packets.Laws.{Record, params, input, IsRecord, TakesBodies}
use cutelyst.FastCgi.Packets.Whole.{request_text, effects, begun}
use cutelyst.FastCgi.Packets.Padding.{cut_text}
use cutelyst.FastCgi.Parse.{emit, answered, broken, parse}
use cutelyst.FastCgi.Parse.Laws.{waiting, settled, parse-request, parse-broken}
use cutelyst.FastCgi.Records.{Takes, wrote, do_write}
use cutelyst.FastCgi.Records.Laws.{read_stdout, do_write-reads_back}

abbrev same_bytes : Bytes → Bytes
same_bytes s = s

abbrev some_readers : Readers
some_readers = record {
  from_utf8 = same_bytes;
  to_uint = λ s. length s;
  to_int = λ s. pos (length s);
}

abbrev no_request : ProtoRequest
no_request = record {
  method = [];
  path = [];
  query = [];
  protocol = [];
  headers = [];
  content_length = negsuc 0;
  header_connection = not_set;
  header_host = false;
  server_address = [];
  remote_address = [];
  remote_port = 0;
  x_forwarded_for = false;
  x_forwarded_host = false;
  x_forwarded_proto = false;
  is_secure = false;
}

abbrev a_server : Server
a_server = record {
  qt = some_readers;
  buffer_size = 4096;
  post_buffer_size = 4096;
  can_create_body = λ n. true;
  body_takes = λ body n. n;
  read_fails = λ events. false;
  answer = λ r body. finished true;
}

abbrev a_connection : Connection
a_connection = record {
  io = [];
  is_open = true;
  buffer = [];
  behind = [];
  pad = 0;
  pktsize = 0;
  stream_id = 0;
  conn_state = method_line;
  request = no_request;
  body = none;
  async = false;
  events = [];
}

abbrev some_pairs : List (Bytes × Bytes)
some_pairs =
    (codes "REQUEST_METHOD", codes "POST")
    ∷ (codes "REQUEST_URI", codes "/a?b")
    ∷ (codes "HTTP_HOST", codes "localhost")
    ∷ []

method-IsKey : IsKey (codes "REQUEST_METHOD")
method-IsKey = ((refl, (refl, (refl, (refl, (refl, (refl, (refl, (refl, tt)))))))), refl)

uri-IsKey : IsKey (codes "REQUEST_URI")
uri-IsKey = ((refl, (refl, (refl, (refl, (refl, (refl, (refl, (refl, tt)))))))), refl)

host-IsKey : IsKey (codes "HTTP_HOST")
host-IsKey = ((refl, (refl, (refl, (refl, (refl, (refl, (refl, (refl, tt)))))))), refl)

pairs-IsPair : All IsPair some_pairs
pairs-IsPair =
    ((method-IsKey, omega arith), ((uri-IsKey, omega arith), ((host-IsKey, omega arith), tt)))

abbrev no_params : Params
no_params = record { head = no_request; pktsize = 0 }

parse_headers-encode_pairs_example :
    parse_headers some_readers 4096 (encode_pairs some_pairs []) 57 no_params
    ≡ parsed (note_pairs some_readers some_pairs no_params)
parse_headers-encode_pairs_example =
    parse_headers-encode_pairs some_readers 4096 some_pairs [] no_params pairs-IsPair (omega arith)
      (omega arith) (omega arith)

abbrev some_records : List Record
some_records = params some_pairs 3 ∷ params [] 0 ∷ input (codes "a=") 6 ∷ input (codes "b") 0 ∷ []

records-IsRecord : All IsRecord some_records
records-IsRecord = (
  (pairs-IsPair, omega arith),
  ((tt, omega arith), ((omega arith, omega arith), ((omega arith, omega arith), tt))),
)

bodies-TakesBodies : TakesBodies a_server
bodies-TakesBodies = ((λ n. refl), (λ body n. refl))

parse-request_example :
    let r = effects a_server some_records (begun 1 true (waiting [] a_connection)) in
    (behind : Bytes) × (parse a_server
        (waiting (request_text 1 true some_records 2 []) a_connection)
      ≡ settled (
          answered
            (finished true)
            (emit (processed r.request r.body) (record r { buffer = []; behind = behind }))))
parse-request_example =
    parse-request a_server a_connection 1 true some_records 2 refl (omega arith) records-IsRecord
      bodies-TakesBodies (omega arith) (omega arith) (omega arith)

parse-broken_example :
    parse a_server (waiting (cut_text 1 (codes "a=b") 5 (0 ∷ 0 ∷ [])) a_connection) ≡ broken
parse-broken_example =
    parse-broken a_server a_connection 1 (codes "a=b") 5 (0 ∷ 0 ∷ []) refl bodies-TakesBodies
      (omega arith) (omega arith) (omega arith) (omega arith)

abbrev takes_all : Takes
takes_all out bytes = some (length bytes)

do_write-reads_back_example :
    (text : Bytes) × (do_write takes_all 1 (codes "Status: 200") [] ≡ wrote ([] ++ text) 11)
    × (read_stdout 12 1 text ≡ some (codes "Status: 200"))
do_write-reads_back_example =
    do_write-reads_back takes_all 1 (codes "Status: 200") [] (λ out bytes. refl) (omega arith)
      (omega arith)
