-- ===== src/Http/Requests.antt =====
-- The request line and the header lines: ProtocolHttp::parseMethod and ProtocolHttp::parseHeader of
-- Cutelyst/Server/protocolhttp.cpp. A line is the bytes from `ptr` to `end`; the byte at `end`, which
-- the loops look at, is the carriage return behind the line.
pub mod Laws
use cutelyst.Common.{
  ℕ, ◌==◌, if◌then◌else◌, Bytes, [], ◌∷◌, Bool, true, false, ◌&&◌, ◌||◌, not, Option, none, some,
  codes, bytes_eq, same_key,
}
use cutelyst.Common.Int.{ℤ, pos, negsuc}
use cutelyst.EngineRequest.{set_path}
use cutelyst.Headers.{Headers, push_header}

-- ProtocolData::HeaderConnection.
pub data HeaderConnection : Type 0 where
  not_set keep close upgrade : HeaderConnection

-- The members of EngineRequest and ProtocolData that a request's head writes. The remote address is
-- the text that QHostAddress::setAddress is given.
pub record ProtoRequest : Type 0 where
  pub method : Bytes
  pub path : Bytes
  pub query : Bytes
  pub protocol : Bytes
  pub headers : Headers
  pub content_length : ℤ
  pub header_connection : HeaderConnection
  pub header_host : Bool
  pub server_address : Bytes
  pub remote_address : Bytes
  pub remote_port : ℕ
  pub x_forwarded_for : Bool
  pub x_forwarded_host : Bool
  pub x_forwarded_proto : Bool
  pub is_secure : Bool

-- The loop `while (*word_boundary != … && word_boundary < end)`: the bytes passed, and the rest.
pub until : (ℕ → Bool) → Bytes → Bytes × Bytes
until stop [] = ([], [])
until stop (c ∷ s) =
    let (word, rest) = until stop s in if stop c then ([], c ∷ s) else (c ∷ word, rest)

-- The same loop where the bytes passed are not used.
abbrev pub skip : (ℕ → Bool) → Bytes → Bytes
skip pass s = (until (λ c. not (pass c)) s).1

abbrev pub is_blank : ℕ → Bool
is_blank c = c == 0x20

abbrev pub ends_path : ℕ → Bool
ends_path c = c == 0x20 || c == 0x3f

-- What stands behind the path: the query, if a question mark does, and the rest.
pub query_of : Bytes → Bytes × Bytes
query_of [] = ([], [])
query_of (c ∷ s) = if c == 0x3f then until is_blank s else ([], c ∷ s)

unfoldable pub parse_method : (Bytes → Bytes) → Bytes → ProtoRequest → ProtoRequest
unfolding query_of
parse_method from_utf8 line r =
    let (word, behind_method) = until is_blank line in
    let (path, behind_path) = until ends_path (skip is_blank behind_method) in
    let (query, behind_query) = query_of behind_path in
    let (protocol, _) = until is_blank (skip is_blank behind_query) in
    record r { method = word; path = set_path from_utf8 path; query = query; protocol = protocol }

-- What the proxy in front is believed.
forwarded_header : Bytes → Bytes → ProtoRequest → ProtoRequest
forwarded_header key value r =
    if not r.x_forwarded_for
      && (same_key key (codes "X-Forwarded-For") || same_key key (codes "X-Real-Ip"))
    then record r { remote_address = value; remote_port = 0; x_forwarded_for = true }
    else if not r.x_forwarded_host && same_key key (codes "X-Forwarded-Host")
    then record r { server_address = value; x_forwarded_host = true; header_host = true }
    else if not r.x_forwarded_proto && same_key key (codes "X-Forwarded-Proto")
    then record r { is_secure = bytes_eq value (codes "https"); x_forwarded_proto = true }
    else r

abbrev pub is_not_set : HeaderConnection → Bool
is_not_set not_set = true
is_not_set _ = false

abbrev pub is_negative : ℤ → Bool
is_negative (pos n) = false
is_negative (negsuc n) = true

-- `if (ok && cl >= 0)`; `none` is a false `ok`.
abbrev pub with_length : Option ℤ → ProtoRequest → ProtoRequest
with_length (some (pos n)) r = record r { content_length = pos n }
with_length (some (negsuc n)) r = r
with_length none r = r

-- QByteArray::toLongLong and `usingFrontendProxy` are parameters.
module _ (to_long_long : Bytes → Option ℤ) (using_frontend_proxy : Bool) where
  -- The chain of tests on the key.
  unfoldable pub note_header : Bytes → Bytes → ProtoRequest → ProtoRequest
  unfolding forwarded_header
  note_header key value r =
      if is_not_set r.header_connection && same_key key (codes "Connection")
      then record r { header_connection = if same_key value (codes "close") then close else keep }
      else if is_negative r.content_length && same_key key (codes "Content-Length")
      then with_length (to_long_long value) r
      else if not r.header_host && same_key key (codes "Host")
      then record r { server_address = value; header_host = true }
      else if using_frontend_proxy
      then forwarded_header key value r
      else r

  pub parse_header : Bytes → ProtoRequest → ProtoRequest
  parse_header line r =
      let (key, behind) = until (λ c. c == 0x3a) line in
      let value = skip (λ c. c == 0x3a || c == 0x20) behind in
      let r' = note_header key value r in record r' { headers = push_header key value r'.headers }
