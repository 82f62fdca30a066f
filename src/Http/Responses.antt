-- ===== src/Http/Responses.antt =====
-- The head of a response: http11StatusMessage and ProtoRequestHttp::writeHeaders of
-- Cutelyst/Server/protocolhttp.cpp, and ServerEngine::dateHeader of Cutelyst/Server/serverengine.cpp,
-- for which the text of the date is a parameter.
pub mod Laws
use cutelyst.Common.{
  ℕ, ◌==◌, if◌then◌else◌, Bytes, List, [], ◌∷◌, ◌++◌, Bool, true, false, not, ◌&&◌, ◌||◌, Option,
  none, some, codes, bytes_eq, same_key,
}
use cutelyst.Hpack.Encoder.{number}
use cutelyst.Headers.{Headers}
use cutelyst.Http.Requests.{HeaderConnection, not_set, keep, close, upgrade, is_not_set}

abbrev status_messages : List (ℕ × Bytes)
status_messages =
    (200, codes "HTTP/1.1 200 OK")
    ∷ (302, codes "HTTP/1.1 302 Found")
    ∷ (404, codes "HTTP/1.1 404 Not Found")
    ∷ (500, codes "HTTP/1.1 500 Internal Server Error")
    ∷ (301, codes "HTTP/1.1 301 Moved Permanently")
    ∷ (304, codes "HTTP/1.1 304 Not Modified")
    ∷ (303, codes "HTTP/1.1 303 See Other")
    ∷ (403, codes "HTTP/1.1 403 Forbidden")
    ∷ (307, codes "HTTP/1.1 307 Temporary Redirect")
    ∷ (401, codes "HTTP/1.1 401 Unauthorized")
    ∷ (400, codes "HTTP/1.1 400 Bad Request")
    ∷ (405, codes "HTTP/1.1 405 Method Not Allowed")
    ∷ (408, codes "HTTP/1.1 408 Request Timeout")
    ∷ (100, codes "HTTP/1.1 100 Continue")
    ∷ (101, codes "HTTP/1.1 101 Switching Protocols")
    ∷ (201, codes "HTTP/1.1 201 Created")
    ∷ (202, codes "HTTP/1.1 202 Accepted")
    ∷ (203, codes "HTTP/1.1 203 Non-Authoritative Information")
    ∷ (204, codes "HTTP/1.1 204 No Content")
    ∷ (205, codes "HTTP/1.1 205 Reset Content")
    ∷ (206, codes "HTTP/1.1 206 Partial Content")
    ∷ (300, codes "HTTP/1.1 300 Multiple Choices")
    ∷ (305, codes "HTTP/1.1 305 Use Proxy")
    ∷ (402, codes "HTTP/1.1 402 Payment Required")
    ∷ (406, codes "HTTP/1.1 406 Not Acceptable")
    ∷ (407, codes "HTTP/1.1 407 Proxy Authentication Required")
    ∷ (409, codes "HTTP/1.1 409 Conflict")
    ∷ (410, codes "HTTP/1.1 410 Gone")
    ∷ (411, codes "HTTP/1.1 411 Length Required")
    ∷ (412, codes "HTTP/1.1 412 Precondition Failed")
    ∷ (413, codes "HTTP/1.1 413 Request Entity Too Large")
    ∷ (414, codes "HTTP/1.1 414 Request-URI Too Long")
    ∷ (415, codes "HTTP/1.1 415 Unsupported Media Type")
    ∷ (416, codes "HTTP/1.1 416 Requested Range Not Satisfiable")
    ∷ (417, codes "HTTP/1.1 417 Expectation Failed")
    ∷ (501, codes "HTTP/1.1 501 Not Implemented")
    ∷ (502, codes "HTTP/1.1 502 Bad Gateway")
    ∷ (503, codes "HTTP/1.1 503 Service Unavailable")
    ∷ (207, codes "HTTP/1.1 207 Multi-Status")
    ∷ (504, codes "HTTP/1.1 504 Gateway Timeout")
    ∷ (505, codes "HTTP/1.1 505 HTTP Version Not Supported")
    ∷ (509, codes "HTTP/1.1 509 Bandwidth Limit Exceeded")
    ∷ []

abbrev message_in : ℕ → List (ℕ × Bytes) → Bytes
message_in status [] = codes "HTTP/1.1 " ++ number status
message_in status ((code, message) ∷ rest) =
    if code == status then message else message_in status rest

pub http11_status_message : ℕ → Bytes
http11_status_message status = message_in status status_messages

pub record HeadState : Type 0 where
  pub text : Bytes
  pub connection : HeaderConnection
  pub has_date : Bool

abbrev pub add_line : Bytes → Bytes → Bytes
add_line text line = text ++ (0xd ∷ 0xa ∷ line)

abbrev pub connection_of : Bytes → HeaderConnection
connection_of value =
    if bytes_eq value (codes "close")
    then close
    else if bytes_eq value (codes "Upgrade")
    then upgrade
    else keep

-- A round of the loop over the header fields.
pub write_field : Bytes → Bytes → HeadState → HeadState
write_field key value s =
    let s' =
      if is_not_set s.connection && same_key key (codes "Connection")
      then record s { connection = connection_of value }
      else if not s.has_date && same_key key (codes "Date")
      then record s { has_date = true }
      else s in
    record s' { text = add_line s.text (key ++ (0x3a ∷ 0x20 ∷ value)) }

pub write_fields : Headers → HeadState → HeadState
unfolding write_field
write_fields [] s = s
write_fields ((key, value) ∷ headers) s = write_fields headers (write_field key value s)

abbrev pub is_keep : HeaderConnection → Bool
is_keep keep = true
is_keep _ = false

abbrev pub is_close : HeaderConnection → Bool
is_close close = true
is_close _ = false

-- The line on the connection where no field was one.
pub write_connection : HeaderConnection → Bytes → HeadState → HeadState
write_connection fallback protocol s =
    if not (is_not_set s.connection)
    then s
    else if is_keep fallback || not (is_close fallback) && bytes_eq protocol (codes "HTTP/1.1")
    then record s { text = add_line s.text (codes "Connection: keep-alive"); connection = keep }
    else record s { text = add_line s.text (codes "Connection: close"); connection = close }

pub write_date : Bytes → HeadState → HeadState
write_date date s =
    if s.has_date then s else record s { text = add_line s.text (codes "Date: " ++ date) }

-- ProtoRequestHttp::writeHeaders: the bytes written with the connection behind it, or `none` where
-- it refuses, on a WebSocket.
pub write_headers :
    Bool → ℕ → Headers → HeaderConnection → Bytes → Bytes → Option (Bytes × HeaderConnection)
unfolding http11_status_message write_fields write_connection write_date
write_headers websocket_upgraded status headers fallback protocol date =
    let start : HeadState = record {
      text = http11_status_message status;
      connection = not_set;
      has_date = false;
    } in
    let s = write_date date (write_connection fallback protocol (write_fields headers start)) in
    if websocket_upgraded && not (status == 101)
    then none
    else some (s.text ++ (0xd ∷ 0xa ∷ 0xd ∷ 0xa ∷ []), s.connection)
