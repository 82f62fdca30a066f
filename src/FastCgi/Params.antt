-- ===== src/FastCgi/Params.antt =====
-- The parameters of a request: ProtocolFastCGI::addHeader and ProtocolFastCGI::parseHeaders of
-- Cutelyst/Server/protocolfastcgi.cpp.
pub mod Laws
pub mod Lengths
pub mod RoundTrip
pub mod Bounds
use cutelyst.Common.{
  ℕ, zero, suc, ◌+◌, ◌-◌, ◌*◌, ◌%◌, ◌==◌, Bytes, [], ◌∷◌, true, false, not, ◌&&◌, ◌||◌,
  if◌then◌else◌, ltb, leb, Option, none, some, map, take, drop, codes, bytes_eq, index_of, is_empty,
}
use cutelyst.Common.Int.{ℤ}
use cutelyst.EngineRequest.{set_path}
use cutelyst.Headers.{push_header, set_header}
use cutelyst.Http.Requests.{ProtoRequest}
use cutelyst.Multipart.Boundary.{is_prefix}

-- What Qt makes of a byte string: QString::fromUtf8, QByteArray::toUInt and QByteArray::toInt.
pub record Readers : Type 0 where
  pub from_utf8 : Bytes → Bytes
  pub to_uint : Bytes → ℕ
  pub to_int : Bytes → ℤ

abbrev pub dash : ℕ → ℕ
dash c = if c == 0x5f then 0x2d else c

-- The branch for `HTTP_`; `key` is the memory from the key on, of which `keylen` bytes are the key.
abbrev add_field : Bytes → ℕ → Bytes → ProtoRequest → ProtoRequest
add_field key keylen value r =
    if not r.header_host && is_prefix (codes "HOST") (drop 5 key)
    then record r {
      server_address = value;
      header_host = true;
      headers = push_header (codes "Host") value r.headers;
    }
    else record r {
      headers = push_header (map dash (take (keylen - 5) (drop 5 key))) value r.headers;
    }

abbrev set_uri : Readers → Bytes → ProtoRequest → ProtoRequest
set_uri qt value r = elim (index_of 0x3f value) [
  | some position ↦ record r {
    path = set_path qt.from_utf8 (take position value);
    query = drop (suc position) value;
  }
  | none ↦ record r { path = set_path qt.from_utf8 value; query = [] }
]

-- The branches behind: the variables of the request.
pub note_variable : Readers → Bytes → Bytes → ProtoRequest → ProtoRequest
note_variable qt key value r =
    if is_prefix (codes "REQUEST_METHOD") key
    then record r { method = value }
    else if is_prefix (codes "REQUEST_URI") key
    then set_uri qt value r
    else if is_prefix (codes "SERVER_PROTOCOL") key
    then record r { protocol = value }
    else if is_prefix (codes "REMOTE_ADDR") key
    then record r { remote_address = value }
    else if is_prefix (codes "REMOTE_PORT") key
    then record r { remote_port = qt.to_uint value % 0x10000 }
    else if is_prefix (codes "CONTENT_TYPE") key
    then (if is_empty value
        then r
        else record r { headers = set_header (codes "Content-Type") value r.headers })
    else if is_prefix (codes "CONTENT_LENGTH") key
    then record r { content_length = qt.to_int value }
    else if is_prefix (codes "REQUEST_SCHEME") key
    then record r { is_secure = bytes_eq value (codes "https") }
    else r

-- What addHeader writes. memcmp compares as many bytes as the name has, those behind the key too.
pub note_param : Readers → Bytes → ℕ → Bytes → ProtoRequest → ProtoRequest
note_param qt key keylen value r =
    if ltb 5 keylen && is_prefix (codes "HTTP_") key
    then add_field key keylen value r
    else note_variable qt key value r

-- The request with `pktsize`.
pub record Params : Type 0 where
  pub head : ProtoRequest
  pub pktsize : ℕ

-- addHeader returns the quint16 beside the request; `key` and `val` are the memory from there on.
pub add_header : Readers → ℕ → Bytes → ℕ → Bytes → ℕ → Params → ℕ × Params
add_header qt buffer_size key keylen val vallen p =
    if leb buffer_size (p.pktsize + keylen + vallen + 2 + 2) then (0, p) else (
      (keylen + vallen + 2 + 2) % 0x10000,
      record p { head = note_param qt key keylen (take vallen val) p.head },
    )

-- A byte of memory; the callers stay inside.
abbrev pub byte_at : Bytes → ℕ
byte_at [] = 0
byte_at (c ∷ cs) = c

-- net_be32 of four bytes, less the first bit, which is set: `^ 0x80000000`.
pub long_length : Bytes → ℕ
long_length at =
    (byte_at at - 0x80) * 0x1000000
    + byte_at (drop 1 at) * 0x10000
    + byte_at (drop 2 at) * 0x100
    + byte_at (drop 3 at)

-- A length at `j`, and `j` behind it; `none` where the code returns -1.
pub take_length : Bytes → ℕ → ℕ → Option (ℕ × ℕ)
unfolding long_length
take_length buf len j =
    let at = drop j buf in
    if ltb 0x7f (byte_at at)
    then (if leb len (j + 4) then none else some (long_length at, j + 4))
    else if leb len (suc j)
    then none
    else some (byte_at at, suc j)

-- How parseHeaders ends: with 0, or with -1.
pub data Parsed : Type 0 where
  parsed : Params → Parsed
  refused : Params → Parsed
  out_of_fuel : Parsed

-- A pair behind its two lengths: the next `j` with the request, or -1.
pub data Taken : Type 0 where
  taken : ℕ → Params → Taken
  bad : Params → Taken

pub take_pair : Readers → ℕ → Bytes → ℕ → ℕ → ℕ → ℕ → Params → Taken
take_pair qt buffer_size buf len j keylen vallen p =
    if ltb len ((j + (keylen + vallen)) % 0x100000000) || ltb 0xffff keylen || ltb 0xffff vallen
    then bad p
    else let (size, q) =
        add_header qt buffer_size (drop j buf) keylen (drop (j + keylen) buf) vallen p in
      if size == 0
      then bad q
      else taken (j + (keylen + vallen)) (record q { pktsize = (q.pktsize + size) % 0x10000 })

-- `while (j < len)`.
pub params_loop : ℕ → Readers → ℕ → Bytes → ℕ → ℕ → Params → Parsed
params_loop zero qt buffer_size buf len j p = out_of_fuel
params_loop (suc fuel) qt buffer_size buf len j p = elim (ltb j len) [
  | false ↦ parsed p
  | true ↦ elim (take_length buf len j) [
    | none ↦ refused p
    | some (keylen, j1) ↦ elim (take_length buf len j1) [
      | none ↦ refused p
      | some (vallen, j2) ↦ elim (take_pair qt buffer_size buf len j2 keylen vallen p) [
        | bad q ↦ refused q
        | taken next q ↦ params_loop fuel qt buffer_size buf len next q
      ]
    ]
  ]
]

-- The fuel is one more than the length: every pair has two length bytes at least.
pub parse_headers : Readers → ℕ → Bytes → ℕ → Params → Parsed
parse_headers qt buffer_size buf len p = params_loop (suc len) qt buffer_size buf len 0 p
