-- ===== src/WebSocket/Parse.antt =====
-- The loop that reads from the socket: ProtocolWebSocket::parse of
-- Cutelyst/Server/protocolwebsocket.cpp.
pub mod Laws
pub mod Delivery
use cutelyst.Common.{
  ℕ, zero, suc, min, ltb, ◌==◌, if◌then◌else◌, Bytes, [], ◌∷◌, length, take, drop, Bool, true,
  false, ◌&&◌, ◌||◌, not, is_empty, Option, none, some,
}
use cutelyst.WebSocket.Frames.{byte_at}
use cutelyst.WebSocket.Receive.{
  Utf8, WebSocketPhase, headers, size, mask, payload, connection_close, ProtoRequest, emit,
  websocket_parse_header, websocket_parse_size, websocket_parse_mask, websocket_parse_payload,
}

-- m_postBufferSize and m_websockets_max_size, and whether a read from the socket fails.
pub record Settings : Type 0 where
  pub post_buffer_size : ℕ
  pub websockets_max_size : ℕ
  pub read_fails : Bool

abbrev is_payload : WebSocketPhase → Bool
is_payload payload = true
is_payload _ = false

module _ (utf8 : Utf8) (settings : Settings) where
  -- The switch on the phase, with the bytes that were read; `false` leaves the loop.
  pub handle : WebSocketPhase → Bytes → ProtoRequest → ProtoRequest × Bool
  handle headers buf p = websocket_parse_header (byte_at buf 0) (byte_at buf 1) p
  handle size buf p = websocket_parse_size buf settings.websockets_max_size p
  handle mask buf p = (websocket_parse_mask utf8 buf p, true)
  handle payload buf p = websocket_parse_payload utf8 buf p

  -- The first test of a round: more data is needed.
  abbrev pub waits : ProtoRequest → Bytes → Bool
  waits p io = is_empty io || p.need == 0 || (ltb (length io) p.need && not (is_payload p.phase))

  -- `maxlen`: a read gives as many of the available bytes.
  abbrev pub max_len : ProtoRequest → ℕ
  max_len p = min p.need settings.post_buffer_size

  -- The loop, with the bytes that are left; `none` means that the fuel ran out.
  pub parse_loop : ℕ → ProtoRequest → Bytes → Option (ProtoRequest × Bytes)
  parse_loop zero p io = none
  parse_loop (suc fuel) p io =
      let rest = drop (max_len p) io in
      let (p', goes_on) = handle p.phase (take (max_len p) io) p in
      let more = parse_loop fuel p' rest in
      if waits p io
      then some (p, io)
      else if settings.read_fails
      then some (emit (connection_close ∷ []) p, io)
      else if goes_on
      then more
      else some (p', rest)

  pub parse : ProtoRequest → Bytes → Option (ProtoRequest × Bytes)
  parse p io = parse_loop (suc (length io)) p io
