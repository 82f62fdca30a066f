-- ===== src/WebSocket/Receive.antt =====
-- What the server does with the parts of a frame: the functions websocket_parse_… and send_… of
-- Cutelyst/Server/protocolwebsocket.cpp. A signal, a write and a call on the socket is an event.
pub mod Laws
pub mod Phases
use cutelyst.Common.{
  ℕ, ◌+◌, ◌-◌, ◌/◌, ◌%◌, ◌^◌, ltb, leb, ◌==◌, if◌then◌else◌, Bytes, List, [], ◌∷◌, ◌++◌, length,
  take, drop, Bool, true, false, ◌&&◌, ◌||◌, not, is_empty, bytes_eq,
}
use cutelyst.WebSocket.Frames.{
  create_websocket_header, create_websocket_close_reply, net_be, unmask,
}

-- QStringDecoder for UTF-8, which keeps a state between calls, and QString::toUtf8; a text is the
-- list of its code units.
pub record Utf8 : Type 1 where
  pub State : Type 0
  pub fresh : State
  pub decode : State → Bytes → State × Bytes
  pub has_error : State → Bool
  pub to_utf8 : Bytes → Bytes

pub data WebSocketPhase : Type 0 where
  headers size mask payload : WebSocketPhase

pub data Event : Type 0 where
  written : Bytes → Event
  flushed connection_close : Event
  text_frame binary_frame : Bytes → Bool → Event
  text_message binary_message pong : Bytes → Event
  closed : ℕ → Bytes → Event

-- The websocket_ members of ProtoRequestHttp; the mask as its four bytes in memory, and behind
-- them the events so far, the newest last.
pub record ProtoRequest : Type 0 where
  pub message : Bytes
  pub payload : Bytes
  pub payload_size : ℕ
  pub need : ℕ
  pub mask : Bytes
  pub start_of_frame : ℕ
  pub phase : WebSocketPhase
  pub continue_opcode : ℕ
  pub finn_opcode : ℕ
  pub events : List Event

abbrev pub emit : List Event → ProtoRequest → ProtoRequest
emit new p = record p { events = p.events ++ new }

-- `websocket_finn_opcode & 0x80`.
abbrev pub is_final : ProtoRequest → Bool
is_final p = p.finn_opcode / 128 % 2 == 1

-- `websocket_finn_opcode & 0xf`.
abbrev opcode_of : ProtoRequest → ℕ
opcode_of p = p.finn_opcode % 16

-- The test of websocket_parse_header that refuses a frame.
unfoldable pub refuses_header : ℕ → ℕ → ℕ → Bool
refuses_header byte1 byte2 continue_opcode =
    let opcode = byte1 % 16 in
    not (byte2 / 128 == 1)
    || ((opcode == 0x9 || opcode == 0x8) && ltb 125 (byte2 % 128))
    || not (byte1 / 16 % 8 == 0)
    || ((leb 0x3 opcode && leb opcode 0x7) || (leb 0xb opcode && leb opcode 0xf))
    || (not (byte1 / 128 == 1) && not (opcode == 0x1) && not (opcode == 0x2) && not (opcode == 0x0))
    || (not (continue_opcode == 0) && (opcode == 0x1 || opcode == 0x2))

-- A new text or binary message forgets the one before, and is remembered if it is fragmented.
unfoldable pub start_message : ℕ → ProtoRequest → ProtoRequest
start_message byte1 p =
    let opcode = byte1 % 16 in
    if opcode == 0x1 || opcode == 0x2
    then record p {
      message = [];
      start_of_frame = 0;
      continue_opcode = if byte1 / 128 == 1 then p.continue_opcode else opcode;
    }
    else p

-- The phase behind the two bytes of the header.
unfoldable pub after_header : ProtoRequest → ProtoRequest
after_header p =
    if p.payload_size == 126
    then record p { need = 2; phase = size }
    else if p.payload_size == 127
    then record p { need = 8; phase = size }
    else record p { need = 4; phase = WebSocketPhase.mask }

-- websocket_parse_header on its two bytes.
unfoldable pub websocket_parse_header : ℕ → ℕ → ProtoRequest → ProtoRequest × Bool
websocket_parse_header byte1 byte2 p =
    let p' = record p { finn_opcode = byte1; payload_size = byte2 % 128 } in
    if refuses_header byte1 byte2 p.continue_opcode
    then (emit (written (create_websocket_close_reply [] 1002) ∷ connection_close ∷ []) p', false)
    else (after_header (start_message byte1 p'), true)

-- websocket_parse_size.
pub websocket_parse_size : Bytes → ℕ → ProtoRequest → ProtoRequest × Bool
websocket_parse_size buf max_message_size p =
    if p.payload_size == 126 || p.payload_size == 127
    then (let n = net_be 0 (take (if p.payload_size == 126 then 2 else 8) buf) in
        if ltb max_message_size n
        then (emit (connection_close ∷ []) p, false)
        else (record p { payload_size = n; need = 4; phase = WebSocketPhase.mask }, true))
    else (emit (connection_close ∷ []) p, false)

-- The end of a message: what both send_text and send_binary reset behind it.
abbrev clear_message : ProtoRequest → ProtoRequest
clear_message p = record p { message = []; payload = [] }

-- send_binary.
unfoldable pub send_binary : Bool → ProtoRequest → ProtoRequest
send_binary single_frame p =
    let frame = p.payload in
    let message = p.message ++ p.payload in
    let whole = single_frame || bytes_eq frame message in
    if is_final p
    then clear_message (
        emit (binary_frame frame true ∷ binary_message (if whole then frame else message) ∷ [])
          (record p { message = message; continue_opcode = 0 }))
    else emit (binary_frame frame false ∷ []) (record p { message = message })

-- send_pong, and the flush behind it.
pub send_pong : Bytes → ProtoRequest → ProtoRequest
send_pong text p =
    emit (written (create_websocket_header 0xa (length text)) ∷ written text ∷ flushed ∷ []) p

-- The code that send_closed answers, and whether the reason is dropped.
pub reply_code : ℕ → Bytes → ℕ × Bool
reply_code close_code content =
    if leb 3000 close_code && leb close_code 4999
    then (close_code, false)
    else if leb 1000 close_code && leb close_code 1003
    then (close_code, false)
    else if close_code == 1005
    then (if is_empty content then (1000, false) else (1002, false))
    else if leb 1007 close_code && leb close_code 1011
    then (close_code, false)
    else (1002, true)

module _ (utf8 : Utf8) where
  open utf8 use {fresh, decode, has_error, to_utf8}

  -- The second half of send_text, for a final frame, with the decoder's state.
  pub finish_text : Bool → Bytes → utf8.State → ProtoRequest → ProtoRequest × Bool
  finish_text single_frame frame st p =
      if single_frame || bytes_eq p.payload p.message
      then (clear_message (emit (text_message frame ∷ []) (record p { continue_opcode = 0 })), true)
      else (let (st', msg) = decode st p.message in
          let p' = record p { continue_opcode = 0 } in
          if has_error st'
          then (emit (connection_close ∷ []) p', false)
          else (clear_message (emit (text_message msg ∷ []) p'), true))

  -- send_text.
  pub send_text : Bool → ProtoRequest → ProtoRequest × Bool
  send_text single_frame p =
      let msg_size = length p.message in
      let p' = record p { message = p.message ++ p.payload } in
      let text =
        if p.start_of_frame == msg_size then p.payload else drop p.start_of_frame p'.message in
      let (st, frame) = decode fresh text in
      let failed = has_error st in
      let shown =
        if failed
        then p'
        else emit (text_frame frame (is_final p) ∷ [])
            (record p' { start_of_frame = length p'.message }) in
      if single_frame && (failed || (is_empty frame && not (is_empty text)))
      then (emit (connection_close ∷ []) p', false)
      else if is_final p
      then finish_text single_frame frame st shown
      else (shown, true)

  -- send_closed.
  pub send_closed : ProtoRequest → ProtoRequest
  send_closed p =
      let given = leb 2 (length p.payload) in
      let code = if given then net_be 0 (take 2 p.payload) else 1005 in
      let reason : Bytes = if given then (decode fresh (drop 2 p.payload)).1 else [] in
      let (answer, dropped) = reply_code code p.payload in
      let text = if dropped then [] else reason in
      emit
        (closed code reason
          ∷ written (create_websocket_close_reply (to_utf8 text) answer)
          ∷ connection_close
          ∷ [])
        p

  -- The switch at the end of websocket_parse_payload, on a whole frame.
  unfoldable pub dispatch_frame : ProtoRequest → ProtoRequest × Bool
  dispatch_frame p =
      let opcode = opcode_of p in
      if opcode == 0x0
      then (if p.continue_opcode == 0x1
          then send_text false p
          else if p.continue_opcode == 0x2
          then (send_binary false p, true)
          else (emit (connection_close ∷ []) p, false))
      else if opcode == 0x1
      then send_text (is_final p) p
      else if opcode == 0x2
      then (send_binary (is_final p) p, true)
      else if opcode == 0x8
      then (send_closed p, false)
      else if opcode == 0x9
      then (send_pong (take 125 p.payload) p, true)
      else if opcode == 0xa
      then (emit (pong p.payload ∷ []) p, true)
      else (p, true)

  -- websocket_parse_payload on the bytes read; `websocket_need` is a quint32.
  unfoldable pub websocket_parse_payload : Bytes → ProtoRequest → ProtoRequest × Bool
  websocket_parse_payload buf p =
      let p' = record p { payload = p.payload ++ unmask p.mask (length p.payload) buf } in
      if ltb (length p'.payload) p.payload_size
      then (record p' { need = (p.need + 2 ^ 32 - length buf) % 2 ^ 32 }, true)
      else dispatch_frame (record p' { need = 2; phase = headers })

  -- websocket_parse_mask: what the call for an empty payload returns is not looked at.
  unfoldable pub websocket_parse_mask : Bytes → ProtoRequest → ProtoRequest
  websocket_parse_mask buf p =
      let p' = record p {
        mask = take 4 buf;
        phase = WebSocketPhase.payload;
        need = p.payload_size % 2 ^ 32;
        payload = [];
      } in
      if p.payload_size == 0 then (websocket_parse_payload [] p').0 else p'
