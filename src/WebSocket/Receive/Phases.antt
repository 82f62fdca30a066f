-- ===== src/WebSocket/Receive/Phases.antt =====
-- The phases of Cutelyst/Server/protocolwebsocket.cpp: what each waits for, and how much a frame
-- may hold.
use cutelyst.Common.{
  ℕ, ◌+◌, ◌-◌, ◌%◌, ◌^◌, ◌<◌, ◌≤◌, max, ltb, ◌==◌, if◌then◌else◌, Bytes, [], ◌∷◌, ◌++◌, length,
  take, Bool, false, ◌≡◌, ◌⊎◌, refl, arith, ◌||◌, Bool-cases, inl, inr, length-append, subst, sym,
}
use cutelyst.WebSocket.Frames.{create_websocket_close_reply, unmask, net_be}
use cutelyst.WebSocket.Frames.Laws.{length-unmask}
use cutelyst.WebSocket.Receive.{
  Utf8, WebSocketPhase, headers, size, mask, payload, ProtoRequest, refuses_header, start_message,
  after_header, websocket_parse_header, websocket_parse_size, send_binary, send_pong, finish_text,
  send_text, send_closed, dispatch_frame, websocket_parse_payload, emit, written, connection_close,
  websocket_parse_mask, is_final,
}

-- What a phase waits for, in a connection that takes `limit` bytes in one frame (125 bytes need no
-- length of their own, and are always taken).
abbrev pub Awaits : WebSocketPhase → ℕ → ProtoRequest → Type 0
Awaits headers limit p = p.need ≡ 2
Awaits size limit p =
    ((p.payload_size ≡ 126) × (p.need ≡ 2)) ⊎ ((p.payload_size ≡ 127) × (p.need ≡ 8))
Awaits mask limit p = (p.need ≡ 4) × (p.payload_size ≤ max 125 limit)
Awaits payload limit p =
    (0 < p.need) × (p.need + length p.payload ≡ p.payload_size) × (p.payload_size ≤ max 125 limit)

abbrev pub IsValid : ℕ → ProtoRequest → Type 0
IsValid limit p = Awaits p.phase limit p

IsValid-of :
    (limit : ℕ) (p : ProtoRequest) (phase : WebSocketPhase)
    → p.phase ≡ phase
    → Awaits phase limit p
    → IsValid limit p
IsValid-of limit p phase e a = subst (λ h. Awaits h limit p) (sym e) a

pub IsValid-at :
    (limit : ℕ) (p : ProtoRequest) (phase : WebSocketPhase)
    → p.phase ≡ phase
    → IsValid limit p
    → Awaits phase limit p
IsValid-at limit p phase e v = subst (λ h. Awaits h limit p) e v

-- What the handlers of a whole frame leave alone.
abbrev Same : ProtoRequest → ProtoRequest → Type 0
Same p q = (q.phase ≡ p.phase) × (q.need ≡ p.need)

send_binary-Same : (single_frame : Bool) (p : ProtoRequest) → Same p (send_binary single_frame p)
unfolding send_binary
send_binary-Same single_frame p = ground arith

module _ (utf8 : Utf8) where
  finish_text-Same :
      (single_frame : Bool) (frame : Bytes) (st : utf8.State) (p : ProtoRequest)
      → Same p (finish_text utf8 single_frame frame st p).0
  unfolding finish_text
  finish_text-Same single_frame frame st p = ground arith

  send_text-Same :
      (single_frame : Bool) (p : ProtoRequest) → Same p (send_text utf8 single_frame p).0
  unfolding send_text
  send_text-Same single_frame p = grind (arith, finish_text-Same)

  dispatch_frame-Same : (p : ProtoRequest) → Same p (dispatch_frame utf8 p).0
  unfolding dispatch_frame send_pong send_closed
  dispatch_frame-Same p = ground (
    arith,
    send_text-Same false p,
    send_text-Same (is_final p) p,
    send_binary-Same false p,
    send_binary-Same (is_final p) p,
  )

  pub websocket_parse_payload-IsValid :
      (limit : ℕ) (buf : Bytes) (p : ProtoRequest)
      → limit < 2 ^ 31
      → p.phase ≡ payload
      → length buf ≤ p.need
      → p.need + length p.payload ≡ p.payload_size
      → p.payload_size ≤ max 125 limit
      → IsValid limit (websocket_parse_payload utf8 buf p).0
  unfolding websocket_parse_payload
  websocket_parse_payload-IsValid limit buf p l h b n m =
      let whole = p.payload ++ unmask p.mask (length p.payload) buf in
      let len : length whole ≡ length p.payload + length buf = omega (
        arith,
        length-append {0} p.payload (unmask p.mask (length p.payload) buf),
        length-unmask p.mask (length p.payload) buf,
      ) in
      elim (Bool-cases (ltb (length whole) p.payload_size)) [
        | inl more ↦ rw more (
            IsValid-of limit
              (record p { payload = whole; need = (p.need + 2 ^ 32 - length buf) % 2 ^ 32 }) payload
              h (ground arith))
        | inr done ↦
            let p' = record p { payload = whole; need = 2; phase = headers } in
            let (ph, nd) = dispatch_frame-Same p' in
            rw done (IsValid-of limit (dispatch_frame utf8 p').0 headers ph nd)
      ]

  pub websocket_parse_mask-IsValid :
      (limit : ℕ) (buf : Bytes) (p : ProtoRequest)
      → limit < 2 ^ 31
      → p.phase ≡ mask
      → IsValid limit p
      → IsValid limit (websocket_parse_mask utf8 buf p)
  unfolding websocket_parse_mask
  websocket_parse_mask-IsValid limit buf p l h v =
      let (_, fits) = IsValid-at limit p mask h v in
      elim (Bool-cases (p.payload_size == 0)) [
        | inl none ↦ rw none (
            websocket_parse_payload-IsValid limit []
              (record p {
                mask = take 4 buf;
                phase = payload;
                need = p.payload_size % 2 ^ 32;
                payload = [];
              })
              l refl (omega arith) (ground arith) fits)
        | inr some ↦ rw some (ground arith)
      ]

after_header-IsValid :
    (limit : ℕ) (p : ProtoRequest) → p.payload_size < 128 → IsValid limit (after_header p)
unfolding after_header
after_header-IsValid limit p h = ground arith

start_message-size :
    (byte1 : ℕ) (p : ProtoRequest) → (start_message byte1 p).payload_size ≡ p.payload_size
unfolding start_message
start_message-size byte1 p = ground arith

pub websocket_parse_header-IsValid :
    (limit byte1 byte2 : ℕ) (p : ProtoRequest)
    → p.phase ≡ headers
    → IsValid limit p
    → IsValid limit (websocket_parse_header byte1 byte2 p).0
unfolding websocket_parse_header
websocket_parse_header-IsValid limit byte1 byte2 p h v =
    elim (Bool-cases (refuses_header byte1 byte2 p.continue_opcode)) [
      | inl refused ↦ rw refused (
          IsValid-of limit
            (emit (written (create_websocket_close_reply [] 1002) ∷ connection_close ∷ [])
              (record p { finn_opcode = byte1; payload_size = byte2 % 128 }))
            headers h (IsValid-at limit p headers h v))
      | inr taken ↦ rw taken (
          after_header-IsValid limit
            (start_message byte1 (record p { finn_opcode = byte1; payload_size = byte2 % 128 }))
            (omega (
              arith,
              start_message-size byte1
                  (record p { finn_opcode = byte1; payload_size = byte2 % 128 }),
            )))
    ]

pub websocket_parse_size-IsValid :
    (limit : ℕ) (buf : Bytes) (p : ProtoRequest)
    → p.phase ≡ size
    → IsValid limit p
    → IsValid limit (websocket_parse_size buf limit p).0
unfolding websocket_parse_size
websocket_parse_size-IsValid limit buf p h v =
    let waits = IsValid-at limit p size h v in
    let closing = IsValid-of limit (emit (connection_close ∷ []) p) size h waits in
    let n = net_be 0 (take (if p.payload_size == 126 then 2 else 8) buf) in
    elim (Bool-cases (p.payload_size == 126 || p.payload_size == 127)) [
      | inl sized ↦ elim (Bool-cases (ltb limit n)) [
        | inl large ↦ rw (sized, large) closing
        | inr fits ↦ rw (sized, fits) (refl, ground arith)
      ]
      | inr other ↦ rw other closing
    ]
