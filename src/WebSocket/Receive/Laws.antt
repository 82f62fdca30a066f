-- ===== src/WebSocket/Receive/Laws.antt =====
-- What the frame handlers of Cutelyst/Server/protocolwebsocket.cpp accept, keep and deliver.
use cutelyst.Common.{
  ℕ, ◌/◌, ◌%◌, ◌<◌, ◌≤◌, if◌then◌else◌, Bytes, [], ◌∷◌, ◌++◌, Bool, true, false, ◌≡◌, ◌≢◌, ◌⊎◌, ◌↔◌,
  refl, arith, bytes_eq, bytes_eq→eq, ◌||◌, Bool-cases, inl, inr, ap,
}
use cutelyst.WebSocket.Receive.{
  binary_frame, binary_message, ProtoRequest, refuses_header, send_binary, reply_code, is_final,
}

-- The frames of RFC 6455 section 5 that the server takes: masked, no reserved bit and no reserved
-- opcode, close and ping frames short, control frames not fragmented, and no new message while a
-- fragmented one is open.
pub record IsAccepted (byte1 byte2 open_opcode : ℕ) : Type 0 where
  pub masked : 128 ≤ byte2
  pub no_reserved_bit : byte1 / 16 % 8 ≡ 0
  pub known : (byte1 % 16 ≤ 2) ⊎ ((8 ≤ byte1 % 16) × (byte1 % 16 ≤ 10))
  pub short : (byte1 % 16 ≡ 8) ⊎ (byte1 % 16 ≡ 9) → byte2 % 128 ≤ 125
  pub unfragmented : 8 ≤ byte1 % 16 → 128 ≤ byte1
  pub in_sequence : open_opcode ≢ 0 → (byte1 % 16 ≢ 1) × (byte1 % 16 ≢ 2)

-- Of two bytes, websocket_parse_header lets pass exactly the headers that RFC 6455 section 5 has the
-- server take, pong frames of any length among them; the opcode of the fragmented message that is
-- open is 0 where none is.
refuses_header_iff :
    (byte1 byte2 open_opcode : ℕ)
    → byte1 < 256
    → byte2 < 256
    → (refuses_header byte1 byte2 open_opcode ≡ false) ↔ IsAccepted byte1 byte2 open_opcode
unfolding refuses_header
refuses_header_iff byte1 byte2 open_opcode h₁ h₂ = (to, from)
  where
    to : refuses_header byte1 byte2 open_opcode ≡ false → IsAccepted byte1 byte2 open_opcode
    to e = record {
      masked = ground arith;
      no_reserved_bit = ground arith;
      known = ground arith;
      short = ground arith;
      unfragmented = ground arith;
      in_sequence = ground arith;
    }

    from : IsAccepted byte1 byte2 open_opcode → refuses_header byte1 byte2 open_opcode ≡ false
    from a = ground arith

-- The close codes that an endpoint may send (RFC 6455 section 7.4).
abbrev pub IsSendable : ℕ → Type 0
IsSendable c = ((1000 ≤ c) × (c ≤ 1003)) ⊎ (((1007 ≤ c) × (c ≤ 1011)) ⊎ ((3000 ≤ c) × (c ≤ 4999)))

-- Whatever the peer sent, the close code answered may be sent; a sendable one is answered as it is.
reply_code-IsSendable :
    (code : ℕ) (content : Bytes)
    → IsSendable (reply_code code content).0
      × (IsSendable code → reply_code code content ≡ (code, false))
unfolding reply_code
reply_code-IsSendable code content = (ground arith, ground arith)

whole_message :
    (single_frame : Bool) (p : ProtoRequest)
    → (single_frame ≡ true → p.message ≡ [])
    → (if single_frame || bytes_eq p.payload (p.message ++ p.payload)
        then p.payload
        else p.message ++ p.payload)
      ≡ p.message ++ p.payload
whole_message true p h = let e = h refl in cc (ap (λ m. m ++ p.payload) e)
whole_message false p h = elim (Bool-cases (bytes_eq p.payload (p.message ++ p.payload))) [
  | inl same ↦ rw same (bytes_eq→eq p.payload (p.message ++ p.payload) same)
  | inr other ↦ rw other refl
]

-- On the last frame of a binary message, send_binary gives the application the frame, and then the
-- message so far with the frame appended; the message and the opcode to be continued are cleared. A
-- message of a single frame has nothing before it.
send_binary-delivers :
    (single_frame : Bool) (p : ProtoRequest)
    → is_final p ≡ true
    → (single_frame ≡ true → p.message ≡ [])
    → ((send_binary single_frame p).events
        ≡ p.events ++ (binary_frame p.payload true ∷ binary_message (p.message ++ p.payload) ∷ []))
      × ((send_binary single_frame p).message ≡ [])
      × ((send_binary single_frame p).continue_opcode ≡ 0)
unfolding send_binary
send_binary-delivers single_frame p f h = ground (arith, whole_message single_frame p h)
