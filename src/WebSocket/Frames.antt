-- ===== src/WebSocket/Frames.antt =====
-- The frames that the server writes, and the numbers and the mask of those that it reads.
pub mod Laws
use cutelyst.Common.{
  ℕ, zero, suc, ◌+◌, ◌*◌, ◌/◌, ◌%◌, ◌^◌, ltb, leb, if◌then◌else◌, Bytes, [], ◌∷◌, ◌++◌, length,
  take, bit_xor,
}

-- ProtocolWebSocket::createWebsocketHeader.
pub create_websocket_header : ℕ → ℕ → Bytes
create_websocket_header opcode len =
    (0x80 + opcode) % 256
    ∷ (if ltb len 126
        then len ∷ []
        else if leb len 0xffff
        then 126 ∷ (len / 2 ^ 8 % 256) ∷ (len % 256) ∷ []
        else 127
          ∷ (len / 2 ^ 56 % 256)
          ∷ (len / 2 ^ 48 % 256)
          ∷ (len / 2 ^ 40 % 256)
          ∷ (len / 2 ^ 32 % 256)
          ∷ (len / 2 ^ 24 % 256)
          ∷ (len / 2 ^ 16 % 256)
          ∷ (len / 2 ^ 8 % 256)
          ∷ (len % 256)
          ∷ [])

-- ProtocolWebSocket::createWebsocketCloseReply; `msg` is the reason in UTF-8.
pub create_websocket_close_reply : Bytes → ℕ → Bytes
create_websocket_close_reply msg close_code =
    let text = take 123 msg in
    create_websocket_header 0x8 (length text + 2)
    ++ ((close_code / 2 ^ 8 % 256) ∷ (close_code % 256) ∷ text)

-- net_be16 and net_be64 (Cutelyst/Server/protocol.h): the number whose bytes these are, the highest
-- first, on a host that stores the lowest first.
pub net_be : ℕ → Bytes → ℕ
net_be acc [] = acc
net_be acc (b ∷ bs) = net_be (acc * 256 + b) bs

-- The byte of the buffer at an index; the callers have read as many as they look at.
abbrev pub byte_at : Bytes → ℕ → ℕ
byte_at [] i = 0
byte_at (b ∷ bs) zero = b
byte_at (b ∷ bs) (suc i) = byte_at bs i

-- The loop of websocket_parse_payload, `buf[i] ^ mask[maskIx % 4]`, from an index on.
unfoldable pub unmask : Bytes → ℕ → Bytes → Bytes
unmask mask ix [] = []
unmask mask ix (b ∷ bs) = bit_xor b (byte_at mask (ix % 4)) ∷ unmask mask (ix + 1) bs
