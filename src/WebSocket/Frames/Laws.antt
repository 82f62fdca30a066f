-- ===== src/WebSocket/Frames/Laws.antt =====
-- Lengths read back, masks undone: Cutelyst/Server/protocolwebsocket.cpp.
use cutelyst.Common.{
  ℕ, zero, suc, ◌+◌, ◌/◌, ◌%◌, ◌^◌, ◌<◌, ◌≤◌, ◌==◌, if◌then◌else◌, Bytes, [], ◌∷◌, ◌++◌, length,
  take, drop, ◌≡◌, refl, arith, bit_xor, all_below, all_below_sound, ==_iff, length-take, true, All,
  ap,
}
use cutelyst.WebSocket.Frames.{
  create_websocket_header, create_websocket_close_reply, net_be, byte_at, unmask,
}

-- The opcode, the length and what follows the header of an unmasked final frame, as RFC 6455
-- section 5.2 lays it out.
pub read_header : Bytes → ℕ × ℕ × Bytes
read_header [] = (0, 0, [])
read_header (b ∷ []) = (b % 16, 0, [])
read_header (b ∷ l ∷ rest) =
    if l == 126
    then (b % 16, net_be 0 (take 2 rest), drop 2 rest)
    else if l == 127
    then (b % 16, net_be 0 (take 8 rest), drop 8 rest)
    else (b % 16, l, rest)

-- A header that createWebsocketHeader makes gives back the opcode and the length, for every opcode
-- of four bits and every length of 64 bits.
read_header-create :
    (opcode len : ℕ) (rest : Bytes)
    → opcode < 16
    → len < 2 ^ 64
    → read_header (create_websocket_header opcode len ++ rest) ≡ (opcode, len, rest)
unfolding read_header create_websocket_header net_be
read_header-create opcode len rest ho hl = ground arith

short_header :
    (opcode len : ℕ)
    → len < 126
    → create_websocket_header opcode len ≡ (0x80 + opcode) % 256 ∷ len ∷ []
unfolding create_websocket_header
short_header opcode len h = ground arith

-- For a code of 16 bits, a close reply is a frame of its own, opcode 8, with at most the 125 bytes of payload of a control
-- frame: the code, the highest byte first, and what fits of the reason.
close_reply-frame :
    (msg : Bytes) (code : ℕ) (rest : Bytes)
    → code < 2 ^ 16
    → (read_header (create_websocket_close_reply msg code ++ rest)
        ≡ (8, length (take 123 msg) + 2, code / 2 ^ 8 ∷ code % 256 ∷ (take 123 msg ++ rest)))
      × (length (take 123 msg) + 2 ≤ 125)
unfolding create_websocket_close_reply read_header
close_reply-frame msg code rest h =
    let small : length (take 123 msg) + 2 ≤ 125 = omega (arith, length-take {0} 123 msg) in
    (rw (short_header 8 (length (take 123 msg) + 2) (omega arith)) (ground arith), small)

xor_table : all_below 256 (λ m. all_below 256 (λ b. bit_xor (bit_xor b m) m == b)) ≡ true
xor_table = refl

xor_twice : (b m : ℕ) → b < 256 → m < 256 → bit_xor (bit_xor b m) m ≡ b
xor_twice b m hb hm = (==_iff _ b).0 (
    all_below_sound 256 (λ b. bit_xor (bit_xor b m) m == b) b
      (all_below_sound 256 (λ m. all_below 256 (λ b. bit_xor (bit_xor b m) m == b)) m xor_table hm)
      hb)

byte_at-lt : (mask : Bytes) (i : ℕ) → All (λ m. m < 256) mask → byte_at mask i < 256
byte_at-lt [] i h = omega arith
byte_at-lt (m ∷ ms) zero h = h.0
byte_at-lt (m ∷ ms) (suc i) h = byte_at-lt ms i h.1

-- Unmasking twice from the same index gives back the bytes, for a mask of bytes: what a client
-- masked is read as it was meant.
pub unmask-unmask :
    (mask : Bytes) (ix : ℕ) (bs : Bytes)
    → All (λ m. m < 256) mask
    → All (λ b. b < 256) bs
    → unmask mask ix (unmask mask ix bs) ≡ bs
unfolding unmask
unmask-unmask mask ix [] hm hb = refl
unmask-unmask mask ix (b ∷ bs) hm hb = ground (
  arith,
  xor_twice b (byte_at mask (ix % 4)) hb.0 (byte_at-lt mask (ix % 4) hm),
  unmask-unmask mask (ix + 1) bs hm hb.1,
)

-- Unmasking a payload in two chunks, the second from the index where the first ended, is unmasking
-- it at once.
unmask-append :
    (mask : Bytes) (ix : ℕ) (xs ys : Bytes)
    → unmask mask ix (xs ++ ys) ≡ unmask mask ix xs ++ unmask mask (ix + length xs) ys
unfolding unmask
unmask-append mask ix [] ys = ground arith
unmask-append mask ix (x ∷ xs) ys = ground (arith, unmask-append mask (ix + 1) xs ys)

pub length-unmask : (mask : Bytes) (ix : ℕ) (bs : Bytes) → length (unmask mask ix bs) ≡ length bs
unfolding unmask
length-unmask mask ix [] = refl
length-unmask mask ix (b ∷ bs) = ap suc (length-unmask mask (ix + 1) bs)
