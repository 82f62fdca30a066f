-- ===== src/WebSocket/Parse/Delivery.antt =====
-- A whole frame through ProtocolWebSocket::parse.
use cutelyst.Common.{
  ap, ◌%◌, bit_xor, sym, subst, length-append, ℕ, suc, ◌+◌, ◌<◌, ◌≤◌, min, Bytes, [], ◌∷◌, ◌++◌,
  length, take, drop, true, false, some, ◌≡◌, refl, arith, All, take-length-append,
  drop-length-append, ◌∙◌, append-nil,
}
use cutelyst.WebSocket.Frames.{unmask}
use cutelyst.WebSocket.Frames.Laws.{unmask-unmask, length-unmask}
use cutelyst.WebSocket.Receive.{
  Utf8, headers, mask, payload, ProtoRequest, binary_frame, binary_message, refuses_header,
  start_message, after_header, send_binary, dispatch_frame, websocket_parse_header,
  websocket_parse_mask, websocket_parse_payload,
}
use cutelyst.WebSocket.Parse.{Settings, handle, waits, max_len, parse_loop, parse}

-- What a client sends for some bytes (RFC 6455, 5.3): each is combined with the next byte of the key,
-- which is turned by one for it.
pub masked : ℕ → ℕ → ℕ → ℕ → Bytes → Bytes
masked a b c d [] = []
masked a b c d (x ∷ bytes) = bit_xor x a ∷ masked b c d a bytes

-- A final binary frame of a client, of at most 125 bytes.
abbrev pub client_frame : ℕ → ℕ → ℕ → ℕ → Bytes → Bytes
client_frame a b c d bytes = 0x82 ∷ (128 + length bytes) ∷ a ∷ b ∷ c ∷ d ∷ masked a b c d bytes

-- The same frame, as the server's loop would mask it.
abbrev unmask_frame : Bytes → Bytes → Bytes
unmask_frame key bytes = 0x82 ∷ (128 + length bytes) ∷ (key ++ unmask key 0 bytes)

-- From any index on, the server's loop begins with the byte of the key at that index modulo 4.
unmask-masked :
    (a b c d ix : ℕ) (bytes : Bytes)
    → (ix % 4 ≡ 0 → unmask (a ∷ b ∷ c ∷ d ∷ []) ix bytes ≡ masked a b c d bytes)
      × (ix % 4 ≡ 1 → unmask (a ∷ b ∷ c ∷ d ∷ []) ix bytes ≡ masked b c d a bytes)
      × (ix % 4 ≡ 2 → unmask (a ∷ b ∷ c ∷ d ∷ []) ix bytes ≡ masked c d a b bytes)
      × (ix % 4 ≡ 3 → unmask (a ∷ b ∷ c ∷ d ∷ []) ix bytes ≡ masked d a b c bytes)
unfolding unmask masked
unmask-masked a b c d ix [] = ((λ e. refl), (λ e. refl), (λ e. refl), (λ e. refl))
unmask-masked a b c d ix (x ∷ bytes) =
    let (zero_, one, two, three) = unmask-masked a b c d (ix + 1) bytes in
    (
      λ e. rw e (ap (λ t. bit_xor x a ∷ t) (one (omega arith))),
      λ e. rw e (ap (λ t. bit_xor x b ∷ t) (two (omega arith))),
      λ e. rw e (ap (λ t. bit_xor x c ∷ t) (three (omega arith))),
      λ e. rw e (ap (λ t. bit_xor x d ∷ t) (zero_ (omega arith))),
    )

-- Behind the header and the mask of a short frame.
abbrev masked_state : Bytes → ℕ → ProtoRequest → ProtoRequest
masked_state key len p = record p {
  finn_opcode = 0x82;
  payload_size = len;
  message = [];
  start_of_frame = 0;
  mask = key;
  phase = payload;
  need = len;
  payload = [];
}

-- What a whole binary message leaves.
abbrev pub delivered : Bytes → Bytes → ProtoRequest → ProtoRequest
delivered key bytes p = record (masked_state key (length bytes) p) {
  phase = headers;
  need = 2;
  continue_opcode = 0;
  events = p.events ++ (binary_frame bytes true ∷ binary_message bytes ∷ []);
}

module _ (utf8 : Utf8) (settings : Settings) where
  -- A round that reads and goes on.
  loop_step :
      (fuel : ℕ) (p p' : ProtoRequest) (c : ℕ) (front io : Bytes)
      → settings.read_fails ≡ false
      → length (c ∷ front) ≡ min p.need settings.post_buffer_size
      → p.need ≤ length ((c ∷ front) ++ io)
      → handle utf8 settings p.phase (c ∷ front) p ≡ (p', true)
      → parse_loop utf8 settings (suc fuel) p ((c ∷ front) ++ io)
        ≡ parse_loop utf8 settings fuel p' io
  unfolding parse_loop
  loop_step fuel p p' c front io r n avail h =
      let stop : waits utf8 settings p ((c ∷ front) ++ io) ≡ false = ground arith in
      let taken : take (max_len utf8 settings p) ((c ∷ front) ++ io) ≡ c ∷ front =
        rw (← n) (take-length-append (c ∷ front) io) in
      let left : drop (max_len utf8 settings p) ((c ∷ front) ++ io) ≡ io =
        rw (← n) (drop-length-append (c ∷ front) io) in
      rw (stop, taken, left) (rw h (simp r))

  header_state : ℕ → ProtoRequest → ProtoRequest
  header_state len p = record p {
    finn_opcode = 0x82;
    payload_size = len;
    message = [];
    start_of_frame = 0;
    phase = mask;
    need = 4;
  }

  header_round :
      (p : ProtoRequest) (len : ℕ)
      → len ≤ 125
      → p.continue_opcode ≡ 0
      → handle utf8 settings headers (0x82 ∷ (128 + len) ∷ []) p ≡ (header_state len p, true)
  unfolding handle websocket_parse_header refuses_header start_message after_header header_state
  header_round p len h c = ground arith

  mask_round :
      (p : ProtoRequest) (a b c d len : ℕ)
      → 0 < len
      → len ≤ 125
      → handle utf8 settings mask (a ∷ b ∷ c ∷ d ∷ []) (header_state len p)
        ≡ (masked_state (a ∷ b ∷ c ∷ d ∷ []) len p, true)
  unfolding handle websocket_parse_mask header_state
  mask_round p a b c d len h₀ h = ground arith

  payload_round :
      (p : ProtoRequest) (key bytes : Bytes)
      → All (λ m. m < 256) key
      → All (λ b. b < 256) bytes
      → handle utf8 settings payload (unmask key 0 bytes) (masked_state key (length bytes) p)
        ≡ (delivered key bytes p, true)
  unfolding handle websocket_parse_payload dispatch_frame send_binary
  payload_round p key bytes hk hb = rw (unmask-unmask key 0 bytes hk hb) (ground arith)

  loop_idle :
      (fuel : ℕ) (p : ProtoRequest) → parse_loop utf8 settings (suc fuel) p [] ≡ some (p, [])
  unfolding parse_loop
  loop_idle fuel p = refl

  -- The frame is delivered, once and unmasked, and the loop goes on behind it, whatever follows.
  deliver_loop :
      (fuel : ℕ) (p : ProtoRequest) (a b c d x : ℕ) (bytes rest : Bytes)
      → settings.read_fails ≡ false
      → 125 ≤ settings.post_buffer_size
      → p.phase ≡ headers
      → p.need ≡ 2
      → p.continue_opcode ≡ 0
      → All (λ m. m < 256) (a ∷ b ∷ c ∷ d ∷ [])
      → All (λ y. y < 256) (x ∷ bytes)
      → length (x ∷ bytes) ≤ 125
      → parse_loop utf8 settings
          (suc (suc (suc fuel)))
          p
          (unmask_frame (a ∷ b ∷ c ∷ d ∷ []) (x ∷ bytes) ++ rest)
        ≡ parse_loop utf8 settings fuel (delivered (a ∷ b ∷ c ∷ d ∷ []) (x ∷ bytes) p) rest
  unfolding unmask header_state
  deliver_loop fuel p a b c d x bytes rest r big ph nd co hk hb hl =
      let key : Bytes = a ∷ b ∷ c ∷ d ∷ [] in
      let len = length (x ∷ bytes) in
      let body = unmask key 0 (x ∷ bytes) in
      loop_step (suc (suc fuel)) p (header_state len p) 0x82 ((128 + len) ∷ [])
        (key ++ (body ++ rest)) r (omega arith) (omega arith)
        (subst
          (λ h. handle utf8 settings h (0x82 ∷ (128 + len) ∷ []) p ≡ (header_state len p, true))
          (sym ph) (header_round p len hl co))
      ∙ loop_step (suc fuel) (header_state len p) (masked_state key len p) a (b ∷ c ∷ d ∷ [])
          (body ++ rest) r (omega arith) (omega arith) (mask_round p a b c d len (omega arith) hl)
      ∙ loop_step fuel (masked_state key len p) (delivered key (x ∷ bytes) p) (bit_xor x a)
          (unmask key 1 bytes) rest r (omega (arith, length-unmask key 1 bytes))
          (omega (arith, length-unmask key 1 bytes, length-append {0} (unmask key 1 bytes) rest))
          (payload_round p key (x ∷ bytes) hk hb)

  -- A final binary frame of 1 to 125 bytes that has arrived whole, masked by the client with any key,
  -- whose four bytes it uses in turn, is
  -- delivered once and unmasked, as a frame and as a message; then the loop waits for the next
  -- header. The socket can be read, the buffer takes 125 bytes, and no fragmented message is open.
  pub parse-delivers :
      (p : ProtoRequest) (a b c d x : ℕ) (bytes : Bytes)
      → settings.read_fails ≡ false
      → 125 ≤ settings.post_buffer_size
      → p.phase ≡ headers
      → p.need ≡ 2
      → p.continue_opcode ≡ 0
      → All (λ m. m < 256) (a ∷ b ∷ c ∷ d ∷ [])
      → All (λ y. y < 256) (x ∷ bytes)
      → length (x ∷ bytes) ≤ 125
      → parse utf8 settings p (client_frame a b c d (x ∷ bytes))
        ≡ some (delivered (a ∷ b ∷ c ∷ d ∷ []) (x ∷ bytes) p, [])
  unfolding parse
  parse-delivers p a b c d x bytes r big ph nd co hk hb hl =
      let body = unmask (a ∷ b ∷ c ∷ d ∷ []) 0 (x ∷ bytes) in
      let fuel = suc (suc (suc (suc (length body)))) in
      let run = deliver_loop fuel p a b c d x bytes [] r big ph nd co hk hb hl in
      let whole =
        (rw append-nil at run)
        ∙ loop_idle (suc (suc (suc (length body))))
            (delivered (a ∷ b ∷ c ∷ d ∷ []) (x ∷ bytes) p) in
      subst
        (λ t.
          parse utf8 settings p (0x82 ∷ (128 + length (x ∷ bytes)) ∷ a ∷ b ∷ c ∷ d ∷ t)
          ≡ some (delivered (a ∷ b ∷ c ∷ d ∷ []) (x ∷ bytes) p, []))
        ((unmask-masked a b c d 0 (x ∷ bytes)).0 refl) whole
