-- ===== src/WebSocket/Parse/Laws.antt =====
-- ProtocolWebSocket::parse ends, and leaves a state that its phases allow.
use cutelyst.Common.{
  List, ℕ, zero, suc, ◌^◌, ◌<◌, ◌≤◌, if◌then◌else◌, Bytes, [], ◌∷◌, length, take, drop, Bool, true,
  false, Option, none, some, ◌≡◌, refl, arith, length-take, length-drop,
}
use cutelyst.WebSocket.Frames.{byte_at}
use cutelyst.WebSocket.Receive.{
  Utf8, WebSocketPhase, headers, size, mask, payload, connection_close, ProtoRequest, Event, emit,
}
use cutelyst.WebSocket.Receive.Phases.{
  IsValid, Awaits, IsValid-at, websocket_parse_header-IsValid, websocket_parse_size-IsValid,
  websocket_parse_mask-IsValid, websocket_parse_payload-IsValid,
}
use cutelyst.WebSocket.Parse.{Settings, handle, waits, max_len, parse_loop, parse}

Awaits-emit :
    (phase : WebSocketPhase) (limit : ℕ) (new : List Event) (p : ProtoRequest)
    → Awaits phase limit p
    → Awaits phase limit (emit new p)
Awaits-emit headers limit new p v = v
Awaits-emit size limit new p v = v
Awaits-emit mask limit new p v = v
Awaits-emit payload limit new p v = v

-- A round that reads takes a byte at least.
goes_shorter :
    (utf8 : Utf8) (settings : Settings) (p : ProtoRequest) (io : Bytes)
    → 0 < settings.post_buffer_size
    → waits utf8 settings p io ≡ false
    → length (drop (max_len utf8 settings p) io) < length io
goes_shorter utf8 settings p [] b go = ground arith
goes_shorter utf8 settings p (c ∷ io) b go =
    let n : 0 < p.need = ground arith in
    omega (arith, length-drop {0} (max_len utf8 settings p) (c ∷ io))

-- What a run leaves, in a connection that takes `limit` bytes in one frame.
abbrev pub Left : ℕ → Option (ProtoRequest × Bytes) → Bytes → Type 0
Left limit none io = ⊥
Left limit (some (p, rest)) io = IsValid limit p × (length rest ≤ length io)

module _ (utf8 : Utf8) (settings : Settings) (small : settings.websockets_max_size < 2 ^ 31) where
  handle-IsValid :
      (phase : WebSocketPhase) (buf : Bytes) (p : ProtoRequest)
      → p.phase ≡ phase
      → length buf ≤ p.need
      → IsValid settings.websockets_max_size p
      → IsValid settings.websockets_max_size (handle utf8 settings phase buf p).0
  unfolding handle
  handle-IsValid headers buf p e l v =
      websocket_parse_header-IsValid settings.websockets_max_size (byte_at buf 0) (byte_at buf 1) p
        e v
  handle-IsValid size buf p e l v =
      websocket_parse_size-IsValid settings.websockets_max_size buf p e v
  handle-IsValid mask buf p e l v =
      websocket_parse_mask-IsValid utf8 settings.websockets_max_size buf p small e v
  handle-IsValid payload buf p e l v =
      let (_, counted, fits) = IsValid-at settings.websockets_max_size p payload e v in
      websocket_parse_payload-IsValid utf8 settings.websockets_max_size buf p small e l counted fits

  Left-mono :
      (r : Option (ProtoRequest × Bytes)) (io io' : Bytes)
      → length io ≤ length io'
      → Left settings.websockets_max_size r io
      → Left settings.websockets_max_size r io'
  Left-mono none io io' h l = l
  Left-mono (some (p, rest)) io io' h (v, l) = (v, omega arith)

  -- The three tests of a round.
  Left-branches :
      (io : Bytes) (stop fails goes_on : Bool) (a b more c : Option (ProtoRequest × Bytes))
      → Left settings.websockets_max_size a io
      → Left settings.websockets_max_size b io
      → (stop ≡ false → Left settings.websockets_max_size more io)
      → Left settings.websockets_max_size c io
      → Left settings.websockets_max_size
          (if stop then a else if fails then b else if goes_on then more else c)
          io
  Left-branches io true fails goes_on _ _ _ _ a b more c = a
  Left-branches io false true goes_on _ _ _ _ a b more c = b
  Left-branches io false false true _ _ _ _ a b more c = more refl
  Left-branches io false false false _ _ _ _ a b more c = c

  parse_loop-Left :
      (fuel : ℕ) (p : ProtoRequest) (io : Bytes)
      → 0 < settings.post_buffer_size
      → length io < fuel
      → IsValid settings.websockets_max_size p
      → Left settings.websockets_max_size (parse_loop utf8 settings fuel p io) io
  unfolding parse_loop
  parse_loop-Left zero p io b h v = absurd (omega arith)
  parse_loop-Left (suc fuel) p io b h v =
      let n = max_len utf8 settings p in
      let (p', goes_on) = handle utf8 settings p.phase (take n io) p in
      let v' : IsValid settings.websockets_max_size p' =
        handle-IsValid p.phase (take n io) p refl (omega (arith, length-take {0} n io)) v in
      Left-branches io (waits utf8 settings p io) settings.read_fails goes_on _ _ _ _
        (v, omega arith)
        (Awaits-emit p.phase settings.websockets_max_size (connection_close ∷ []) p v, omega arith)
        (λ go.
          let shorter = goes_shorter utf8 settings p io b go in
          Left-mono _ (drop n io) io (omega arith)
            (parse_loop-Left fuel p' (drop n io) b (omega arith) v'))
        (v', omega (arith, length-drop {0} n io))

  -- ProtocolWebSocket::parse ends on any bytes that are available, and leaves a state that its
  -- phase allows: the bytes it waits for are those of the phase, and a frame's payload never grows
  -- beyond its announced size, which is at most 125 or the maximum that the server is set to. The
  -- read buffer is not empty and the maximum is an `int`.
  pub parse-Left :
      (p : ProtoRequest) (io : Bytes)
      → 0 < settings.post_buffer_size
      → IsValid settings.websockets_max_size p
      → Left settings.websockets_max_size (parse utf8 settings p io) io
  unfolding parse
  parse-Left p io b v = parse_loop-Left (suc (length io)) p io b (omega arith) v
