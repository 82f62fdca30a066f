-- ===== src/Http2/Parse/Laws.antt =====
-- What the read loop of Cutelyst/Server/protocolhttp2.cpp keeps, and where it never ends.
use cutelyst.Common.{
  ℕ, zero, suc, ◌+◌, ◌-◌, ◌*◌, ◌/◌, ◌%◌, ◌<◌, ◌≤◌, Bytes, [], ◌∷◌, ◌++◌, Bool, true, false, not,
  ◌&&◌, ◌||◌, if◌then◌else◌, take, drop, length, is_empty, Option, none, some, ◌==◌, ltb, bytes_eq,
  ◌≡◌, refl, arith, take-of-le, drop-of-le,
}
use cutelyst.Http2.Frames.{
  Frame, ParserState, method_line, h2_frames, connection_close, Connection, emit, frame_header,
}
use cutelyst.Http2.Frames.Laws.{send_go_away-Writes, send_settings-Writes}
use cutelyst.Http2.Streams.{Server, Handled, handled, refused, undefined}
use cutelyst.Http2.Streams.Laws.{
  IsConnection, Keeps, on, off, nothing, Writes-IsConnection, emit-IsConnection,
}
use cutelyst.Http2.Blocks.Laws.{parse_headers-Keeps}
use cutelyst.Http2.Handlers.Each.{
  parse_settings-Keeps, parse_data-Keeps, parse_priority-Keeps, parse_ping-Keeps,
  parse_rst_stream-Keeps, parse_window_update-Keeps,
}
use cutelyst.Http2.Parse.{
  preface, shift, frame_of, Turn, goes, ends, closes, returns, broken, quits, max_frame_size,
  handled_frame, dispatch_frame, take_frame, take_preface, turn, Looped, waiting, closing, left,
  undefined_, out_of_fuel, frames_loop, fill, parse,
}

data Leads : Turn → Type 0 where
  goes_on : {c : Connection} → IsConnection c → Leads (goes c)
  ends_in : {c : Connection} → IsConnection c → Leads (ends c)
  closes_in : {c : Connection} → IsConnection c → Leads (closes c)
  returns_in : {c : Connection} → IsConnection c → Leads (returns c)
  breaks : Leads broken

Leads-if : (b : Bool) (x y : Turn) → Leads x → Leads y → Leads (if b then x else y)
Leads-if true x y f g = f
Leads-if false x y f g = g

module _ (server : Server) where
  quits-Leads : (error : ℕ) (c : Connection) → IsConnection c → Leads (quits server error c)
  quits-Leads error c h =
      closes_in (Writes-IsConnection c _ (send_go_away-Writes server.takes c error) h)

  handled_frame-Leads : (fr : Frame) (r : Handled) → Keeps r → Leads (handled_frame server fr r)
  handled_frame-Leads fr (handled c) (on h) = goes_on h
  handled_frame-Leads fr (refused c) (off h) = closes_in h
  handled_frame-Leads fr undefined nothing = breaks

  dispatch_frame-Leads :
      (type_ : ℕ) (fr : Frame) (c : Connection)
      → IsConnection c
      → Leads (dispatch_frame server type_ fr c)
  unfolding dispatch_frame
  dispatch_frame-Leads type_ fr c h =
      let at = drop 9 (c.buffer ++ c.behind) in
      Leads-if (type_ == 4) _ _ (handled_frame-Leads fr _ (parse_settings-Keeps server at fr c h)) (
        Leads-if (type_ == 2) _ _ (handled_frame-Leads fr _ (parse_priority-Keeps server at fr c h))
          (Leads-if (type_ == 1) _ _
            (handled_frame-Leads fr _ (parse_headers-Keeps server at fr c h))
            (Leads-if (type_ == 6) _ _
              (handled_frame-Leads fr _ (parse_ping-Keeps server at fr c h))
              (Leads-if (type_ == 0) _ _
                (handled_frame-Leads fr _ (parse_data-Keeps server at fr c h))
                (Leads-if (type_ == 5) _ _ (quits-Leads 1 c h) (
                  Leads-if (type_ == 3) _ _
                    (handled_frame-Leads fr _ (parse_rst_stream-Keeps server fr c h))
                    (Leads-if (type_ == 8) _ _
                      (handled_frame-Leads fr _ (parse_window_update-Keeps server at fr c h))
                      (Leads-if (type_ == 7) _
                        (if type_ == 9 then quits server 1 c else goes (shift (9 + fr.len) c))
                        (returns_in (emit-IsConnection connection_close c tt h))
                        (Leads-if (type_ == 9) _ _ (quits-Leads 1 c h) (goes_on h))))))))))

  take_frame-Leads : (fr : Frame) (c : Connection) → IsConnection c → Leads (take_frame server fr c)
  unfolding take_frame
  take_frame-Leads fr c h =
      Leads-if (not (fr.stream_id == 0) && (fr.stream_id % 2 == 0)) _ _ (quits-Leads 1 c h) (
        Leads-if (ltb (max_frame_size server) fr.len) _ _ (quits-Leads 6 c h) (
          Leads-if (ltb (length c.buffer - 9) fr.len) _ _ (ends_in h) (
            Leads-if (c.stream_for_continuation == 0) _ _ (dispatch_frame-Leads fr.type_ fr c h) (
              Leads-if (fr.type_ == 9 && (c.stream_for_continuation == fr.stream_id)) _ _
                (dispatch_frame-Leads 1 fr c h) (quits-Leads 1 c h)))))

  turn-Leads : (s : ParserState) (c : Connection) → IsConnection c → Leads (turn server s c)
  unfolding turn take_preface
  turn-Leads method_line c h =
      let c' = record (shift 24 c) { conn_state = h2_frames } in
      Leads-if (ltb (length c.buffer) 24) _ _ (ends_in h) (
        Leads-if (bytes_eq (take 24 c.buffer) preface) _ (returns (emit connection_close c))
          (goes_on (Writes-IsConnection c' _ (send_settings-Writes server.takes c' _) h))
          (returns_in (emit-IsConnection connection_close c tt h)))
  turn-Leads h2_frames c h =
      Leads-if (ltb (length c.buffer) 9) _ _ (goes_on h) (take_frame-Leads (frame_of c.buffer) c h)

-- However the loop ends, the connection is as it should be.
abbrev pub Ends : Looped → Type 0
Ends (waiting c) = IsConnection c
Ends (closing c) = IsConnection c
Ends (left c) = IsConnection c
Ends undefined_ = Unit {0}
Ends out_of_fuel = Unit {0}

Ends-bool : (b : Bool) (x y : Looped) → Ends x → Ends y → Ends (elim b [ true ↦ x | false ↦ y ])
Ends-bool true x y f g = f
Ends-bool false x y f g = g

abbrev Filled : Option Connection → Type 0
Filled none = Unit {0}
Filled (some c) = IsConnection c

Filled-if : (b : Bool) (c : Connection) → IsConnection c → Filled (if b then none else some c)
Filled-if true c h = tt
Filled-if false c h = h

module _ (server : Server) where
  frames_loop-Ends-turn :
      (fuel : ℕ) (t : Turn)
      → Leads t
      → ((c : Connection) → IsConnection c → Ends (frames_loop server fuel c))
      → Ends (elim t [
        | goes c' ↦ frames_loop server fuel c'
        | ends c' ↦ waiting c'
        | closes c' ↦ closing c'
        | returns c' ↦ left c'
        | broken ↦ undefined_
      ])
  frames_loop-Ends-turn fuel (goes c) (goes_on h) ih = ih c h
  frames_loop-Ends-turn fuel (ends c) (ends_in h) ih = h
  frames_loop-Ends-turn fuel (closes c) (closes_in h) ih = h
  frames_loop-Ends-turn fuel (returns c) (returns_in h) ih = h
  frames_loop-Ends-turn fuel broken breaks ih = tt

  frames_loop-Ends : (fuel : ℕ) (c : Connection) → IsConnection c → Ends (frames_loop server fuel c)
  unfolding frames_loop
  frames_loop-Ends zero c h = tt
  frames_loop-Ends (suc fuel) c h = Ends-bool (is_empty c.buffer) (waiting c) _ h (
      frames_loop-Ends-turn fuel (turn server c.conn_state c) (turn-Leads server c.conn_state c h)
        (λ c' h'. frames_loop-Ends fuel c' h'))

  fill-Filled : (c : Connection) → IsConnection c → Filled (fill server c)
  unfolding fill
  fill-Filled c h =
      let room = server.buffer_size - length c.buffer in
      Filled-if (server.read_fails || is_empty (take room c.io)) _ h

  next_read :
      (reads frames : ℕ) (r : Looped)
      → Ends r
      → ((c : Connection) → IsConnection c → Ends (parse server reads frames c))
      → Ends (elim r [
        | waiting c' ↦ elim (is_empty c'.io) [
          | true ↦ waiting c'
          | false ↦ parse server reads frames c'
        ]
        | closing c' ↦ elim (is_empty c'.io) [
          | true ↦ closing (emit connection_close c')
          | false ↦ parse server reads frames (emit connection_close c')
        ]
        | left c' ↦ left c'
        | undefined_ ↦ undefined_
        | out_of_fuel ↦ out_of_fuel
      ])
  next_read reads frames (waiting c) h ih = Ends-bool (is_empty c.io) (waiting c) _ h (ih c h)
  next_read reads frames (closing c) h ih =
      let h' = emit-IsConnection connection_close c tt h in
      Ends-bool (is_empty c.io) (closing (emit connection_close c)) _ h'
        (ih (emit connection_close c) h')
  next_read reads frames (left c) h ih = h
  next_read reads frames undefined_ h ih = tt
  next_read reads frames out_of_fuel h ih = tt

  -- Whatever the client sends: where `parse` comes to an end without a read that may leave the buffer,
  -- the table of the header decoder is still valid, every stream has an identifier that was counted,
  -- and every request that was handed to the engine has regular header fields only, and a path that
  -- starts with a slash if it has got one.
  pub parse-IsConnection :
      (reads frames : ℕ) (c : Connection) → IsConnection c → Ends (parse server reads frames c)
  unfolding parse
  parse-IsConnection zero frames c h = tt
  parse-IsConnection (suc reads) frames c h =
      filled (λ c' h''. parse-IsConnection reads frames c' h'') (fill server c) (fill-Filled c h)
    where
      filled :
          ((d : Connection) → IsConnection d → Ends (parse server reads frames d))
          → (o : Option Connection) → Filled o
          → Ends (elim o [
            | none ↦ waiting c
            | some c1 ↦ elim (frames_loop server frames c1) [
              | waiting c' ↦ elim (is_empty c'.io) [
                | true ↦ waiting c'
                | false ↦ parse server reads frames c'
              ]
              | closing c' ↦ elim (is_empty c'.io) [
                | true ↦ closing (emit connection_close c')
                | false ↦ parse server reads frames (emit connection_close c')
              ]
              | left c' ↦ left c'
              | undefined_ ↦ undefined_
              | out_of_fuel ↦ out_of_fuel
            ]
          ])
      filled ih none h' = h
      filled ih (some c1) h' =
          next_read reads frames (frames_loop server frames c1) (frames_loop-Ends frames c1 h') ih

  -- A few bytes of a frame's header.
  abbrev pub cut_header : Bytes → Connection → Connection
  cut_header part c = record c { io = part; buffer = []; conn_state = h2_frames }

  frames_loop-cut_header :
      (fuel x : ℕ) (xs : Bytes) (c : Connection)
      → length (x ∷ xs) < 9
      → frames_loop server fuel (record c { buffer = x ∷ xs; conn_state = h2_frames }) ≡ out_of_fuel
  unfolding frames_loop turn
  frames_loop-cut_header zero x xs c short = refl
  frames_loop-cut_header (suc fuel) x xs c short =
      let small : ltb (length (x ∷ xs)) 9 ≡ true = ground arith in
      rw (small, frames_loop) (frames_loop-cut_header fuel x xs c short)

  -- A read that ends inside a frame's header keeps the loop over the buffer going for ever.
  pub parse-cut_header :
      (reads frames x : ℕ) (xs : Bytes) (c : Connection)
      → server.read_fails ≡ false
      → length (x ∷ xs) < 9
      → 9 ≤ server.buffer_size
      → parse server reads frames (cut_header (x ∷ xs) c) ≡ out_of_fuel
  unfolding parse fill
  parse-cut_header zero frames x xs c reads_well short fits = refl
  parse-cut_header (suc reads) frames x xs c reads_well short fits =
      let room : server.buffer_size - 0 ≡ server.buffer_size = omega arith in
      let all = take-of-le server.buffer_size (x ∷ xs) (omega arith) in
      let behind = record c { io = []; behind = drop (length (x ∷ xs)) c.behind } in
      rw (reads_well, parse)
        (rw (room) (
          rw (all, drop-of-le server.buffer_size (x ∷ xs) (omega arith))
            (rw (frames_loop-cut_header frames x xs behind short) refl)))

-- A frame header that is written is read back.
pub frame_of-frame_header :
    (type_ flags id len : ℕ) (rest : Bytes)
    → id < 0x80000000
    → len < 0x1000000
    → frame_of (frame_header type_ flags id len ++ rest)
      ≡ record { len = len; stream_id = id; type_ = type_; flags = flags }
unfolding frame_header
frame_of-frame_header type_ flags id len rest hi hl =
    let l : len % 0x100 + len / 0x100 % 0x100 * 0x100 + len / 0x10000 % 0x100 * 0x10000 ≡ len =
      omega arith in
    let i : id % 0x100
          + id / 0x100 % 0x100 * 0x100
          + id / 0x10000 % 0x100 * 0x10000
          + id / 0x1000000 % 0x100 % 0x80 * 0x1000000
        ≡ id =
      omega arith in
    rw (l, i) refl
