-- ===== src/Http2/Parse.antt =====
-- The read loop of HTTP/2: ProtocolHttp2::parse of Cutelyst/Server/protocolhttp2.cpp.
pub mod Laws
use cutelyst.Common.{
  ℕ, zero, suc, ◌+◌, ◌-◌, ◌*◌, ◌%◌, ◌==◌, Bytes, [], ◌∷◌, ◌++◌, true, false, not, ◌&&◌, ◌||◌,
  if◌then◌else◌, ltb, length, take, drop, is_empty, codes, bytes_eq, Option, none, some,
}
use cutelyst.FastCgi.Params.{byte_at}
use cutelyst.Http2.Frames.{
  Frame, ParserState, method_line, h2_frames, connection_close, Connection, emit, send_go_away,
  send_settings,
}
use cutelyst.Http2.Streams.{Server, Handled, handled, refused, undefined}
use cutelyst.Http2.Blocks.{parse_headers}
use cutelyst.Http2.Handlers.{
  parse_settings, parse_data, parse_priority, parse_ping, parse_rst_stream, parse_window_update,
}

-- The connection preface.
abbrev pub preface : Bytes
preface = codes "PRI * HTTP/2.0\r\n\r\nSM\r\n\r\n"

-- The `memmove` to the front: `n` bytes go, and stay behind the others.
abbrev pub shift : ℕ → Connection → Connection
shift n c = record c {
  buffer = drop n c.buffer;
  behind = drop (length c.buffer - n) c.buffer ++ c.behind;
}

-- The H2Frame of the header in front.
abbrev pub frame_of : Bytes → Frame
frame_of buffer = record {
  len = byte_at (drop 2 buffer) + byte_at (drop 1 buffer) * 0x100 + byte_at buffer * 0x10000;
  stream_id =
      byte_at (drop 8 buffer)
      + byte_at (drop 7 buffer) * 0x100
      + byte_at (drop 6 buffer) * 0x10000
      + byte_at (drop 5 buffer) % 0x80 * 0x1000000;
  type_ = byte_at (drop 3 buffer);
  flags = byte_at (drop 4 buffer);
}

-- A round of the loop over the buffer: it goes on, or ends with `ret` 0, or with another number, or
-- `parse` returns.
pub data Turn : Type 0 where
  goes ends closes returns : Connection → Turn
  broken : Turn

-- How the loop over the buffer ends.
pub data Looped : Type 0 where
  waiting closing left : Connection → Looped
  undefined_ : Looped
  out_of_fuel : Looped

module _ (server : Server) where
  -- `ret = sendGoAway(…); break`.
  abbrev quits : ℕ → Connection → Turn
  quits error c = closes (send_go_away server.takes error c).0

  abbrev max_frame_size : ℕ
  max_frame_size = server.buffer_size - 9

  -- Behind a handler the frame is moved away.
  abbrev handled_frame : Frame → Handled → Turn
  handled_frame fr (handled c) = goes (shift (9 + fr.len) c)
  handled_frame fr (refused c) = closes (shift (9 + fr.len) c)
  handled_frame fr undefined = broken

  -- A whole frame, by its type.
  pub dispatch_frame : ℕ → Frame → Connection → Turn
  dispatch_frame type_ fr c =
      let at = drop 9 (c.buffer ++ c.behind) in
      if type_ == 4
      then handled_frame fr (parse_settings server at fr c)
      else if type_ == 2
      then handled_frame fr (parse_priority server at fr c)
      else if type_ == 1
      then handled_frame fr (parse_headers server at fr c)
      else if type_ == 6
      then handled_frame fr (parse_ping server at fr c)
      else if type_ == 0
      then handled_frame fr (parse_data server at fr c)
      else if type_ == 5
      then quits 1 c
      else if type_ == 3
      then handled_frame fr (parse_rst_stream server fr c)
      else if type_ == 8
      then handled_frame fr (parse_window_update server at fr c)
      else if type_ == 7
      then returns (emit connection_close c)
      else if type_ == 9
      then quits 1 c
      else goes (shift (9 + fr.len) c)

  -- The frame at the front: a continuation is taken for headers where one is waited for.
  pub take_frame : Frame → Connection → Turn
  take_frame fr c =
      if not (fr.stream_id == 0) && (fr.stream_id % 2 == 0)
      then quits 1 c
      else if ltb max_frame_size fr.len
      then quits 6 c
      else if ltb (length c.buffer - 9) fr.len
      then ends c
      else if c.stream_for_continuation == 0
      then dispatch_frame fr.type_ fr c
      else if fr.type_ == 9 && (c.stream_for_continuation == fr.stream_id)
      then dispatch_frame 1 fr c
      else quits 1 c

  -- The preface.
  pub take_preface : Connection → Turn
  take_preface c =
      if ltb (length c.buffer) 24
      then ends c
      else if bytes_eq (take 24 c.buffer) preface
      then goes
          (send_settings server.takes
            ((8, 0) ∷ (5, max_frame_size) ∷ (1, server.header_table_size) ∷ [])
            (record (shift 24 c) { conn_state = h2_frames })).0
      else returns (emit connection_close c)

  -- A round; a header that is not there as a whole leaves everything as it is.
  pub turn : ParserState → Connection → Turn
  turn method_line c = take_preface c
  turn h2_frames c = if ltb (length c.buffer) 9 then goes c else take_frame (frame_of c.buffer) c

  -- `while (request->buf_size && ret == 0)`.
  pub frames_loop : ℕ → Connection → Looped
  frames_loop zero c = out_of_fuel
  frames_loop (suc fuel) c = elim (is_empty c.buffer) [
    | true ↦ waiting c
    | false ↦ elim (turn c.conn_state c) [
      | goes c' ↦ frames_loop fuel c'
      | ends c' ↦ waiting c'
      | closes c' ↦ closing c'
      | returns c' ↦ left c'
      | broken ↦ undefined_
    ]
  ]

  -- The read into the buffer; `none` where there is nothing or the read fails.
  pub fill : Connection → Option Connection
  fill c =
      let room = server.buffer_size - length c.buffer in
      let chunk = take room c.io in
      if server.read_fails || is_empty chunk
      then none
      else some (record c {
        io = drop room c.io;
        buffer = c.buffer ++ chunk;
        behind = drop (length chunk) c.behind;
      })

  -- `do … while (bytesAvailable)`, with a fuel for the reads and one for the frames of each.
  pub parse : ℕ → ℕ → Connection → Looped
  parse zero frames c = out_of_fuel
  parse (suc reads) frames c = elim (fill c) [
    | none ↦ waiting c
    | some c1 ↦ elim (frames_loop frames c1) [
      | waiting c' ↦ elim (is_empty c'.io) [ true ↦ waiting c' | false ↦ parse reads frames c' ]
      | closing c' ↦ elim (is_empty c'.io) [
        | true ↦ closing (emit connection_close c')
        | false ↦ parse reads frames (emit connection_close c')
      ]
      | left c' ↦ left c'
      | undefined_ ↦ undefined_
      | out_of_fuel ↦ out_of_fuel
    ]
  ]
