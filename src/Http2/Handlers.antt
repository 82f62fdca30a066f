-- ===== src/Http2/Handlers.antt =====
-- What is done with a frame of the other types: parseSettings, parseData, parsePriority, parsePing,
-- parseRstStream and parseWindowUpdate of Cutelyst/Server/protocolhttp2.cpp.
pub mod Laws
pub mod Each
use cutelyst.Common.{
  ℕ, ◌+◌, ◌-◌, ◌*◌, ◌%◌, ◌==◌, Bytes, [], ◌∷◌, ◌++◌, not, ◌&&◌, ◌||◌, if◌then◌else◌, ltb, leb, take,
  map, none, some,
}
use cutelyst.Common.Int.{pos, negsuc, sub_ℕ, int_add, int_lt, int_eq}
use cutelyst.FastCgi.Params.{byte_at}
use cutelyst.Http2.Frames.{
  closed, Stream, Frame, Connection, send_go_away, send_rst_stream, send_settings_ack, send_ping,
}
use cutelyst.Http2.Streams.{
  Server, Handled, handled, refused, undefined, from_send, bit, net_be32, find_stream, with_stream,
  is_idle, is_half_closed, is_closed, max_window, queue_stream, go_away,
}

module _ (server : Server) where
  -- A setting that the client sends.
  pub take_setting : ℕ → ℕ → Connection → Handled
  take_setting identifier value c =
      if identifier == 2
      then (if ltb 1 value
          then go_away server 1 c
          else handled (record c { can_push = value == 1 }))
      else if identifier == 4
      then (if ltb max_window value
          then go_away server 3 c
          else let difference = sub_ℕ value c.settings_initial_window_size in
            handled (record c {
              settings_initial_window_size = value;
              streams =
                  map (λ (s : Stream). record s { window_size = int_add s.window_size difference })
                    c.streams;
            }))
      else if identifier == 5
      then (if ltb value 16384 || ltb 16777215 value
          then go_away server 1 c
          else handled (record c { settings_max_frame_size = value }))
      else handled c

  pub settings_loop : Bytes → Connection → Handled
  settings_loop (a ∷ b ∷ v3 ∷ v2 ∷ v1 ∷ v0 ∷ rest) c =
      elim (take_setting (a * 0x100 + b) (net_be32 (v3 ∷ v2 ∷ v1 ∷ v0 ∷ [])) c) [
        | handled c' ↦ settings_loop rest c'
        | refused c' ↦ refused c'
        | undefined ↦ undefined
      ]
  settings_loop _ c = handled (send_settings_ack server.takes c).0

  -- parseSettings; `at` is the memory behind the frame's header.
  pub parse_settings : Bytes → Frame → Connection → Handled
  parse_settings at fr c =
      if bit fr.flags 1 && not (fr.len == 0) || not (fr.len % 6 == 0)
      then refused (send_go_away server.takes 6 c).0
      else if not (fr.stream_id == 0)
      then refused (send_go_away server.takes 1 c).0
      else if bit fr.flags 1
      then handled c
      else settings_loop (take fr.len at) c

  -- The rest of parseData, with a body: the bytes are written from the front of the frame on.
  pub write_data : Bytes → Frame → ℕ → Bytes → Stream → Connection → Handled
  write_data at fr pad_length body s c =
      let size = fr.len - pad_length in
      let s' = record s {
        body = some (body ++ take size at);
        consumed_data = s.consumed_data + size;
      } in
      let c' = with_stream s' c in
      let expected = s.request.content_length in
      if not (int_eq expected (negsuc 0))
        && (bit fr.flags 1 && not (int_eq expected (pos s'.consumed_data))
            || int_lt (pos s'.consumed_data) expected)
      then go_away server 1 c'
      else if bit fr.flags 1
      then handled (queue_stream s' c')
      else handled c'

  pub data_of_stream : Bytes → Frame → ℕ → Stream → Connection → Handled
  data_of_stream at fr pad_length s c =
      if is_idle s.state
      then go_away server 1 c
      else if is_half_closed s.state || is_closed s.state
      then go_away server 5 c
      else elim s.body [
        | some body ↦ write_data at fr pad_length body s c
        | none ↦
            if server.can_create_body
            then write_data at fr pad_length [] s c
            else go_away server 2 c
      ]

  -- parseData.
  pub parse_data : Bytes → Frame → Connection → Handled
  parse_data at fr c =
      let pad_length = if bit fr.flags 8 then byte_at at else 0 in
      if fr.stream_id == 0
      then go_away server 1 c
      else if bit fr.flags 8 && leb fr.len pad_length
      then go_away server 1 c
      else elim (find_stream fr.stream_id c.streams) [
        | none ↦ go_away server 5 c
        | some s ↦ data_of_stream at fr pad_length s c
      ]

  -- parsePriority; its loop is one round for a length of 5.
  pub parse_priority : Bytes → Frame → Connection → Handled
  parse_priority at fr c =
      if not (fr.len == 5)
      then go_away server 6 c
      else if fr.stream_id == 0 || fr.stream_id == net_be32 at
      then go_away server 1 c
      else handled c

  -- parsePing.
  pub parse_ping : Bytes → Frame → Connection → Handled
  parse_ping at fr c =
      if not (fr.len == 8)
      then go_away server 6 c
      else if not (fr.stream_id == 0)
      then go_away server 1 c
      else if bit fr.flags 1
      then handled c
      else handled (send_ping server.takes 1 (take 8 at) c).0

  -- parseRstStream.
  pub parse_rst_stream : Frame → Connection → Handled
  parse_rst_stream fr c =
      if fr.stream_id == 0
      then go_away server 1 c
      else if not (fr.len == 4)
      then go_away server 6 c
      else elim (find_stream fr.stream_id c.streams) [
        | none ↦ go_away server 5 c
        | some s ↦
            if is_idle s.state
            then go_away server 1 c
            else handled (with_stream (record s { state = closed }) c)
      ]

  -- parseWindowUpdate.
  pub parse_window_update : Bytes → Frame → Connection → Handled
  parse_window_update at fr c =
      let increment = net_be32 at in
      let total = int_add c.window_size (pos increment) in
      if not (fr.len == 4)
      then go_away server 6 c
      else if increment == 0
      then go_away server 1 c
      else if fr.stream_id == 0
      then (if int_lt (pos max_window) total
          then go_away server 3 c
          else handled (record c { window_size = total }))
      else elim (find_stream fr.stream_id c.streams) [
        | none ↦ go_away server 5 c
        | some s ↦
            let result = int_add s.window_size (pos increment) in
            if is_idle s.state
            then go_away server 1 c
            else if int_lt (pos max_window) result
            then from_send (
                send_rst_stream server.takes fr.stream_id 3
                  (with_stream (record s { state = closed }) c))
            else handled (with_stream (record s { window_size = result }) c)
      ]
