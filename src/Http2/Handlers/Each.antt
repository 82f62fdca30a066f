-- ===== src/Http2/Handlers/Each.antt =====
-- Each handler of Cutelyst/Server/protocolhttp2.cpp keeps the connection as it should be.
use cutelyst.Common.{ℕ, ◌%◌, Bytes, not, ◌&&◌, ◌||◌, if◌then◌else◌, take, ◌==◌, leb, refl}
use cutelyst.Common.Int.{pos, int_lt, int_add}
use cutelyst.FastCgi.Params.{byte_at}
use cutelyst.Http2.Frames.{closed, Stream, Frame, Connection, send_rst_stream}
use cutelyst.Http2.Frames.Laws.{send_go_away-Writes, send_rst_stream-Writes, send_ping-Writes}
use cutelyst.Http2.Streams.{
  Server, handled, from_send, bit, net_be32, find_stream, with_stream, is_idle, max_window, go_away,
}
use cutelyst.Http2.Streams.Laws.{
  IsStream, IsConnection, Keeps, on, off, Writes-IsConnection, Keeps-if, Keeps-found,
  from_send-Keeps, with_stream-IsConnection, go_away-Keeps,
}
use cutelyst.Http2.Handlers.{
  parse_settings, parse_data, parse_priority, parse_ping, parse_rst_stream, parse_window_update,
}
use cutelyst.Http2.Handlers.Laws.{settings_loop-Keeps, data_of_stream-Keeps}

module _ (server : Server) where
  pub parse_settings-Keeps :
      (at : Bytes) (fr : Frame) (c : Connection)
      → IsConnection c
      → Keeps (parse_settings server at fr c)
  unfolding parse_settings
  parse_settings-Keeps at fr c h =
      let refusal =
        λ (error : ℕ). Writes-IsConnection c _ (send_go_away-Writes server.takes c error) h in
      Keeps-if (bit fr.flags 1 && not (fr.len == 0) || not (fr.len % 6 == 0)) _ _
        (λ _. off (refusal 6))
        (λ _.
          Keeps-if (not (fr.stream_id == 0)) _ _ (λ _. off (refusal 1))
            (λ _.
              Keeps-if (bit fr.flags 1) _ _ (λ _. on h)
                (λ _. settings_loop-Keeps server (take fr.len at) c h)))

  pub parse_data-Keeps :
      (at : Bytes) (fr : Frame) (c : Connection)
      → IsConnection c
      → Keeps (parse_data server at fr c)
  unfolding parse_data
  parse_data-Keeps at fr c h =
      let pad_length = if bit fr.flags 8 then byte_at at else 0 in
      Keeps-if (fr.stream_id == 0) _ _ (λ _. go_away-Keeps server 1 c h)
        (λ _.
          Keeps-if (bit fr.flags 8 && leb fr.len pad_length) _ _ (λ _. go_away-Keeps server 1 c h)
            (λ _.
              Keeps-found fr.stream_id c (find_stream fr.stream_id c.streams) _ _ refl h
                (go_away-Keeps server 5 c h)
                (λ s hs. data_of_stream-Keeps server at fr pad_length s c hs h)))

  pub parse_priority-Keeps :
      (at : Bytes) (fr : Frame) (c : Connection)
      → IsConnection c
      → Keeps (parse_priority server at fr c)
  unfolding parse_priority
  parse_priority-Keeps at fr c h =
      Keeps-if (not (fr.len == 5)) _ _ (λ _. go_away-Keeps server 6 c h)
        (λ _.
          Keeps-if (fr.stream_id == 0 || (fr.stream_id == net_be32 at)) _ _
            (λ _. go_away-Keeps server 1 c h) (λ _. on h))

  pub parse_ping-Keeps :
      (at : Bytes) (fr : Frame) (c : Connection)
      → IsConnection c
      → Keeps (parse_ping server at fr c)
  unfolding parse_ping
  parse_ping-Keeps at fr c h =
      Keeps-if (not (fr.len == 8)) _ _ (λ _. go_away-Keeps server 6 c h)
        (λ _.
          Keeps-if (not (fr.stream_id == 0)) _ _ (λ _. go_away-Keeps server 1 c h)
            (λ _.
              Keeps-if (bit fr.flags 1) _ _ (λ _. on h)
                (λ _.
                  on (Writes-IsConnection c _ (send_ping-Writes server.takes c 1 (take 8 at)) h))))

  pub parse_rst_stream-Keeps :
      (fr : Frame) (c : Connection) → IsConnection c → Keeps (parse_rst_stream server fr c)
  unfolding parse_rst_stream
  parse_rst_stream-Keeps fr c h =
      Keeps-if (fr.stream_id == 0) _ _ (λ _. go_away-Keeps server 1 c h)
        (λ _.
          Keeps-if (not (fr.len == 4)) _ _ (λ _. go_away-Keeps server 6 c h)
            (λ _.
              Keeps-found fr.stream_id c (find_stream fr.stream_id c.streams) _ _ refl h
                (go_away-Keeps server 5 c h)
                (λ s hs.
                  Keeps-if (is_idle s.state) _ _ (λ _. go_away-Keeps server 1 c h)
                    (λ _. on (with_stream-IsConnection (record s { state = closed }) c hs h)))))

  pub parse_window_update-Keeps :
      (at : Bytes) (fr : Frame) (c : Connection)
      → IsConnection c
      → Keeps (parse_window_update server at fr c)
  unfolding parse_window_update
  parse_window_update-Keeps at fr c h =
      let increment = net_be32 at in
      let total = int_add c.window_size (pos increment) in
      Keeps-if (not (fr.len == 4)) _ _ (λ _. go_away-Keeps server 6 c h)
        (λ _.
          Keeps-if (increment == 0) _ _ (λ _. go_away-Keeps server 1 c h)
            (λ _.
              Keeps-if (fr.stream_id == 0) _ _
                (λ _.
                  Keeps-if (int_lt (pos max_window) total) _ _ (λ _. go_away-Keeps server 3 c h)
                    (λ _. on h))
                (λ _.
                  Keeps-found fr.stream_id c (find_stream fr.stream_id c.streams) _ _ refl h
                    (go_away-Keeps server 5 c h) (λ s hs. of_stream s hs))))
    where
      of_stream :
          (s : Stream)
          → IsStream c.max_stream_id s
          → let result = int_add s.window_size (pos (net_be32 at)) in
            Keeps (
              if is_idle s.state
              then go_away server 1 c
              else if int_lt (pos max_window) result
              then from_send (
                  send_rst_stream server.takes fr.stream_id 3
                    (with_stream (record s { state = closed }) c))
              else handled (with_stream (record s { window_size = result }) c))
      of_stream s hs =
          let result = int_add s.window_size (pos (net_be32 at)) in
          let c' = with_stream (record s { state = closed }) c in
          let h' = with_stream-IsConnection (record s { state = closed }) c hs h in
          Keeps-if (is_idle s.state) _ _ (λ _. go_away-Keeps server 1 c h)
            (λ _.
              Keeps-if (int_lt (pos max_window) result) _ _
                (λ _. from_send-Keeps (send_rst_stream server.takes fr.stream_id 3 c') (
                  Writes-IsConnection c' _ (send_rst_stream-Writes server.takes c' fr.stream_id 3)
                    h'))
                (λ _. on (with_stream-IsConnection (record s { window_size = result }) c hs h)))
