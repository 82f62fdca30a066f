-- ===== src/Http2/Handlers/Laws.antt =====
-- parseSettings and parseData of Cutelyst/Server/protocolhttp2.cpp.
use cutelyst.Common.{
  ℕ, Bytes, List, [], ◌∷◌, map, All, Option, none, some, ◌==◌, ◌*◌, ◌+◌, ◌-◌, ◌++◌, take, ◌||◌,
  ◌&&◌, not, if◌then◌else◌, ltb,
}
use cutelyst.Common.Int.{ℤ, pos, negsuc, int_eq, int_lt}
use cutelyst.Http2.Frames.{Stream, Frame, queued, Connection, send_settings_ack}
use cutelyst.Http2.Frames.Laws.{send_settings_ack-Writes}
use cutelyst.Http2.Streams.{
  Server, Handled, handled, refused, undefined, bit, net_be32, with_stream, is_idle, is_half_closed,
  is_closed, max_window, queue_stream, go_away,
}
use cutelyst.Http2.Streams.Laws.{
  IsStream, IsConnection, Keeps, on, off, nothing, Writes-IsConnection, Keeps-if,
  with_stream-IsConnection, emit-IsConnection, go_away-Keeps,
}
use cutelyst.Http2.Handlers.{take_setting, settings_loop, write_data, data_of_stream}

map-IsStream :
    (m : ℕ) (f : Stream → ℤ) (streams : List Stream)
    → All (IsStream m) streams
    → All (IsStream m) (map (λ (s : Stream). record s { window_size = f s }) streams)
map-IsStream m f [] h = tt
map-IsStream m f (s ∷ streams) (hs, h) = (hs, map-IsStream m f streams h)

module _ (server : Server) where
  take_setting-Keeps :
      (identifier value : ℕ) (c : Connection)
      → IsConnection c
      → Keeps (take_setting server identifier value c)
  unfolding take_setting
  take_setting-Keeps identifier value c (table, streams, events) =
      let h : IsConnection c = (table, streams, events) in
      let away1 = go_away-Keeps server 1 c h in
      let away3 = go_away-Keeps server 3 c h in
      Keeps-if (identifier == 2) _ _ (λ _. Keeps-if (ltb 1 value) _ _ (λ _. away1) (λ _. on h))
        (λ _.
          Keeps-if (identifier == 4) _ _
            (λ _.
              Keeps-if (ltb max_window value) _ _ (λ _. away3)
                (λ _. on (table, map-IsStream c.max_stream_id _ c.streams streams, events)))
            (λ _.
              Keeps-if (identifier == 5) _ _
                (λ _. Keeps-if (ltb value 16384 || ltb 16777215 value) _ _ (λ _. away1) (λ _. on h))
                (λ _. on h)))

  acknowledged :
      (c : Connection) → IsConnection c → Keeps (handled (send_settings_ack server.takes c).0)
  acknowledged c h = on (Writes-IsConnection c _ (send_settings_ack-Writes server.takes c) h)

  settings_loop-step :
      (r : Handled) (next : Connection → Handled)
      → Keeps r
      → ((c : Connection) → IsConnection c → Keeps (next c))
      → Keeps (elim r [ handled c' ↦ next c' | refused c' ↦ refused c' | undefined ↦ undefined ])
  settings_loop-step (handled c) next (on h) later = later c h
  settings_loop-step (refused c) next (off h) later = off h
  settings_loop-step undefined next nothing later = nothing

  pub settings_loop-Keeps :
      (bytes : Bytes) (c : Connection) → IsConnection c → Keeps (settings_loop server bytes c)
  unfolding settings_loop
  settings_loop-Keeps (a ∷ b ∷ v3 ∷ v2 ∷ v1 ∷ v0 ∷ rest) c h =
      let value = net_be32 (v3 ∷ v2 ∷ v1 ∷ v0 ∷ []) in
      settings_loop-step (take_setting server (a * 0x100 + b) value c)
        (λ c'. settings_loop server rest c') (take_setting-Keeps (a * 0x100 + b) value c h)
        (λ c' h'. settings_loop-Keeps rest c' h')
  settings_loop-Keeps [] c h = acknowledged c h
  settings_loop-Keeps (a ∷ []) c h = acknowledged c h
  settings_loop-Keeps (a ∷ b ∷ []) c h = acknowledged c h
  settings_loop-Keeps (a ∷ b ∷ d ∷ []) c h = acknowledged c h
  settings_loop-Keeps (a ∷ b ∷ d ∷ e ∷ []) c h = acknowledged c h
  settings_loop-Keeps (a ∷ b ∷ d ∷ e ∷ f ∷ []) c h = acknowledged c h

  write_data-Keeps :
      (at : Bytes) (fr : Frame) (pad_length : ℕ) (body : Bytes) (s : Stream) (c : Connection)
      → IsStream c.max_stream_id s
      → IsConnection c
      → Keeps (write_data server at fr pad_length body s c)
  unfolding write_data
  write_data-Keeps at fr pad_length body s c hs h =
      let size = fr.len - pad_length in
      let s' = record s {
        body = some (body ++ take size at);
        consumed_data = s.consumed_data + size;
      } in
      let c' = with_stream s' c in
      let h' = with_stream-IsConnection s' c hs h in
      let expected = s.request.content_length in
      Keeps-if
        (not (int_eq expected (negsuc 0))
          && (bit fr.flags 1 && not (int_eq expected (pos s'.consumed_data))
              || int_lt (pos s'.consumed_data) expected))
        _ _ (λ _. go_away-Keeps server 1 c' h')
        (λ _.
          Keeps-if (bit fr.flags 1) (handled (queue_stream s' c')) (handled c')
            (λ _. on (emit-IsConnection (queued s'.stream_id s'.request s'.body) c' hs.0 h'))
            (λ _. on h'))

  pub data_of_stream-Keeps :
      (at : Bytes) (fr : Frame) (pad_length : ℕ) (s : Stream) (c : Connection)
      → IsStream c.max_stream_id s
      → IsConnection c
      → Keeps (data_of_stream server at fr pad_length s c)
  unfolding data_of_stream
  data_of_stream-Keeps at fr pad_length s c hs h =
      Keeps-if (is_idle s.state) _ _ (λ _. go_away-Keeps server 1 c h)
        (λ _.
          Keeps-if (is_half_closed s.state || is_closed s.state) _ _
            (λ _. go_away-Keeps server 5 c h) (λ _. with_body s.body))
    where
      with_body :
          (b : Option Bytes)
          → Keeps (elim b [
            | some body ↦ write_data server at fr pad_length body s c
            | none ↦
                if server.can_create_body
                then write_data server at fr pad_length [] s c
                else go_away server 2 c
          ])
      with_body (some body) = write_data-Keeps at fr pad_length body s c hs h
      with_body none =
          Keeps-if server.can_create_body _ _ (λ _. write_data-Keeps at fr pad_length [] s c hs h)
            (λ _. go_away-Keeps server 2 c h)
