-- ===== src/Http2/Blocks/Laws.antt =====
-- parseHeaders of Cutelyst/Server/protocolhttp2.cpp keeps the connection as it should be.
use cutelyst.Common.{
  ℕ, ◌+◌, ◌-◌, ◌≤◌, Bytes, ◌++◌, not, ◌&&◌, ◌||◌, if◌then◌else◌, take, drop, is_empty, Option, none,
  some, ◌==◌, leb, ltb, ◌≡◌, refl, arith,
}
use cutelyst.Hpack.Table.{HPack}
use cutelyst.Hpack.Table.Laws.{IsValid, new_hpack-IsValid}
use cutelyst.Hpack.Decoder.{Outcome, returned, fault, decode}
use cutelyst.Hpack.Decoder.Invariants.{decode-IsValid, decode-IsSound}
use cutelyst.FastCgi.Params.{byte_at}
use cutelyst.Http2.Frames.{open_, half_closed, Stream, Frame, queued, Connection}
use cutelyst.Http2.Streams.{
  Server, handled, undefined, bit, net_be32, find_stream, with_stream, is_idle, is_half_closed,
  queue_stream, go_away,
}
use cutelyst.Http2.Streams.Laws.{
  IsTable, IsStream, IsConnection, Keeps, on, nothing, IsStream-later, Keeps-if, Keeps-found,
  with_stream-IsConnection, emit-IsConnection, go_away-Keeps,
}
use cutelyst.Http2.Blocks.{
  new_stream, hpack_of, decode_headers, take_block, known_stream, headers_of_stream, parse_headers,
}

module _ (server : Server) where
  hpack_of-IsValid : (o : Option HPack) → IsTable o → IsValid (hpack_of server o)
  unfolding hpack_of
  hpack_of-IsValid none h = new_hpack-IsValid server.header_table_size
  hpack_of-IsValid (some table) h = h

  decoded-Keeps :
      (block : Bytes) (fr : Frame) (s : Stream) (c : Connection) (table : HPack) (o : Outcome)
      → decode server.host block table s.request ≡ o
      → IsValid table
      → IsStream c.max_stream_id s
      → IsConnection c
      → Keeps (elim o [
        | returned code d ↦
            let s' = record s { request = d.stream } in
            let c' = with_stream s' (record c { hpack = some d.hpack }) in
            if not (code == 0)
            then go_away server code c'
            else if is_half_closed s.state || bit fr.flags 1
            then handled (queue_stream s' c')
            else handled c'
        | _ ↦ undefined
      ])
  decoded-Keeps block fr s c table (returned code d) e valid (sound, under) (_, streams, events) =
      let s' = record s { request = d.stream } in
      let c1 = record c { hpack = some d.hpack } in
      let c' = with_stream s' c1 in
      let sound' = decode-IsSound server.host block table s.request code d sound e in
      let valid' = decode-IsValid server.host block table s.request code d valid e in
      let h' = with_stream-IsConnection s' c1 (sound', under) (valid', streams, events) in
      Keeps-if (not (code == 0)) _ _ (λ _. go_away-Keeps server code c' h')
        (λ _.
          Keeps-if (is_half_closed s.state || bit fr.flags 1) (handled (queue_stream s' c'))
            (handled c')
            (λ _. on (emit-IsConnection (queued s'.stream_id s'.request s'.body) c' sound' h'))
            (λ _. on h'))
  decoded-Keeps block fr s c table fault e valid hs h = nothing
  decoded-Keeps block fr s c table Outcome.out_of_fuel e valid hs h = nothing

  decode_headers-Keeps :
      (block : Bytes) (fr : Frame) (s : Stream) (c : Connection)
      → IsStream c.max_stream_id s
      → IsConnection c
      → Keeps (decode_headers server block fr s c)
  unfolding decode_headers
  decode_headers-Keeps block fr s c hs h =
      let table = hpack_of server c.hpack in
      decoded-Keeps block fr s c table (decode server.host block table s.request) refl
        (hpack_of-IsValid c.hpack h.0) hs h

  take_block-Keeps :
      (at : Bytes) (fr : Frame) (position pad_length : ℕ) (s : Stream) (c : Connection)
      → IsStream c.max_stream_id s
      → IsConnection c
      → Keeps (take_block server at fr position pad_length s c)
  unfolding take_block
  take_block-Keeps at fr position pad_length s c hs h =
      let size = fr.len - position - pad_length in
      let negative = ltb fr.len (position + pad_length) in
      let block = take size (drop position at) in
      let opened = if is_idle s.state then open_ else s.state in
      let s' = record s { state = if bit fr.flags 1 then half_closed else opened } in
      let c' = with_stream s' c in
      let h' = with_stream-IsConnection s' c hs h in
      let joined = c.headers_buffer ++ block in
      Keeps-if (not (bit fr.flags 4)) _ _ (λ _. Keeps-if negative _ _ (λ _. nothing) (λ _. on h'))
        (λ _.
          Keeps-if (is_empty c.headers_buffer) _ _
            (λ _.
              decode_headers-Keeps block fr s' (record c' { stream_for_continuation = 0 }) hs h')
            (λ _.
              Keeps-if negative _ _ (λ _. nothing)
                (λ _.
                  decode_headers-Keeps joined fr s'
                    (record c' { stream_for_continuation = 0; headers_buffer = joined }) hs h')))

  fresh-IsStream : (id initial m : ℕ) → id ≤ m → IsStream m (new_stream server id initial)
  fresh-IsStream id initial m under = (record { regular = tt; path_leads = λ e. cc }, under)

  known_stream-Keeps :
      (at : Bytes) (fr : Frame) (position pad_length : ℕ) (s : Stream) (c : Connection)
      (o : Option ℕ)
      → IsStream c.max_stream_id s
      → IsConnection c
      → Keeps (elim o [
        | some error ↦ go_away server error c
        | none ↦ take_block server at fr position pad_length s c
      ])
  known_stream-Keeps at fr position pad_length s c (some error) hs h =
      go_away-Keeps server error c h
  known_stream-Keeps at fr position pad_length s c none hs h =
      take_block-Keeps at fr position pad_length s c hs h

  headers_of_stream-Keeps :
      (at : Bytes) (fr : Frame) (position pad_length : ℕ) (c : Connection)
      → IsConnection c
      → Keeps (headers_of_stream server at fr position pad_length c)
  unfolding headers_of_stream
  headers_of_stream-Keeps at fr position pad_length c h =
      let later = record c { max_stream_id = fr.stream_id } in
      Keeps-found fr.stream_id c (find_stream fr.stream_id c.streams) _ _ refl h
        (Keeps-if (leb fr.stream_id c.max_stream_id) _ _ (λ _. go_away-Keeps server 1 c h)
          (λ e.
            take_block-Keeps at fr position pad_length
              (new_stream server fr.stream_id c.settings_initial_window_size) later
              (fresh-IsStream fr.stream_id c.settings_initial_window_size fr.stream_id
                (omega arith))
              (h.0, IsStream-later c.max_stream_id fr.stream_id c.streams (ground arith) h.1, h.2)))
        (λ s hs. known_stream-Keeps at fr position pad_length s c (known_stream server fr s c) hs h)

  pub parse_headers-Keeps :
      (at : Bytes) (fr : Frame) (c : Connection)
      → IsConnection c
      → Keeps (parse_headers server at fr c)
  unfolding parse_headers
  parse_headers-Keeps at fr c h =
      let pad_length = if bit fr.flags 8 then byte_at at else 0 in
      let start = if bit fr.flags 8 then 1 else 0 in
      let position = if bit fr.flags 0x20 then start + 5 else start in
      let away = λ (error : ℕ). go_away-Keeps server error c h in
      Keeps-if (fr.stream_id == 0) _ _ (λ _. away 1)
        (λ _.
          Keeps-if (ltb c.settings_max_frame_size fr.len) _ _ (λ _. away 6)
            (λ _.
              Keeps-if (bit fr.flags 8 && ltb fr.len pad_length) _ _ (λ _. away 1)
                (λ _.
                  Keeps-if (bit fr.flags 0x20 && (fr.stream_id == net_be32 (drop start at))) _ _
                    (λ _. away 1) (λ _. headers_of_stream-Keeps at fr position pad_length c h))))
