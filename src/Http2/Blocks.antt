-- ===== src/Http2/Blocks.antt =====
-- Header blocks: parseHeaders of Cutelyst/Server/protocolhttp2.cpp.
pub mod Laws
use cutelyst.Common.{
  ℕ, ◌+◌, ◌-◌, ◌==◌, Bytes, [], ◌++◌, false, not, ◌&&◌, ◌||◌, if◌then◌else◌, ltb, leb, take, drop,
  is_empty, Option, none, some,
}
use cutelyst.Common.Int.{pos, negsuc}
use cutelyst.FastCgi.Params.{byte_at}
use cutelyst.Hpack.Table.{HPack, new_hpack}
use cutelyst.Hpack.Decoder.{H2Stream, returned, decode}
use cutelyst.Http2.Frames.{idle, open_, half_closed, Stream, Frame, Connection}
use cutelyst.Http2.Streams.{
  Server, Handled, handled, undefined, bit, net_be32, find_stream, with_stream, is_idle, is_open,
  is_half_closed, is_closed, queue_stream, go_away,
}

module _ (server : Server) where
  abbrev new_request : H2Stream
  new_request = record {
    path = [];
    query = [];
    method = [];
    scheme = [];
    server_address = server.server_address;
    is_secure = server.is_secure;
    got_path = false;
    content_length = negsuc 0;
    headers = [];
  }

  abbrev new_stream : ℕ → ℕ → Stream
  new_stream id initial_window_size = record {
    stream_id = id;
    window_size = pos initial_window_size;
    consumed_data = 0;
    state = idle;
    body = none;
    request = new_request;
  }

  -- The decoder is made where there is none.
  pub hpack_of : Option HPack → HPack
  hpack_of none = new_hpack server.header_table_size
  hpack_of (some h) = h

  -- The end of parseHeaders: the block is decoded, and the stream queued.
  pub decode_headers : Bytes → Frame → Stream → Connection → Handled
  decode_headers block fr s c = elim (decode server.host block (hpack_of c.hpack) s.request) [
    | returned code d ↦
        let s' = record s { request = d.stream } in
        let c' = with_stream s' (record c { hpack = some d.hpack }) in
        if not (code == 0)
        then go_away server code c'
        else if is_half_closed s.state || bit fr.flags 1
        then handled (queue_stream s' c')
        else handled c'
    | _ ↦ undefined
  ]

  -- A stream's headers, with `position` bytes in front of the block. An append with a negative length
  -- runs on to a zero byte that need not be in the buffer, and is `undefined`; a block with a negative
  -- length is decoded as an empty one.
  pub take_block : Bytes → Frame → ℕ → ℕ → Stream → Connection → Handled
  take_block at fr position pad_length s c =
      let size = fr.len - position - pad_length in
      let negative = ltb fr.len (position + pad_length) in
      let block = take size (drop position at) in
      let opened = if is_idle s.state then open_ else s.state in
      let s' = record s { state = if bit fr.flags 1 then half_closed else opened } in
      let c' = with_stream s' c in
      let joined = c.headers_buffer ++ block in
      if not (bit fr.flags 4)
      then (if negative
          then undefined
          else handled
              (record c' { stream_for_continuation = fr.stream_id; headers_buffer = joined }))
      else if is_empty c.headers_buffer
      then decode_headers block fr s' (record c' { stream_for_continuation = 0 })
      else if negative
      then undefined
      else decode_headers joined fr s'
          (record c' { stream_for_continuation = 0; headers_buffer = joined })

  -- The checks of a stream that is there.
  pub known_stream : Frame → Stream → Connection → Option ℕ
  known_stream fr s c =
      if not (bit fr.flags 1) && is_open s.state && c.stream_for_continuation == 0
      then some 1
      else if is_half_closed s.state && c.stream_for_continuation == 0
      then some 5
      else if is_closed s.state
      then some 5
      else none

  pub headers_of_stream : Bytes → Frame → ℕ → ℕ → Connection → Handled
  headers_of_stream at fr position pad_length c = elim (find_stream fr.stream_id c.streams) [
    | some s ↦ elim (known_stream fr s c) [
      | some error ↦ go_away server error c
      | none ↦ take_block at fr position pad_length s c
    ]
    | none ↦
        if leb fr.stream_id c.max_stream_id
        then go_away server 1 c
        else take_block at fr position pad_length
            (new_stream fr.stream_id c.settings_initial_window_size)
            (record c { max_stream_id = fr.stream_id })
  ]

  -- parseHeaders.
  pub parse_headers : Bytes → Frame → Connection → Handled
  parse_headers at fr c =
      let pad_length = if bit fr.flags 8 then byte_at at else 0 in
      let start = if bit fr.flags 8 then 1 else 0 in
      let position = if bit fr.flags 0x20 then start + 5 else start in
      if fr.stream_id == 0
      then go_away server 1 c
      else if ltb c.settings_max_frame_size fr.len
      then go_away server 6 c
      else if bit fr.flags 8 && ltb fr.len pad_length
      then go_away server 1 c
      else if bit fr.flags 0x20 && fr.stream_id == net_be32 (drop start at)
      then go_away server 1 c
      else headers_of_stream at fr position pad_length c
