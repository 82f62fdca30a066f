-- ===== src/FastCgi/Packets/Whole.antt =====
-- A request that comes whole, from its BEGIN_REQUEST to the end of its input, through processPacket of
-- Cutelyst/Server/protocolfastcgi.cpp.
use cutelyst.Common.{
  ℕ, zero, suc, ◌+◌, ◌<◌, Bytes, List, [], ◌∷◌, Bool, true, false, if◌then◌else◌, length, All, ◌≡◌,
  refl, ◌∙◌, arith,
}
use cutelyst.Common.Int.{negsuc}
use cutelyst.Http.Requests.{keep, close}
use cutelyst.Http.Parse.{method_line}
use cutelyst.FastCgi.Params.RoundTrip.{encode_pairs}
use cutelyst.FastCgi.Packets.{
  Connection, Server, Packet, wsgi_ok, wsgi_again, after_record, begin_request, other_record,
  take_record, process_packet,
}
use cutelyst.FastCgi.Packets.Written.{record_text, shift-record_text, process_packet-record}
use cutelyst.FastCgi.Packets.Laws.{
  Record, params, input, text_of, cost_of, IsRecord, TakesBodies, effect, take_record-params,
  take_record-input, process_packet-step, note_pairs-pktsize, length-encode_pairs,
}

-- The records of a request, and the empty STDIN record that ends it.
abbrev pub texts : ℕ → List Record → ℕ → Bytes → Bytes
texts id [] last_pad rest = record_text 5 id [] last_pad rest
texts id (r ∷ records) last_pad rest = text_of id r (texts id records last_pad rest)

abbrev pub total : List Record → ℕ
total [] = 0
total (r ∷ records) = cost_of r + total records

-- The content of a BEGIN_REQUEST record of a responder.
abbrev pub begin_body : Bool → Bytes
begin_body keep_conn = 0 ∷ 1 ∷ (if keep_conn then 1 else 0) ∷ 0 ∷ 0 ∷ 0 ∷ 0 ∷ 0 ∷ []

abbrev pub request_text : ℕ → Bool → List Record → ℕ → Bytes → Bytes
request_text id keep_conn records last_pad rest =
    record_text 1 id (begin_body keep_conn) 0 (texts id records last_pad rest)

-- The connection when a request begins.
abbrev pub begun : ℕ → Bool → Connection → Connection
begun id keep_conn c = record c {
  stream_id = id;
  conn_state = method_line;
  request = record c.request {
    header_connection = if keep_conn then keep else close;
    content_length = negsuc 0;
    headers = [];
  };
}

module _ (server : Server) where
  abbrev pub effects : List Record → Connection → Connection
  effects [] c = c
  effects (r ∷ records) c = effects records (effect server r c)

  -- What is left when processPacket returns: the bytes behind the request.
  abbrev pub Ends : Packet → Connection → Bytes → Type 0
  Ends packet c rest =
      (behind : Bytes) × (packet ≡ wsgi_ok (record c { buffer = rest; behind = behind }))

  take_record-last :
      (id last_pad : ℕ) (rest behind : Bytes) (c : Connection)
      → let at = record c { buffer = texts id [] last_pad rest; behind = behind } in
        take_record server at ≡ wsgi_ok at
  unfolding take_record
  take_record-last id last_pad rest behind c = refl

  process_packet-last :
      (fuel id last_pad : ℕ) (rest behind : Bytes) (c : Connection)
      → id < 0x10000
      → Ends
          (process_packet server
            (suc fuel)
            (record c { buffer = texts id [] last_pad rest; behind = behind }))
          (record c { stream_id = id })
          rest
  unfolding after_record
  process_packet-last fuel id last_pad rest behind c hi =
      let last = take_record-last id last_pad rest behind (record c { stream_id = id }) in
      let round =
        process_packet-record server fuel 5 id [] last_pad rest behind c _ hi (omega arith) last in
      let (behind', moved_away) =
        shift-record_text 5 id [] last_pad rest behind (record c { stream_id = id })
          (omega arith) in
      (behind', round ∙ rw (moved_away) refl)

  process_packet-records :
      (fuel id : ℕ) (records : List Record) (last_pad : ℕ) (rest behind : Bytes) (c : Connection)
      → id < 0x10000
      → All IsRecord records
      → TakesBodies server
      → c.pktsize + total records < server.buffer_size
      → c.pktsize + total records < 0x10000
      → length records < fuel
      → Ends
          (process_packet server fuel
            (record c { buffer = texts id records last_pad rest; behind = behind }))
          (effects records (record c { stream_id = id }))
          rest
  process_packet-records zero id records last_pad rest behind c hi h takes room small enough =
      absurd (omega arith)
  process_packet-records (suc fuel) id [] last_pad rest behind c hi h takes room small enough =
      process_packet-last fuel id last_pad rest behind c hi
  process_packet-records (suc fuel) id (params pairs pad ∷ records) last_pad rest behind c hi
        (hr, h) takes room small enough =
      let more = texts id records last_pad rest in
      let c' = record c { stream_id = id } in
      let d = effect server (params pairs pad) c' in
      let (behind', one) =
        process_packet-step server fuel 4 id (encode_pairs pairs []) pad more behind c d hi
          (omega (arith, length-encode_pairs pairs, hr.1))
          (take_record-params server id pairs pad more behind c' hr (omega arith) (omega arith)) in
      let size =
        note_pairs-pktsize server.qt pairs (record { head = c.request; pktsize = c.pktsize }) in
      let (last, ends) =
        process_packet-records fuel id records last_pad rest behind' d hi h takes
          (omega (arith, size)) (omega (arith, size)) (omega arith) in
      (last, one ∙ ends)
  process_packet-records (suc fuel) id (input bytes pad ∷ records) last_pad rest behind c hi (hr, h)
        takes room small enough =
      let more = texts id records last_pad rest in
      let c' = record c { stream_id = id } in
      let d = effect server (input bytes pad) c' in
      let (behind', one) =
        process_packet-step server fuel 5 id bytes pad more behind c d hi hr.1
          (take_record-input server id bytes pad more behind c' hr takes) in
      let (last, ends) =
        process_packet-records fuel id records last_pad rest behind' d hi h takes (omega arith)
          (omega arith) (omega arith) in
      (last, one ∙ ends)

  take_record-begin :
      (id : ℕ) (keep_conn : Bool) (rest behind : Bytes) (c : Connection)
      → let buffer = record_text 1 id (begin_body keep_conn) 0 rest in
        take_record server (record c { buffer = buffer; behind = behind; stream_id = id })
        ≡ wsgi_again (record (begun id keep_conn c) { buffer = buffer; behind = behind })
  unfolding take_record other_record begin_request
  take_record-begin id true rest behind c = refl
  take_record-begin id false rest behind c = refl

-- A request that comes whole is read to its end, whatever the padding of its records and however its
-- parameters and its body are cut into records: it has the connection that was asked for, each of
-- its parameters noted in their order, and the pieces of the body one behind the other. The bytes
-- behind it stay in the buffer.
pub process_packet-request :
    (server : Server) (fuel id : ℕ) (keep_conn : Bool) (records : List Record) (last_pad : ℕ)
    (rest behind : Bytes) (c : Connection)
    → id < 0x10000
    → All IsRecord records
    → TakesBodies server
    → c.pktsize + total records < server.buffer_size
    → c.pktsize + total records < 0x10000
    → length records < fuel
    → Ends server
        (process_packet server
          (suc fuel)
          (record c { buffer = request_text id keep_conn records last_pad rest; behind = behind }))
        (effects server records (begun id keep_conn c))
        rest
process_packet-request server fuel id keep_conn records last_pad rest behind c hi h takes room small
      enough =
    let more = texts id records last_pad rest in
    let d = begun id keep_conn c in
    let (behind', one) =
      process_packet-step server fuel 1 id (begin_body keep_conn) 0 more behind c d hi (omega arith)
        (take_record-begin server id keep_conn more behind c) in
    let (last, ends) =
      process_packet-records server fuel id records last_pad rest behind' d hi h takes room small
        enough in
    (last, one ∙ ends)
