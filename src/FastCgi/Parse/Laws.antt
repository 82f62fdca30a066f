-- ===== src/FastCgi/Parse/Laws.antt =====
-- Reads of ProtocolFastCGI::parse of Cutelyst/Server/protocolfastcgi.cpp.
use cutelyst.Common.{
  ℕ, suc, ◌-◌, ◌<◌, ◌≤◌, Bytes, List, [], ◌∷◌, ◌++◌, Bool, true, false, Bool-cases, inl, inr, ltb,
  is_empty, length, drop, All, ◌≡◌, refl, ◌∙◌, arith, take-of-le, drop-of-le, length-append,
}
use cutelyst.Http.Parse.{method_line}
use cutelyst.FastCgi.Packets.{
  processed, Connection, Answer, finished, later, Server, Packet, wsgi_ok, undefined,
  process_packet,
}
use cutelyst.FastCgi.Params.RoundTrip.{encode_pairs}
use cutelyst.FastCgi.Records.{zeros}
use cutelyst.FastCgi.Packets.Written.{record_text}
use cutelyst.FastCgi.Packets.Laws.{Record, params, input, IsRecord, TakesBodies, effect}
use cutelyst.FastCgi.Packets.Whole.{
  texts, total, request_text, begun, effects, begin_body, process_packet-request,
}
use cutelyst.FastCgi.Packets.Padding.{cut_text, process_packet-undefined}
use cutelyst.FastCgi.Parse.{
  emit, closes, reset_data, processing_finished, Turn, goes, leaves, breaks, stalls, answered,
  after_packet, read_turn, Outcome, done, broken, stuck, parse_loop, parse,
}

-- What a last round leaves.
abbrev pub settled : Turn → Outcome
settled (goes c) = done c
settled (leaves c) = done c
settled breaks = broken
settled stalls = stuck

processing_finished-io :
    (connected : Bool) (c : Connection) → (processing_finished connected c).io ≡ c.io
unfolding processing_finished reset_data
processing_finished-io false c = refl
processing_finished-io true c = elim (Bool-cases (closes c.request.header_connection)) [
  | inl e ↦ rw e refl
  | inr e ↦ rw e refl
]

-- A connection at the start of a request, and what the socket has for it.
abbrev pub waiting : Bytes → Connection → Connection
waiting text c = record c {
  io = text;
  is_open = true;
  buffer = [];
  async = false;
  conn_state = method_line;
  pktsize = 0;
}

-- The same with the text read.
abbrev pub filled : Bytes → Connection → Connection
filled text c = record (waiting [] c) { buffer = text; behind = drop (length text) c.behind }

module _ (server : Server) where
  abbrev looped : ℕ → Turn → Outcome
  looped fuel turn = elim turn [
    | goes c' ↦ elim (is_empty c'.io) [ true ↦ done c' | false ↦ parse_loop server fuel c' ]
    | leaves c' ↦ done c'
    | breaks ↦ broken
    | stalls ↦ stuck
  ]

  looped-answered :
      (fuel : ℕ) (a : Answer) (c : Connection)
      → c.io ≡ []
      → looped fuel (answered a c) ≡ settled (answered a c)
  unfolding answered
  looped-answered fuel later c e = refl
  looped-answered fuel (finished connected) c e =
      let nothing : is_empty (processing_finished connected c).io ≡ true =
        rw (processing_finished-io connected c, e) refl in
      rw (nothing, looped) refl

  -- A read that takes all of a text that is there, with nothing read before it.
  read_turn-all :
      (c : Connection) (x : ℕ) (xs : Bytes)
      → server.read_fails c.events ≡ false
      → 8 ≤ length (x ∷ xs)
      → length (x ∷ xs) ≤ server.buffer_size
      → read_turn server (waiting (x ∷ xs) c)
        ≡ after_packet server (process_packet server (suc (length (x ∷ xs))) (filled (x ∷ xs) c))
  unfolding read_turn
  read_turn-all c x xs reads long fits =
      let room : server.buffer_size - 0 ≡ server.buffer_size = omega arith in
      let all = take-of-le server.buffer_size (x ∷ xs) fits in
      let gone = drop-of-le server.buffer_size (x ∷ xs) fits in
      let enough : ltb (length (x ∷ xs)) 8 ≡ false = ground arith in
      rw (reads, read_turn) (rw (room) (rw (all, gone) (rw (enough) refl)))

  parse-all :
      (c : Connection) (x : ℕ) (xs : Bytes) (packet : Packet)
      → server.read_fails c.events ≡ false
      → 8 ≤ length (x ∷ xs)
      → length (x ∷ xs) ≤ server.buffer_size
      → process_packet server (suc (length (x ∷ xs))) (filled (x ∷ xs) c) ≡ packet
      → parse server (waiting (x ∷ xs) c) ≡ looped (length (x ∷ xs)) (after_packet server packet)
  unfolding parse parse_loop
  parse-all c x xs packet reads long fits e =
      let turn = read_turn-all c x xs reads long fits in rw (turn, parse_loop) (rw (e) refl)

length-record_text_le :
    (type_ id : ℕ) (content : Bytes) (pad : ℕ) (rest : Bytes)
    → suc (length rest) ≤ length (record_text type_ id content pad rest)
length-record_text_le type_ id content pad rest =
    omega (arith, length-append {0} content (zeros pad ++ rest), length-append {0} (zeros pad) rest)

length-texts :
    (id : ℕ) (records : List Record) (pad : ℕ) (rest : Bytes)
    → length records < length (texts id records pad rest)
length-texts id [] pad rest = omega arith
length-texts id (params pairs p ∷ records) pad rest = omega (
  arith,
  length-texts id records pad rest,
  length-record_text_le 4 id (encode_pairs pairs []) p (texts id records pad rest),
)
length-texts id (input bytes p ∷ records) pad rest = omega (
  arith,
  length-texts id records pad rest,
  length-record_text_le 5 id bytes p (texts id records pad rest),
)

effects-io :
    (server : Server) (records : List Record) (c : Connection)
    → (effects server records c).io ≡ c.io
effects-io server [] c = refl
effects-io server (params pairs pad ∷ records) c =
    effects-io server records (effect server (params pairs pad) c)
effects-io server (input bytes pad ∷ records) c =
    effects-io server records (effect server (input bytes pad) c)

-- A request that comes whole in one read and fits the buffer: BEGIN_REQUEST, then PARAMS records
-- that hold whole pairs each, which are not empty and whose names are not the beginning of a longer
-- name that the code looks for, and STDIN records that are not empty, each of less than 65536 bytes,
-- in any order and number and with any padding, then the empty STDIN record. Where the sizes that
-- are counted for the pairs stay below the buffer size and 65536 in sum, and the body takes what is
-- written, it is handed to the engine with the pairs of all its PARAMS records, in order, and the
-- contents of its STDIN records, and answered or left to the engine; the buffer is empty then.
pub parse-request :
    (server : Server) (c : Connection) (id : ℕ) (keep_conn : Bool) (records : List Record)
    (last_pad : ℕ)
    → server.read_fails c.events ≡ false
    → id < 0x10000
    → All IsRecord records
    → TakesBodies server
    → total records < server.buffer_size
    → total records < 0x10000
    → length (request_text id keep_conn records last_pad []) ≤ server.buffer_size
    → let text = request_text id keep_conn records last_pad [] in
      let r = effects server records (begun id keep_conn (waiting [] c)) in
      (behind : Bytes) × (parse server (waiting text c)
        ≡ settled (
            answered
              (server.answer r.request r.body)
              (emit (processed r.request r.body) (record r { buffer = []; behind = behind }))))
unfolding after_packet
parse-request server c id keep_conn records last_pad reads hi h takes room small fits =
    let text = request_text id keep_conn records last_pad [] in
    let more = texts id records last_pad [] in
    let c' = waiting [] c in
    let r = effects server records (begun id keep_conn c') in
    let enough : length records < length text = omega (
      arith,
      length-texts id records last_pad [],
      length-record_text_le 1 id (begin_body keep_conn) 0 more,
    ) in
    let (behind, ends) =
      process_packet-request server (length text) id keep_conn records last_pad []
        (drop (length text) c.behind) c' hi h takes (omega arith) (omega arith) enough in
    let handed = record r { buffer = []; behind = behind } in
    let nothing : r.io ≡ [] = effects-io server records (begun id keep_conn c') in
    (
      behind,
      parse-all server c 1 _ (wsgi_ok handed) reads (omega arith) fits ends
          ∙ looped-answered server (length text) (server.answer r.request r.body)
              (emit (processed r.request r.body) handed) nothing,
    )

-- A read that ends between the content of a STDIN record and its padding breaks the read loop.
pub parse-broken :
    (server : Server) (c : Connection) (id : ℕ) (content : Bytes) (pad : ℕ) (part : Bytes)
    → server.read_fails c.events ≡ false
    → TakesBodies server
    → 0 < length content
    → length content < 0x10000
    → length part < pad
    → length (cut_text id content pad part) ≤ server.buffer_size
    → parse server (waiting (cut_text id content pad part) c) ≡ broken
unfolding after_packet
parse-broken server c id content pad part reads takes some_byte hc cut fits =
    let text = cut_text id content pad part in
    parse-all server c 1 _ undefined reads (omega arith) fits (
      process_packet-undefined server (length text) id content pad part
        (drop (length text) c.behind) (waiting [] c) takes some_byte hc cut)
