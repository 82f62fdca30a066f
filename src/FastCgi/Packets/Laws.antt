-- ===== src/FastCgi/Packets/Laws.antt =====
-- A request that a web server writes, through processPacket of Cutelyst/Server/protocolfastcgi.cpp.
use cutelyst.Common.{
  ℕ, suc, ◌+◌, ◌-◌, ◌<◌, ◌==◌, Bytes, List, [], ◌∷◌, ◌++◌, true, false, ltb, Option, none, some,
  length, min, All, ◌≡◌, refl, ap, ◌∙◌, arith, append_assoc, take-of-le, length-append,
  take-length-append,
}
use cutelyst.Common.Int.{ℤ}
use cutelyst.FastCgi.Params.{Readers, Params, note_param}
use cutelyst.FastCgi.Params.Lengths.{encode_length, length-encode_length}
use cutelyst.FastCgi.Params.RoundTrip.{
  encode_pairs, cost, size_of, IsPair, note_pairs, parse_headers-encode_pairs,
}
use cutelyst.FastCgi.Packets.{
  Connection, Server, wsgi_again, after_record, content_length, write_body, opened, other_record,
  stdin_record, take_record, process_packet,
}
use cutelyst.FastCgi.Records.{zeros}
use cutelyst.FastCgi.Packets.Written.{
  record_text, content_length-record_text, shift-record_text, process_packet-record,
}

encode_pairs-append :
    (pairs : List (Bytes × Bytes)) (rest more : Bytes)
    → encode_pairs pairs rest ++ more ≡ encode_pairs pairs (rest ++ more)
encode_pairs-append [] rest more = refl
encode_pairs-append ((key, value) ∷ pairs) rest more =
    let k = encode_length (length key) in
    let v = encode_length (length value) in
    let tail = encode_pairs pairs rest in
    append_assoc k (v ++ (key ++ (value ++ tail))) more
    ∙ ap (λ (t : Bytes). k ++ t)
        (append_assoc v (key ++ (value ++ tail)) more
          ∙ ap (λ (t : Bytes). v ++ t)
              (append_assoc key (value ++ tail) more
                ∙ ap (λ (t : Bytes). key ++ t)
                    (append_assoc value tail more
                      ∙ ap (λ (t : Bytes). value ++ t) (encode_pairs-append pairs rest more))))

pub length-encode_pairs :
    (pairs : List (Bytes × Bytes)) → length (encode_pairs pairs []) ≡ size_of pairs
length-encode_pairs [] = refl
length-encode_pairs ((key, value) ∷ pairs) =
    let k = encode_length (length key) in
    let v = encode_length (length value) in
    let tail = encode_pairs pairs [] in
    omega (
      arith,
      length-append {0} k (v ++ (key ++ (value ++ tail))),
      length-append {0} v (key ++ (value ++ tail)),
      length-append {0} key (value ++ tail),
      length-append {0} value tail,
      length-encode_pairs pairs,
      length-encode_length (length key),
      length-encode_length (length value),
    )

-- What a web server sends of a request after its BEGIN_REQUEST: parameters and pieces of the body.
pub data Record : Type 0 where
  params : List (Bytes × Bytes) → ℕ → Record
  input : Bytes → ℕ → Record

abbrev pub text_of : ℕ → Record → Bytes → Bytes
text_of id (params pairs pad) rest = record_text 4 id (encode_pairs pairs []) pad rest
text_of id (input bytes pad) rest = record_text 5 id bytes pad rest

abbrev pub cost_of : Record → ℕ
cost_of (params pairs pad) = cost pairs
cost_of (input bytes pad) = 0

abbrev pub IsRecord : Record → Type 0
IsRecord (params pairs pad) = All IsPair pairs × (size_of pairs < 0x10000)
IsRecord (input bytes pad) = (0 < length bytes) × (length bytes < 0x10000)

-- Bodies can be made, and take what is written.
abbrev pub TakesBodies : Server → Type 0
TakesBodies server =
    ((n : ℤ) → server.can_create_body n ≡ true)
    × ((body : Bytes) (n : ℕ) → server.body_takes body n ≡ n)

abbrev pub body_of : Option Bytes → Bytes
body_of none = []
body_of (some body) = body

opened-body :
    (server : Server) (c : Connection) (b : Option Bytes)
    → TakesBodies server
    → c.body ≡ b
    → opened server c ≡ some (body_of b)
opened-body server c none (made, takes) e = rw (e, opened) (rw (made c.request.content_length) refl)
opened-body server c (some body) (made, takes) e = rw (e, opened) refl

pub note_pairs-pktsize :
    (qt : Readers) (pairs : List (Bytes × Bytes)) (p : Params)
    → (note_pairs qt pairs p).pktsize ≡ p.pktsize + cost pairs
note_pairs-pktsize qt [] p = omega arith
note_pairs-pktsize qt ((key, value) ∷ pairs) p = omega (
  arith,
  note_pairs-pktsize qt pairs (record {
    head = note_param qt key (length key) value p.head;
    pktsize = p.pktsize + (length key + length value + 4);
  }),
)

module _ (server : Server) where
  -- The request after a record.
  abbrev pub effect : Record → Connection → Connection
  effect (params pairs pad) c =
      let p = note_pairs server.qt pairs (record { head = c.request; pktsize = c.pktsize }) in
      record c { request = p.head; pktsize = p.pktsize }
  effect (input bytes pad) c = record c { body = some (body_of c.body ++ bytes) }

  pub take_record-params :
      (id : ℕ) (pairs : List (Bytes × Bytes)) (pad : ℕ) (rest behind : Bytes) (c : Connection)
      → IsRecord (params pairs pad)
      → c.pktsize + cost pairs < server.buffer_size
      → c.pktsize + cost pairs < 0x10000
      → let at = record c { buffer = text_of id (params pairs pad) rest; behind = behind } in
        take_record server at ≡ wsgi_again (effect (params pairs pad) at)
  unfolding take_record other_record
  take_record-params id pairs pad rest behind c (hp, hs) room small =
      let content = encode_pairs pairs [] in
      let filled = zeros pad ++ rest in
      let size = length-encode_pairs pairs in
      let len : content_length (record_text 4 id content pad rest) ≡ size_of pairs =
        content_length-record_text 4 id content pad rest (omega (arith, size)) ∙ size in
      let memory : (content ++ filled) ++ behind ≡ encode_pairs pairs (filled ++ behind) =
        append_assoc content filled behind ∙ encode_pairs-append pairs [] (filled ++ behind) in
      let read =
        parse_headers-encode_pairs server.qt server.buffer_size pairs (filled ++ behind)
          (record { head = c.request; pktsize = c.pktsize }) hp hs room small in
      rw (len) (rw (memory) (rw (read) refl))

  pub write_body-whole :
      (bytes : Bytes) (c : Connection)
      → TakesBodies server
      → write_body server bytes c ≡ (record c { body = some (body_of c.body ++ bytes) }, true)
  unfolding write_body
  write_body-whole bytes c (made, takes) =
      let body = body_of c.body in
      let open_ = opened-body server c c.body (made, takes) refl in
      let all = takes body (length bytes) in
      let same : (length bytes == length bytes) ≡ true = ground arith in
      rw (open_, write_body)
        (rw (all) (rw (take-of-le (length bytes) bytes (omega arith), same) refl))

  pub take_record-input :
      (id : ℕ) (bytes : Bytes) (pad : ℕ) (rest behind : Bytes) (c : Connection)
      → IsRecord (input bytes pad)
      → TakesBodies server
      → let at = record c { buffer = text_of id (input bytes pad) rest; behind = behind } in
        take_record server at ≡ wsgi_again (effect (input bytes pad) at)
  unfolding take_record stdin_record
  take_record-input id bytes pad rest behind c (some_byte, hb) takes =
      let at = record c { buffer = text_of id (input bytes pad) rest; behind = behind } in
      let len : content_length (record_text 5 id bytes pad rest) ≡ length bytes =
        content_length-record_text 5 id bytes pad rest hb in
      let filled = zeros pad ++ rest in
      let taken : min (length (record_text 5 id bytes pad rest) - 8) (length bytes) ≡ length bytes =
        ground (arith, length-append bytes filled) in
      let enough : ltb (length (record_text 5 id bytes pad rest) - 8) (length bytes) ≡ false =
        ground (arith, length-append bytes filled) in
      let more : (length bytes == 0) ≡ false = ground arith in
      rw (len) (
        rw (more) (
          rw (taken) (
            rw (take-length-append bytes filled)
              (rw (write_body-whole bytes at takes) (rw (enough) refl)))))

  -- A whole record is worked on and moved away.
  pub process_packet-step :
      (fuel type_ id : ℕ) (content : Bytes) (pad : ℕ) (rest behind : Bytes) (c d : Connection)
      → id < 0x10000
      → length content < 0x10000
      → let buffer = record_text type_ id content pad rest in
        take_record server (record c { buffer = buffer; behind = behind; stream_id = id })
          ≡ wsgi_again (record d { buffer = buffer; behind = behind })
        → (behind' : Bytes) × (process_packet server
              (suc fuel)
              (record c { buffer = buffer; behind = behind })
            ≡ process_packet server fuel (record d { buffer = rest; behind = behind' }))
  unfolding after_record
  process_packet-step fuel type_ id content pad rest behind c d hi hc e =
      let round = process_packet-record server fuel type_ id content pad rest behind c _ hi hc e in
      let (behind', moved_away) = shift-record_text type_ id content pad rest behind d hc in
      (behind', round ∙ rw (moved_away) refl)
