-- ===== src/FastCgi/Packets/Padding.antt =====
-- A STDIN record of which the padding is still on its way, in processPacket of
-- Cutelyst/Server/protocolfastcgi.cpp.
use cutelyst.Common.{
  ℕ, suc, ◌+◌, ◌-◌, ◌*◌, ◌/◌, ◌%◌, ◌<◌, ◌==◌, Bytes, ◌∷◌, ◌++◌, true, false, some, ltb, length, min,
  ◌≡◌, refl, arith, length-append, take-length-append,
}
use cutelyst.FastCgi.Packets.{
  Connection, Server, wsgi_again, undefined, after_record, content_length, all_length, stdin_record,
  take_record, process_packet,
}
use cutelyst.FastCgi.Packets.Laws.{TakesBodies, body_of, write_body-whole}

-- All of the content, and `part` of `pad` bytes of padding.
abbrev pub cut_text : ℕ → Bytes → ℕ → Bytes → Bytes
cut_text id content pad part =
    1
    ∷ 5
    ∷ (id / 0x100 % 0x100)
    ∷ (id % 0x100)
    ∷ (length content / 0x100 % 0x100)
    ∷ (length content % 0x100)
    ∷ pad
    ∷ 0
    ∷ (content ++ part)

take_record-cut :
    (server : Server) (id : ℕ) (content : Bytes) (pad : ℕ) (part behind : Bytes) (c : Connection)
    → TakesBodies server
    → 0 < length content
    → length content < 0x10000
    → let at = record c { buffer = cut_text id content pad part; behind = behind } in
      take_record server at ≡ wsgi_again (record at { body = some (body_of c.body ++ content) })
unfolding take_record stdin_record
take_record-cut server id content pad part behind c takes some_byte hc =
    let buffer = cut_text id content pad part in
    let at = record c { buffer = buffer; behind = behind } in
    let size = length-append content part in
    let len : content_length buffer ≡ length content = ground arith in
    let more : (length content == 0) ≡ false = ground arith in
    let taken : min (length buffer - 8) (length content) ≡ length content = ground (arith, size) in
    let enough : ltb (length buffer - 8) (length content) ≡ false = ground (arith, size) in
    let written = write_body-whole server content at takes in
    rw (len) (
      rw (more)
        (rw (taken) (rw (take-length-append content part) (rw (written) (rw (enough) refl)))))

-- Where the content of a STDIN record is there and its padding is not, processPacket moves a negative
-- number of bytes.
pub process_packet-undefined :
    (server : Server) (fuel id : ℕ) (content : Bytes) (pad : ℕ) (part behind : Bytes)
    (c : Connection)
    → TakesBodies server
    → 0 < length content
    → length content < 0x10000
    → length part < pad
    → process_packet server
        (suc fuel)
        (record c { buffer = cut_text id content pad part; behind = behind })
      ≡ undefined
unfolding process_packet after_record
process_packet-undefined server fuel id content pad part behind c takes some_byte hc cut =
    let buffer = cut_text id content pad part in
    let here = record c { stream_id = id % 0x100 + id / 0x100 % 0x100 * 0x100 } in
    let size = length-append content part in
    let long : ltb (length buffer) 8 ≡ false = ground (arith, size) in
    let short : ltb (length buffer) (all_length buffer) ≡ true = ground (arith, size) in
    let taken = take_record-cut server id content pad part behind here takes some_byte hc in
    rw (long, process_packet) (rw (taken) (rw (short) refl))
