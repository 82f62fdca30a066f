-- ===== src/FastCgi/Packets/Written.antt =====
-- The records of a request that a web server writes, after the FastCGI specification, and the steps of
-- processPacket of Cutelyst/Server/protocolfastcgi.cpp on them.
use cutelyst.Common.{
  ℕ, suc, ◌+◌, ◌-◌, ◌*◌, ◌/◌, ◌%◌, ◌<◌, Bytes, ◌∷◌, ◌++◌, false, ltb, some, drop, length, ◌≡◌, refl,
  sym, ap, ◌∙◌, arith, append_assoc, length-append, drop-length-append,
}
use cutelyst.FastCgi.Packets.{
  Connection, Server, Packet, shift, waits, after_record, content_length, all_length, take_record,
  process_packet,
}
use cutelyst.FastCgi.Records.{zeros}
use cutelyst.FastCgi.Records.Laws.{length-zeros}

-- A record with its padding, in front of `rest`.
abbrev pub record_text : ℕ → ℕ → Bytes → ℕ → Bytes → Bytes
record_text type_ id content pad rest =
    1
    ∷ type_
    ∷ (id / 0x100 % 0x100)
    ∷ (id % 0x100)
    ∷ (length content / 0x100 % 0x100)
    ∷ (length content % 0x100)
    ∷ pad
    ∷ 0
    ∷ (content ++ (zeros pad ++ rest))

pub content_length-record_text :
    (type_ id : ℕ) (content : Bytes) (pad : ℕ) (rest : Bytes)
    → length content < 0x10000
    → content_length (record_text type_ id content pad rest) ≡ length content
content_length-record_text type_ id content pad rest h = ground arith

length-record_text :
    (type_ id : ℕ) (content : Bytes) (pad : ℕ) (rest : Bytes)
    → length (record_text type_ id content pad rest) ≡ 8 + (length content + (pad + length rest))
length-record_text type_ id content pad rest = omega (
  arith,
  length-append {0} content (zeros pad ++ rest),
  length-append {0} (zeros pad) rest,
  length-zeros pad,
)

drop-eight :
    (n a b c d e f g h : ℕ) (xs : Bytes)
    → drop (8 + n) (a ∷ b ∷ c ∷ d ∷ e ∷ f ∷ g ∷ h ∷ xs) ≡ drop n xs
drop-eight n a b c d e f g h xs =
    let at : 8 + n ≡ suc (suc (suc (suc (suc (suc (suc (suc n))))))) = omega arith in rw at refl

drop-record_text :
    (type_ id : ℕ) (content : Bytes) (pad : ℕ) (rest : Bytes)
    → drop (8 + length content + pad) (record_text type_ id content pad rest) ≡ rest
drop-record_text type_ id content pad rest =
    let filled : length (content ++ zeros pad) ≡ length content + pad =
      omega (arith, length-append {0} content (zeros pad), length-zeros pad) in
    let at : 8 + length content + pad ≡ 8 + (length content + pad) = omega arith in
    let split : content ++ (zeros pad ++ rest) ≡ (content ++ zeros pad) ++ rest =
      sym (append_assoc content (zeros pad) rest) in
    rw at (
      drop-eight (length content + pad) 1 type_ _ _ _ _ pad 0 (content ++ (zeros pad ++ rest))
      ∙ rw (split) (rw (← filled) (drop-length-append (content ++ zeros pad) rest)))

pub shift-record_text :
    (type_ id : ℕ) (content : Bytes) (pad : ℕ) (rest behind : Bytes) (d : Connection)
    → length content < 0x10000
    → let buffer = record_text type_ id content pad rest in
      (behind' : Bytes) × (shift (all_length buffer) (record d { buffer = buffer; behind = behind })
        ≡ some (record d { buffer = rest; behind = behind' }))
shift-record_text type_ id content pad rest behind d hc =
    let buffer = record_text type_ id content pad rest in
    let all : all_length buffer ≡ 8 + length content + pad =
      ap (λ (n : ℕ). 8 + n + pad) (content_length-record_text type_ id content pad rest hc) in
    let size = length-record_text type_ id content pad rest in
    let inside : ltb (length buffer) (8 + length content + pad) ≡ false = ground (arith, size) in
    (
      drop (length buffer - (8 + length content + pad)) buffer ++ behind,
      rw (all) (rw (inside) (rw (drop-record_text type_ id content pad rest) refl)),
    )

module _ (server : Server) where
  -- A round over a whole record: what `take_record` leaves, with the record moved away.
  pub process_packet-record :
      (fuel type_ id : ℕ) (content : Bytes) (pad : ℕ) (rest behind : Bytes) (c : Connection)
      (r : Packet)
      → id < 0x10000
      → length content < 0x10000
      → let buffer = record_text type_ id content pad rest in
        take_record server (record c { buffer = buffer; behind = behind; stream_id = id }) ≡ r
        → process_packet server (suc fuel) (record c { buffer = buffer; behind = behind })
          ≡ after_record (all_length buffer) (λ d. process_packet server fuel d) r
  unfolding process_packet
  process_packet-record fuel type_ id content pad rest behind c r hi hc e =
      let buffer = record_text type_ id content pad rest in
      let len = content_length-record_text type_ id content pad rest hc in
      let size = length-record_text type_ id content pad rest in
      let id_is : id % 0x100 + id / 0x100 % 0x100 * 0x100 ≡ id = omega arith in
      let long : ltb (length buffer) 8 ≡ false = ground (arith, size) in
      let complete : waits buffer ≡ false = ground (arith, size, len) in
      rw (long, process_packet) (rw (complete) (rw (id_is) (rw e refl)))
