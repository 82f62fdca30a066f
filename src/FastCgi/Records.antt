-- ===== src/FastCgi/Records.antt =====
-- The records that Cutelyst/Server/protocolfastcgi.cpp writes: ProtoRequestFastCGI::doWrite,
-- writeHeaders and the record that ends a request.
pub mod Laws
use cutelyst.Common.{
  ℕ, zero, suc, ◌+◌, ◌-◌, ◌*◌, ◌/◌, ◌%◌, ◌==◌, Bytes, [], ◌∷◌, ◌++◌, Bool, true, false, ◌||◌,
  if◌then◌else◌, ltb, Option, none, some, take, drop, length, codes, same_key,
}
use cutelyst.Hpack.Encoder.{number}
use cutelyst.Headers.{Headers}

-- FCGI_ALIGN.
abbrev pub align : ℕ → ℕ
align n = (n + 7) / 8 * 8

-- The padding of a record; the aligned length is kept in 16 bits.
pub padding_of : ℕ → ℕ
padding_of fcgi_len =
    let padded_len = align fcgi_len % 0x10000 in
    if ltb fcgi_len padded_len then (padded_len - fcgi_len) % 0x100 else 0

abbrev pub zeros : ℕ → Bytes
zeros zero = []
zeros (suc n) = 0 ∷ zeros n

-- The fcgi_record in front of `fcgi_len` bytes of output.
pub stdout_header : ℕ → ℕ → Bytes
unfolding padding_of
stdout_header stream_id fcgi_len =
    1
    ∷ 6
    ∷ (stream_id / 0x100 % 0x100)
    ∷ (stream_id % 0x100)
    ∷ (fcgi_len / 0x100 % 0x100)
    ∷ (fcgi_len % 0x100)
    ∷ padding_of fcgi_len
    ∷ 0
    ∷ []

-- What the socket takes of a write, given what was written before; `none` is a negative result.
abbrev pub Takes : Type 0
Takes = Bytes → Bytes → Option ℕ

-- The socket's bytes after a write, and how many were taken.
abbrev pub io_write : Takes → Bytes → Bytes → Bytes × Option ℕ
io_write takes out bytes = elim (takes out bytes) [
  | none ↦ (out, none)
  | some n ↦ (out ++ take n bytes, some n)
]

-- How doWrite ends: with the number of bytes written, or with -1.
pub data Wrote : Type 0 where
  wrote : Bytes → ℕ → Wrote
  failed : Bytes → Wrote
  out_of_fuel : Wrote

abbrev whole : Option ℕ → ℕ → Bool
whole none n = false
whole (some m) n = m == n

-- The state of the loop: the bytes that the socket took, `data + write_pos`, `write_pos` and
-- `proto_parser_status`.
pub record Writing : Type 0 where
  pub out : Bytes
  pub rest : Bytes
  pub write_pos : ℕ
  pub status : ℕ

-- The header of a new record; false where it was not written whole.
pub open_record : Takes → ℕ → Writing → Writing × ℕ × Bool
unfolding stdout_header
open_record takes stream_id w =
    if w.status == 0
    then (let fcgi_len = if ltb (length w.rest) 0xffff then length w.rest else 0xffff in
        let (out, n) = io_write takes w.out (stdout_header stream_id fcgi_len) in
        (record w { out = out; status = fcgi_len }, padding_of fcgi_len, whole n 8))
    else (w, 0, true)

-- The content and the padding; true where the loop goes on.
pub write_content : Takes → ℕ → Writing → Writing × Option ℕ
write_content takes pad w =
    let (out, wlen) = io_write takes w.out (take w.status w.rest) in
    let (out', _) = io_write takes out (zeros pad) in
    (record w { out = if pad == 0 then out else out' }, wlen)

-- Whether the loop goes on behind a round.
pub data Round : Type 0 where
  goes : Writing → Round
  stops : Wrote → Round

-- What the loop makes of `wlen`.
pub after_content : Writing × Option ℕ → Round
after_content (w, none) = stops (failed w.out)
after_content (w, some zero) = stops (failed w.out)
after_content (w, some (suc m)) =
    let next = record w {
      rest = drop (suc m) w.rest;
      write_pos = w.write_pos + suc m;
      status = w.status - suc m;
    } in
    if length next.rest == 0 then stops (wrote next.out next.write_pos) else goes next

pub after_header : Takes → Writing × ℕ × Bool → Round
after_header takes (w, pad, false) = stops (failed w.out)
after_header takes (w, pad, true) = after_content (write_content takes pad w)

pub write_loop : ℕ → Takes → ℕ → Writing → Wrote
write_loop zero takes stream_id w = out_of_fuel
write_loop (suc fuel) takes stream_id w =
    elim (after_header takes (open_record takes stream_id w)) [
      | stops result ↦ result
      | goes next ↦ write_loop fuel takes stream_id next
    ]

-- doWrite; every round but the last writes a byte at least.
pub do_write : Takes → ℕ → Bytes → Bytes → Wrote
do_write takes stream_id bytes out =
    write_loop (suc (length bytes)) takes stream_id
      (record { out = out; rest = bytes; write_pos = 0; status = 0 })

-- The fields of writeHeaders, and whether a `Date` was among them.
pub write_fields : Headers → Bytes → Bool → Bytes × Bool
write_fields [] text has_date = (text, has_date)
write_fields ((key, value) ∷ headers) text has_date =
    write_fields headers (text ++ (codes "\r\n" ++ (key ++ (codes ": " ++ value))))
      (has_date || same_key key (codes "Date"))

-- writeHeaders: the text handed to doWrite; `last_date` is the server's line for the date.
pub header_text : Bytes → ℕ → Headers → Bytes
unfolding write_fields
header_text last_date status headers =
    let (text, has_date) = write_fields headers (codes "Status: " ++ number status) false in
    (if has_date then text else text ++ last_date) ++ codes "\r\n\r\n"

abbrev succeeded : Wrote → Bool
succeeded (wrote _ _) = true
succeeded _ = false

pub write_headers : Takes → ℕ → Bytes → ℕ → Headers → Bytes → Wrote × Bool
unfolding header_text do_write
write_headers takes stream_id last_date status headers out =
    let result = do_write takes stream_id (header_text last_date status headers) out in
    (result, succeeded result)

-- The bytes with which processingFinished ends a request: an empty STDOUT record and END_REQUEST.
pub end_request : ℕ → Bytes
end_request stream_id =
    let high = stream_id / 0x100 % 0x100 in
    let low = stream_id % 0x100 in
    (1 ∷ 6 ∷ high ∷ low ∷ 0 ∷ 0 ∷ 0 ∷ 0 ∷ [])
    ++ (1 ∷ 3 ∷ high ∷ low ∷ 0 ∷ 8 ∷ 0 ∷ 0 ∷ 0 ∷ 0 ∷ 0 ∷ 0 ∷ 0 ∷ 0 ∷ 0 ∷ 0 ∷ [])
