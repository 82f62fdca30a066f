-- ===== src/Hpack/Decoder.antt =====
-- HPack::decode and the functions that it calls for a field: Cutelyst/Server/hpack.cpp, with the
-- members of H2Stream (Cutelyst/Server/protocolhttp2.h) that they write.
pub mod Steps
pub mod Runs
pub mod Invariants
pub mod PseudoHeaders
mod Tests
use cutelyst.Common.{ℕ, zero, suc, ◌-◌, ◌/◌, ◌%◌, ltb, ◌==◌, if◌then◌else◌, not, ◌&&◌, ◌||◌}
use cutelyst.Common.{
  Bytes, List, [], ◌∷◌, ◌++◌, length, drop, take, get_elem?, is_empty, Bool, true,
}
use cutelyst.Common.{false, Option, none, some, codes, bytes_eq, starts_with_byte, index_of}
use cutelyst.Common.Int.{ℤ}
use cutelyst.EngineRequest.{set_path}
use cutelyst.Hpack.Integer.{Read, decode_uint}
use cutelyst.Hpack.Strings.{HuffDecode, parse_string, parse_string_key}
use cutelyst.Hpack.Table.{HPack, update_size, add_entry}
use cutelyst.Hpack.Tables.{static_headers}

-- The members of H2Stream and of its base EngineRequest that decoding writes.
pub record H2Stream : Type 0 where
  pub path : Bytes
  pub query : Bytes
  pub method : Bytes
  pub scheme : Bytes
  pub server_address : Bytes
  pub is_secure : Bool
  pub got_path : Bool
  pub content_length : ℤ
  pub headers : List (Bytes × Bytes)

-- What the code takes from elsewhere: nghttp2's Huffman automaton, QString::fromUtf8 and
-- QByteArray::toLongLong.
pub record Host : Type 0 where
  pub table : ℕ → ℕ → HuffDecode
  pub from_utf8 : Bytes → Bytes
  pub to_long_long : Bytes → ℤ

-- The number of slashes in front.
pub leading_slashes : Bytes → ℕ
leading_slashes [] = 0
leading_slashes (c ∷ v) = if c == 0x2f then suc (leading_slashes v) else 0

module _ (host : Host) where
  -- The `:path` case of validPseudoHeader, its guard passed.
  pub store_path : Bytes → H2Stream → H2Stream
  store_path v stream =
      let leading_slash = leading_slashes v in
      elim (index_of 0x3f v) [
        | none ↦ record stream {
          path = set_path host.from_utf8 (drop leading_slash v);
          got_path = true;
        }
        | some pos ↦ record stream {
          path = set_path host.from_utf8 (take (pos - leading_slash) (drop leading_slash v));
          query = drop (suc pos) v;
          got_path = true;
        }
      ]

  -- `none` stands for the result false, which comes with no write.
  pub valid_pseudo_header : Bytes → Bytes → H2Stream → Option H2Stream
  valid_pseudo_header k v stream =
      if bytes_eq k (codes ":path")
      then (if not stream.got_path && not (is_empty v) then some (store_path v stream) else none)
      else if bytes_eq k (codes ":method")
      then (if is_empty stream.method then some (record stream { method = v }) else none)
      else if bytes_eq k (codes ":authority")
      then some (record stream { server_address = v })
      else if bytes_eq k (codes ":scheme")
      then (if is_empty stream.scheme
          then some (record stream { scheme = v; is_secure = bytes_eq v (codes "https") })
          else none)
      else none

  pub consume_header : Bytes → Bytes → H2Stream → H2Stream
  consume_header k v stream =
      if bytes_eq k (codes "content-length")
      then record stream { content_length = host.to_long_long v }
      else stream

pub valid_header : Bytes → Bytes → Bool
valid_header k v =
    not (bytes_eq k (codes "connection"))
    && (not (bytes_eq k (codes "te")) || bytes_eq v (codes "trailers"))

-- The variables of HPack::decode that outlive a round, its two objects among them.
pub record Decoding : Type 0 where
  pub hpack : HPack
  pub stream : H2Stream
  pub pseudo_headers_allowed : Bool
  pub allowed_to_update : Bool

-- The values of enum ErrorCodes that the function returns.
abbrev protocol_error : ℕ
protocol_error = 0x1

abbrev compression_error : ℕ
compression_error = 0x9

-- How a round ends: the loop goes on, the function returns a code, or the code has no meaning.
pub data Round : Type 0 where
  next : Decoding → Bytes → Round
  return : ℕ → Round
  fault : Round

-- A null pointer returns the given code.
abbrev pub checked {ℓ} : {A : Type ℓ} → Read A → ℕ → (A → Bytes → Round) → Round
checked (Read.read a rest) code f = f a rest
checked Read.failed code f = return code
checked Read.undefined code f = Round.fault

-- A missing value returns the given code.
abbrev pub found {ℓ} : {A : Type ℓ} → Option A → ℕ → (A → Round) → Round
found (some a) code f = f a
found none code f = return code

-- The end of a round, `allowedToUpdate = false`.
abbrev end_round : Decoding → Bytes → Round
end_round d rest = next (record d { allowed_to_update = false }) rest

-- The field that an index names: 6.1, and the name in 6.2.1.
pub dynamic_field : ℕ → HPack → Option (Bytes × Bytes)
dynamic_field i h = elim (get_elem? h.dynamic_table (i - 62)) [
  | none ↦ none
  | some e ↦ some (e.key, e.value)
]

pub indexed_field : ℕ → HPack → Option (Bytes × Bytes)
indexed_field i h = if ltb 61 i then dynamic_field i h else get_elem? static_headers i

-- 6.3 Dynamic Table update, which ends by `continue`.
pub update_round : Bytes → Decoding → Round
update_round it d = checked (decode_uint it 5) compression_error λ limit rest.
    if ltb d.hpack.max_table_size limit || not d.allowed_to_update
    then return compression_error
    else next (record d { hpack = update_size limit d.hpack }) rest

module _ (host : Host) where
  -- What both branches do with a decoded field; `none` returns ErrorProtocolError.
  pub take_field : Bytes → Bytes → Decoding → Option Decoding
  take_field key value d =
      if starts_with_byte 0x3a key
      then (if d.pseudo_headers_allowed
          then elim (valid_pseudo_header host key value d.stream) [
            | none ↦ none
            | some stream ↦ some (record d { stream = stream })
          ]
          else none)
      else if valid_header key value
      then (let stream = consume_header host key value d.stream in
          some (record d {
            pseudo_headers_allowed = false;
            stream = record stream { headers = stream.headers ++ ((key, value) ∷ []) };
          }))
      else none

  -- 6.1 Indexed Header Field Representation.
  pub indexed_round : Bytes → Decoding → Round
  indexed_round it d = checked (decode_uint it 7) compression_error λ i rest.
      if i == 0
      then return compression_error
      else found (indexed_field i d.hpack) compression_error
          λ f. found (take_field f.0 f.1 d) protocol_error λ d'. end_round d' rest

  -- The name of a literal field; an index of the dynamic table is refused without indexing.
  pub literal_name : Bool → ℕ → Bytes → Decoding → (Bytes → Bytes → Round) → Round
  literal_name add_to_dynamic_table i it d go =
      if ltb 61 i
      then (if add_to_dynamic_table
          then found (dynamic_field i d.hpack) compression_error (λ f. go f.0 it)
          else return compression_error)
      else if i == 0
      then checked (parse_string_key host.table it) protocol_error go
      else found (get_elem? static_headers i) compression_error (λ f. go f.0 it)

  -- From the value on; the two objects change at the end, the table only with indexing.
  pub literal_value : Bool → Decoding → Bytes → Bytes → Round
  literal_value add_to_dynamic_table d key it =
      checked (parse_string host.table it) compression_error λ value rest.
        found (take_field key value d) protocol_error λ d'.
          end_round
            (if add_to_dynamic_table
              then record d' { hpack = add_entry (record { key = key; value = value }) d'.hpack }
              else d')
            rest

  -- 6.2.1, 6.2.2 and 6.2.3, from the name's index on.
  pub literal_round : Bool → Bytes → ℕ → Decoding → Round
  literal_round add_to_dynamic_table it bits d =
      checked (decode_uint it bits) compression_error
        λ i rest. literal_name add_to_dynamic_table i rest d (literal_value add_to_dynamic_table d)

  -- One round of `while (it < itEnd)` on a block that starts with `b`.
  pub decode_round : ℕ → Bytes → Decoding → Round
  decode_round b bs d =
      if b / 128 % 2 == 1
      then indexed_round (b ∷ bs) d
      else if b / 64 % 2 == 1
      then literal_round true (b ∷ bs) 6 d
      else if b / 32 % 2 == 1
      then update_round (b ∷ bs) d
      else literal_round false (b ∷ bs) 4 d

-- The variables before the first round.
abbrev pub start_decoding : HPack → H2Stream → Decoding
start_decoding h stream = record {
  hpack = h;
  stream = stream;
  pseudo_headers_allowed = true;
  allowed_to_update = true;
}

-- What HPack::decode returns, with the objects as they are then.
pub data Outcome : Type 0 where
  returned : ℕ → Decoding → Outcome
  fault : Outcome
  out_of_fuel : Outcome

-- The test behind the loop.
pub complete : Decoding → Outcome
complete d =
    if not d.stream.got_path || is_empty d.stream.method || is_empty d.stream.scheme
    then returned protocol_error d
    else returned 0 d

module _ (host : Host) where
  pub decode_loop : ℕ → Bytes → Decoding → Outcome
  decode_loop fuel [] d = complete d
  decode_loop zero (b ∷ bs) d = out_of_fuel
  decode_loop (suc fuel) (b ∷ bs) d = elim (decode_round host b bs d) [
    | next d' rest ↦ decode_loop fuel rest d'
    | return code ↦ returned code d
    | Round.fault ↦ Outcome.fault
  ]

  -- Each round takes a byte at least, so the length of the block is fuel enough.
  pub decode : Bytes → HPack → H2Stream → Outcome
  decode it h stream = decode_loop (length it) it (start_decoding h stream)
