-- ===== src/Hpack/Encoder/Blocks.antt =====
-- A whole header block of HPack::encodeHeaders (Cutelyst/Server/hpack.cpp), read back.
use cutelyst.Common.{
  ℕ, zero, suc, ◌+◌, ◌/◌, ◌%◌, ◌^◌, ◌<◌, ◌≤◌, if◌then◌else◌, Bytes, List, [], ◌∷◌, ◌++◌, drop, map,
  length, some, codes, ◌≡◌, refl, arith, append_assoc, append-nil, inl, inr, Bool-cases,
  Option-cases, All, length-append,
}
use Prim.Native.Nat.add
use cutelyst.Hpack.Integer.{Read, read, then_read, decode_uint, encode_uint}
use cutelyst.Hpack.Strings.{HuffDecode}
use cutelyst.Hpack.Strings.Laws.{parse_string-plain}
use cutelyst.Hpack.Tables.{static_headers_code}
use cutelyst.Hpack.Encoder.{
  number_loop, number, encode_status, h2case, find_code, encode_field, encode_fields, has_date,
  encode_date, encode_headers,
}
use cutelyst.Hpack.Encoder.ReadBack.{
  static_entry, read_field, coded_field, named_field, spelled_field,
}

-- Name and value are short enough for a length of 16 bits.
abbrev pub IsShort : Bytes × Bytes → Type 0
IsShort f = (length f.0 < 2 ^ 16) × (length f.1 < 2 ^ 16)

abbrev pub h2_field : Bytes × Bytes → Bytes × Bytes
h2_field f = (map h2case f.0, f.1)

number_loop-length : (fuel n : ℕ) → length (number_loop fuel n) ≤ fuel
unfolding number_loop
number_loop-length zero n = omega arith
number_loop-length (suc fuel) n = ground (
  arith,
  number_loop-length fuel (n / 10),
  length-append {0} (number_loop fuel (n / 10)) ((0x30 + n % 10) ∷ []),
)

short_length : (n : ℕ) → n < 15 → encode_uint n 4 ≡ encode_uint n 7
unfolding encode_uint
short_length n h = ground arith

number-length : (n : ℕ) → length (number n) ≤ 5
unfolding number
number-length n = number_loop-length 5 n

-- The statuses that the static table has.
abbrev StatusAt : ℕ → ℕ → Type 0
StatusAt i status = static_entry i ≡ some (codes ":status", number status)

status_entries :
    StatusAt 8 200
    × StatusAt 9 204
    × StatusAt 10 206
    × StatusAt 11 304
    × StatusAt 12 400
    × StatusAt 13 404
    × StatusAt 14 500
unfolding static_entry number number_loop
status_entries = (refl, refl, refl, refl, refl, refl, refl)

-- The date field that is sent beside the headers of the application.
abbrev pub added_date : List (Bytes × Bytes) → Bytes → List (Bytes × Bytes)
added_date headers last_date =
    if has_date headers then [] else (codes "date", drop 8 last_date) ∷ []

module _ (table : ℕ → ℕ → HuffDecode) where
  field_reads_back :
      (key value rest : Bytes)
      → length key < 2 ^ 16
      → length value < 2 ^ 16
      → read_field table (encode_field key value ++ rest) ≡ read (map h2case key, value) rest
  unfolding encode_field
  field_reads_back key value rest hk hv = elim (Option-cases (find_code key static_headers_code)) [
    | inl e ↦ rw (e, encode_field) (simp append_assoc (spelled_field table key value rest hk hv))
    | inr (code, e) ↦
        rw (e, encode_field) (simp append_assoc (named_field table key value rest code e hv))
  ]

  indexed_status :
      (i : ℕ) (value rest : Bytes)
      → i < 127
      → static_entry i ≡ some (codes ":status", value)
      → read_field table ((128 + i) ∷ rest) ≡ read (codes ":status", value) rest
  unfolding read_field decode_uint
  indexed_status i value rest h e = ground (arith, e)

  literal_status :
      (value rest : Bytes)
      → length value < 15
      → read_field table (8 ∷ (encode_uint (length value) 4 ++ (value ++ rest)))
        ≡ read (codes ":status", value) rest
  unfolding read_field decode_uint static_entry
  literal_status value rest h =
      ground (arith, short_length (length value) h, parse_string-plain table value rest)

  -- One of the statuses that the static table has.
  known_status :
      (status code i : ℕ) (rest : Bytes)
      → static_entry i ≡ some (codes ":status", number code)
      → i < 127
      → status ≡ code
      → read_field table ((128 + i) ∷ rest) ≡ read (codes ":status", number status) rest
  known_status status code i rest e h same = rw same (indexed_status i (number code) rest h e)

  -- A status below 10 ^ 5 is read back, by its index or spelled.
  status_reads_back :
      (status : ℕ) (rest : Bytes)
      → read_field table (encode_status status ++ rest) ≡ read (codes ":status", number status) rest
  unfolding encode_status
  status_reads_back status rest =
      let (a, b, c, d, e, f, g) = status_entries in
      ground (
        arith,
        known_status status 200 8 rest a,
        known_status status 204 9 rest b,
        known_status status 206 10 rest c,
        known_status status 304 11 rest d,
        known_status status 400 12 rest e,
        known_status status 404 13 rest f,
        known_status status 500 14 rest g,
        append_assoc (encode_uint (length (number status)) 4) (number status) rest,
        literal_status (number status) rest,
        number-length status,
      )

  date_reads_back :
      (last_date rest : Bytes)
      → length (drop 8 last_date) ≡ 29
      → read_field table (encode_date last_date ++ rest)
        ≡ read (codes "date", drop 8 last_date) rest
  unfolding encode_date encode_uint static_entry
  date_reads_back last_date rest h =
      let date = drop 8 last_date in
      let field =
        coded_field table (codes "date") [] date rest 0x12 refl (omega arith) (omega arith) in
      ground (arith, rw h at field)

  -- Fields one after the other.
  pub read_fields : ℕ → Bytes → Read (List (Bytes × Bytes))
  read_fields zero it = read [] it
  read_fields (suc n) it =
      then_read (read_field table it)
        λ f rest. then_read (read_fields n rest) λ fs rest'. read (f ∷ fs) rest'

  fields_read_back :
      (headers : List (Bytes × Bytes)) (n : ℕ) (rest left : Bytes) (more : List (Bytes × Bytes))
      → All IsShort headers
      → read_fields n rest ≡ read more left
      → read_fields (length headers + n) (encode_fields headers ++ rest)
        ≡ read (map h2_field headers ++ more) left
  unfolding read_fields encode_fields
  fields_read_back [] n rest left more h e = rw (add.zero n) e
  fields_read_back ((k, v) ∷ hs) n rest left more (short, h) e =
      rw
        (
          add.suc (length hs) n,
          append_assoc,
          field_reads_back k v (encode_fields hs ++ rest) short.0 short.1,
        )
        (rw (fields_read_back hs n rest left more h e) refl)

  rest_reads_back :
      (headers : List (Bytes × Bytes)) (last_date : Bytes)
      → All IsShort headers
      → length (drop 8 last_date) ≡ 29
      → read_fields
          (length headers + length (added_date headers last_date))
          (encode_fields headers ++ (if has_date headers then [] else encode_date last_date))
        ≡ read (map h2_field headers ++ added_date headers last_date) []
  unfolding read_fields
  rest_reads_back headers last_date h d = elim (Bool-cases (has_date headers)) [
    | inl dated ↦ rw dated (fields_read_back headers 0 [] [] [] h refl)
    | inr undated ↦
        let date = rw append-nil at (date_reads_back last_date [] d) in
        rw undated (
          fields_read_back headers 1 (encode_date last_date) []
            ((codes "date", drop 8 last_date) ∷ []) h (rw date refl))
  ]

  -- The whole block that encodeHeaders appends, read as RFC 7541 section 6 lays fields out, holds
  -- the status as ":status", then every header in order with its key in HTTP/2 case, then the date
  -- if the headers have none, and nothing else; for names and values below 2 ^ 16 bytes and a
  -- server date of 29 bytes.
  pub encode_headers-reads_back :
      (status : ℕ) (headers : List (Bytes × Bytes)) (last_date : Bytes)
      → All IsShort headers
      → length (drop 8 last_date) ≡ 29
      → read_fields
          (suc (length headers + length (added_date headers last_date)))
          (encode_headers status headers last_date)
        ≡ read
            ((codes ":status", number status)
              ∷ (map h2_field headers ++ added_date headers last_date))
            []
  unfolding read_fields encode_headers
  encode_headers-reads_back status headers last_date h d =
      let tail =
        encode_fields headers ++ (if has_date headers then [] else encode_date last_date) in
      rw (status_reads_back status tail) (rw (rest_reads_back headers last_date h d) refl)
