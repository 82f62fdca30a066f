-- ===== src/Hpack/Encoder.antt =====
-- HPack::encodeHeaders and encodeH2caseHeader: Cutelyst/Server/hpack.cpp.
pub mod ReadBack
pub mod Blocks
mod Tests
use cutelyst.Common.{
  ℕ, zero, suc, ◌+◌, ◌/◌, ◌%◌, ltb, leb, ◌==◌, if◌then◌else◌, Bytes, List, [], ◌∷◌, ◌++◌, map,
  length, drop, Bool, false, ◌&&◌, ◌||◌, not, Option, none, some, codes, bytes_eq, same_key,
}
use cutelyst.Hpack.Integer.{encode_uint}
use cutelyst.Hpack.Strings.{is_upper}
use cutelyst.Hpack.Tables.{static_headers_code}

-- QByteArray::number of a status, which is a quint16: its decimal digits.
pub number_loop : ℕ → ℕ → Bytes
number_loop zero n = []
number_loop (suc fuel) n =
    let front = number_loop fuel (n / 10) in
    let last : Bytes = (0x30 + n % 10) ∷ [] in if ltb n 10 then last else front ++ last

pub number : ℕ → Bytes
number n = number_loop 5 n

pub encode_status : ℕ → Bytes
encode_status status =
    if status == 200
    then 0x88 ∷ []
    else if status == 204
    then 0x89 ∷ []
    else if status == 206
    then 0x8a ∷ []
    else if status == 304
    then 0x8b ∷ []
    else if status == 400
    then 0x8c ∷ []
    else if status == 404
    then 0x8d ∷ []
    else if status == 500
    then 0x8e ∷ []
    else 0x08 ∷ (encode_uint (length (number status)) 4 ++ number status)

-- QChar::isLetter of a Latin-1 character.
abbrev is_letter : ℕ → Bool
is_letter c =
    is_upper c
    || (leb 0x61 c && leb c 0x7a)
    || (leb 0xdf c && leb c 0xff && not (c == 0xf7))
    || c == 0xaa
    || c == 0xb5
    || c == 0xba

-- What one character of a key becomes; `toLower` moves an upper-case Latin-1 letter by 32.
pub h2case : ℕ → ℕ
h2case c = if is_letter c then (if is_upper c then c + 32 else c) else if c == 0x5f then 0x2d else c

pub encode_h2case_header : Bytes → Bytes
encode_h2case_header key = encode_uint (length key) 7 ++ map h2case key

-- QHash::constFind.
pub find_code : Bytes → List (Bytes × ℕ) → Option ℕ
find_code key [] = none
find_code key ((k, code) ∷ t) = if bytes_eq key k then some code else find_code key t

-- One round of the loop over the headers.
pub encode_field : Bytes → Bytes → Bytes
encode_field key value = elim (find_code key static_headers_code) [
  | some code ↦ 0x0f ∷ code ∷ (encode_uint (length value) 7 ++ value)
  | none ↦ 0 ∷ (encode_h2case_header key ++ (encode_uint (length value) 7 ++ value))
]

pub encode_fields : List (Bytes × Bytes) → Bytes
encode_fields [] = []
encode_fields ((key, value) ∷ headers) = encode_field key value ++ encode_fields headers

-- `hasDate` behind the loop.
pub has_date : List (Bytes × Bytes) → Bool
has_date [] = false
has_date ((key, value) ∷ headers) = same_key key (codes "Date") || has_date headers

-- `engine->lastDate()` is an argument, a line that starts with "\r\nDate: ".
pub encode_date : Bytes → Bytes
encode_date last_date =
    let date = drop 8 last_date in if length date == 29 then 0x0f ∷ 0x12 ∷ 0x1d ∷ date else []

-- What is appended to `buf`.
pub encode_headers : ℕ → List (Bytes × Bytes) → Bytes → Bytes
encode_headers status headers last_date =
    encode_status status
    ++ (encode_fields headers ++ (if has_date headers then [] else encode_date last_date))
