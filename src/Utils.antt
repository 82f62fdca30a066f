-- ===== src/Utils.antt =====
-- Percent decoding and query strings: Cutelyst/utils.cpp, the functions decodePercentEncoding.
pub mod Laws
mod Tests
use cutelyst.Common.{
  ℕ, ◌*◌, ◌%◌, ◌==◌, if◌then◌else◌, bit_or, Bytes, List, [], ◌∷◌, ◌++◌, Bool, true, false, is_empty,
}
use cutelyst.EngineRequest.{hex_digit}

-- What is written through `data`, and whether an escape was among it. A round writes one byte, so
-- that `outlen` is the length of `out`, and never overtakes the byte that is read.
pub record Decoded : Type 0 where
  pub out : Bytes
  pub skip_utf8 : Bool

abbrev pub put : ℕ → Decoded → Decoded
put c s = record s { out = s.out ++ (c ∷ []) }

-- The byte that two digits stand for, `char((a << 4) | b)`.
abbrev put_escape : ℕ → ℕ → Decoded → Decoded
put_escape a b s =
    put (bit_or (hex_digit a * 16) (hex_digit b) % 256) (record s { skip_utf8 = false })

abbrev pub put_plain : ℕ → Decoded → Decoded
put_plain c s = if c == 0x2b then put 0x20 s else put c s

-- The loop of the two overloads that decode a value.
pub percent_loop : Bytes → Decoded → Decoded
percent_loop [] s = s
percent_loop (c ∷ []) s = put_plain c s
percent_loop (c ∷ a ∷ []) s = put_plain a (put_plain c s)
percent_loop (c ∷ a ∷ b ∷ rest) s =
    let escaped = percent_loop rest (put_escape a b s) in
    let plain = percent_loop (a ∷ b ∷ rest) (put_plain c s) in if c == 0x25 then escaped else plain

abbrev pub nothing_decoded : Decoded
nothing_decoded = record { out = []; skip_utf8 = true }

-- The variables of the overload for a query: the calls of `ret.insert`, the newest last, the bytes
-- between `from` and `data`, and the key, for which `hasKey` is kept apart.
pub record Query : Type 0 where
  pub params : List (Bytes × Bytes)
  pub key : Bytes
  pub has_key : Bool
  pub part : Decoded

-- QString::fromUtf8 is a parameter; QString::fromLatin1 keeps the code points.
module _ (from_utf8 : Bytes → Bytes) where
  abbrev text_of : Decoded → Bytes
  text_of s = if s.skip_utf8 then s.out else from_utf8 s.out

  -- decodePercentEncoding(QByteArray *).
  pub decode_percent_encoding : Bytes → Bytes
  decode_percent_encoding [] = []
  decode_percent_encoding (c ∷ ba) = text_of (percent_loop (c ∷ ba) nothing_decoded)

  -- decodePercentEncoding(QString *); QString::toLatin1 is a parameter.
  pub decode_percent_string : (Bytes → Bytes) → Bytes → Bytes
  decode_percent_string to_latin1 [] = []
  decode_percent_string to_latin1 (c ∷ s) =
      let done = percent_loop (to_latin1 (c ∷ s)) nothing_decoded in
      if done.skip_utf8 then c ∷ s else from_utf8 done.out

  abbrev insert : Bytes → Bytes → Query → Query
  insert k v s = record s { params = s.params ++ ((k, v) ∷ []) }

  -- The lambda processKeyPair.
  pub process_key_pair : Query → Query
  process_key_pair s =
      if s.has_key
      then (if is_empty s.part.out
          then (if is_empty s.key then s else insert s.key [] s)
          else insert s.key (text_of s.part) s)
      else if is_empty s.part.out
      then s
      else insert (text_of s.part) [] s

  -- A round on a byte that starts no escape.
  pub query_plain : ℕ → Query → Query
  query_plain c s =
      if c == 0x2b
      then record s { part = put 0x20 s.part }
      else if c == 0x3d
      then record s { key = text_of s.part; has_key = true; part = nothing_decoded }
      else if c == 0x26
      then record (process_key_pair s) { key = []; has_key = false; part = nothing_decoded }
      else record s { part = put c s.part }

  abbrev query_escape : ℕ → ℕ → Query → Query
  query_escape a b s = record s { part = put_escape a b s.part }

  pub query_loop : Bytes → Query → Query
  query_loop [] s = s
  query_loop (c ∷ []) s = query_plain c s
  query_loop (c ∷ a ∷ []) s = query_plain a (query_plain c s)
  query_loop (c ∷ a ∷ b ∷ rest) s =
      let escaped = query_loop rest (query_escape a b s) in
      let plain = query_loop (a ∷ b ∷ rest) (query_plain c s) in
      if c == 0x25 then escaped else plain

  abbrev query_start : Query
  query_start = record { params = []; key = []; has_key = false; part = nothing_decoded }

  -- decodePercentEncoding(char *, int): the calls of `insert` in their order.
  pub decode_query : Bytes → List (Bytes × Bytes)
  decode_query bytes = (process_key_pair (query_loop bytes query_start)).params
