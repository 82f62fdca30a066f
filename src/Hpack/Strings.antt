-- ===== src/Hpack/Strings.antt =====
-- The string literals of Cutelyst/Server/hpack.cpp: hpackDecodeString, parse_string and
-- parse_string_key. The Huffman automaton is the table of nghttp2 in hpack_p.cpp, a parameter.
pub mod Laws
mod Tests
use cutelyst.Common.{ℕ, zero, suc, ◌+◌, ◌-◌, ◌/◌, ◌%◌, leb, ◌==◌, if◌then◌else◌}
use cutelyst.Common.{Bytes, [], ◌∷◌, ◌++◌, length, take, drop, Bool, ◌&&◌, ◌||◌, not}
use cutelyst.Hpack.Integer.{Read, read, failed, undefined, then_read, decode_uint}

-- HPackPrivate::HuffDecode; the bits of `flags` are HUFF_ACCEPTED, HUFF_SYM and HUFF_FAIL.
pub record HuffDecode : Type 0 where
  pub state : ℕ
  pub flags : ℕ
  pub sym : ℕ

abbrev huff_accepted : HuffDecode → Bool
huff_accepted e = e.flags % 2 == 1

abbrev huff_sym : HuffDecode → Bool
huff_sym e = e.flags / 2 % 2 == 1

abbrev huff_fail : HuffDecode → Bool
huff_fail e = e.flags / 4 % 2 == 1

-- `value.append(char(entry->sym))` where the entry has a symbol.
abbrev append_sym : HuffDecode → Bytes → Bytes
append_sym e dst = if huff_sym e then dst ++ (e.sym ∷ []) else dst

-- QChar::isUpper of a Latin-1 character.
abbrev pub is_upper : ℕ → Bool
is_upper c = (leb 0x41 c && leb c 0x5a) || (leb 0xc0 c && leb c 0xde && not (c == 0xd7))

module _ (table : ℕ → ℕ → HuffDecode) where
  -- The `do … while (++src < src_end)` loop; `left` counts the rounds after this one.
  huff_loop : Bytes → ℕ → ℕ → Bytes → Read Bytes
  huff_loop [] left state dst = undefined
  huff_loop (b ∷ rest) left state dst =
      let hi = table state (b / 16) in
      let lo = table hi.state (b % 16) in
      let dst' = append_sym lo (append_sym hi dst) in
      let more = huff_loop rest (left - 1) lo.state dst' in
      let last = if huff_accepted lo then read dst' rest else failed in
      if huff_fail hi || huff_fail lo then failed else if left == 0 then last else more

  -- The function returns `src_end`, which is `src` where the length is 0, though a byte was read.
  pub decode_string : ℕ → Bytes → Read Bytes
  unfolding huff_loop
  decode_string len src =
      then_read (huff_loop src (len - 1) 0 []) (λ value _. read value (drop len src))

  unfoldable pub parse_string : Bytes → Read Bytes
  unfolding decode_string
  parse_string [] = undefined
  parse_string (b ∷ bs) = then_read (decode_uint (b ∷ bs) 7) λ len buf.
      if b / 128 % 2 == 1
      then decode_string len buf
      else if leb len (length buf)
      then read (take len buf) (drop len buf)
      else failed

-- The `while (buf < itEnd)` loop of parse_string_key, with `buf++` twice in each round. The
-- number is `itEnd - buf`; the second read of an odd last round is at `itEnd`.
pub key_loop : ℕ → Bytes → Bytes → Read Bytes
key_loop zero buf dst = read dst buf
key_loop (suc n) [] dst = undefined
key_loop (suc n) (c ∷ []) dst = if is_upper c then failed else undefined
key_loop (suc zero) (c ∷ d ∷ buf) dst = if is_upper c then failed else read (dst ++ (d ∷ [])) buf
key_loop (suc (suc n)) (c ∷ d ∷ buf) dst =
    let more = key_loop n buf (dst ++ (d ∷ [])) in if is_upper c then failed else more

module _ (table : ℕ → ℕ → HuffDecode) where
  pub parse_string_key : Bytes → Read Bytes
  unfolding decode_string key_loop
  parse_string_key [] = undefined
  parse_string_key (b ∷ bs) = then_read (decode_uint (b ∷ bs) 7) λ len buf.
      if b / 128 % 2 == 1
      then decode_string table len buf
      else if leb len (length buf)
      then key_loop len buf []
      else failed
