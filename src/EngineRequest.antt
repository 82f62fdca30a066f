-- ===== src/EngineRequest.antt =====
-- The request path: Cutelyst/enginerequest.cpp, EngineRequest::setPath.
pub mod Paths
mod Tests
use cutelyst.Common.{ℕ, ◌+◌, ◌-◌, ◌*◌, ◌%◌, leb, ◌==◌, if◌then◌else◌, bit_or}
use cutelyst.Common.{Bytes, [], ◌∷◌, ◌++◌, length, take, drop, Bool, true, false, ◌&&◌}

-- What a hexadecimal digit is turned into; any other byte stays as it is.
unfoldable pub hex_digit : ℕ → ℕ
hex_digit a =
    if leb 0x30 a && leb a 0x39
    then a - 0x30
    else if leb 0x61 a && leb a 0x66
    then a - 0x61 + 10
    else if leb 0x41 a && leb a 0x46
    then a - 0x41 + 10
    else a

-- The loop's variables. `out` holds the bytes written through `data`, which never overtake the
-- byte that is read, since a round writes at most one byte and reads at least one.
pub record PathState : Type 0 where
  pub out : Bytes
  pub last_slash : Bool
  pub skip_utf8 : Bool
  pub outlen : ℕ

-- A round that writes one byte and is no slash.
abbrev pub write_byte : ℕ → PathState → PathState
write_byte c s = record s { out = s.out ++ (c ∷ []); last_slash = false; outlen = s.outlen + 1 }

-- A slash is written unless the byte before it was one; then `--outlen` meets `++outlen`.
abbrev write_slash : PathState → PathState
write_slash s =
    if s.last_slash
    then record s { last_slash = true; outlen = s.outlen - 1 + 1 }
    else record s { out = s.out ++ (0x2f ∷ []); last_slash = true; outlen = s.outlen + 1 }

-- A round on a byte that starts no escape.
abbrev pub write_plain : ℕ → PathState → PathState
write_plain c s =
    if c == 0x2b then write_byte 0x20 s else if c == 0x2f then write_slash s else write_byte c s

abbrev pub write_escape : ℕ → ℕ → PathState → PathState
write_escape a b s =
    write_byte (bit_or (hex_digit a * 16) (hex_digit b) % 256) (record s { skip_utf8 = false })

unfoldable pub path_loop : Bytes → PathState → PathState
path_loop [] s = s
path_loop (c ∷ []) s = write_plain c s
path_loop (c ∷ a ∷ []) s = write_plain a (write_plain c s)
path_loop (c ∷ a ∷ b ∷ rest) s =
    let escaped = path_loop rest (write_escape a b s) in
    let plain = path_loop (a ∷ b ∷ rest) (write_plain c s) in if c == 0x25 then escaped else plain

abbrev pub path_start : PathState
path_start = record { out = []; last_slash = false; skip_utf8 = true; outlen = 0 }

-- `path.startsWith('/')`, else `prepend('/')`.
abbrev pub lead_slash : Bytes → Bytes
lead_slash [] = 0x2f ∷ []
lead_slash (c ∷ p) = if c == 0x2f then c ∷ p else 0x2f ∷ c ∷ p

-- QString::fromUtf8 is a parameter; QString::fromLatin1 keeps the code points. The string is made
-- of the first `outlen` bytes of the buffer, in which `out` replaced the first bytes of `raw`.
module _ (from_utf8 : Bytes → Bytes) where
  unfoldable pub path_text : Bytes → Bytes
  path_text raw =
      let s = path_loop raw path_start in
      let text = take s.outlen (s.out ++ drop (length s.out) raw) in
      if s.skip_utf8 then text else from_utf8 text

  unfoldable pub set_path : Bytes → Bytes
  set_path [] = 0x2f ∷ []
  set_path (c ∷ raw) = lead_slash (path_text (c ∷ raw))
