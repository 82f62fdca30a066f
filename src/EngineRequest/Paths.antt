-- ===== src/EngineRequest/Paths.antt =====
-- What EngineRequest::setPath (Cutelyst/enginerequest.cpp) makes of a request path.
use cutelyst.Common.{
  ltb, ◌/◌, ◌&&◌, Bool-cases, inl, inr, ℕ, ◌+◌, ◌-◌, ◌*◌, ◌%◌, ◌<◌, ◌≡◌, ◌≢◌, refl, Bytes, [], ◌∷◌,
  ◌++◌, length, Bool, true, false, arith, ◌==◌, if◌then◌else◌, length-append, take-length-append,
  sym, ◌∙◌, append_assoc, append-nil, ap, bit_or, all_below, all_below_sound,
}
use cutelyst.EngineRequest.{
  hex_digit, PathState, write_byte, write_plain, write_escape, path_loop, path_start, lead_slash,
  set_path, path_text,
}

-- The first byte is a slash.
abbrev pub Leads : Bytes → Type 0
Leads [] = ⊥
Leads (c ∷ p) = c ≡ 0x2f

Leads-lead_slash : (p : Bytes) → Leads (lead_slash p)
Leads-lead_slash [] = refl
Leads-lead_slash (c ∷ p) = ground arith

-- Whatever the bytes of the request, the path starts with a slash.
pub Leads-set_path : (from_utf8 : Bytes → Bytes) (raw : Bytes) → Leads (set_path from_utf8 raw)
unfolding set_path
Leads-set_path from_utf8 [] = refl
Leads-set_path from_utf8 (c ∷ raw) = Leads-lead_slash (path_text from_utf8 (c ∷ raw))

-- `outlen` counts the bytes written.
abbrev Counted : PathState → Type 0
Counted s = s.outlen ≡ length s.out

-- A slash was written before: `--outlen` finds a byte to take back.
record IsCounted (s : PathState) : Type 0 where
  counted : s.outlen ≡ length s.out
  nonempty : s.last_slash ≡ true → 0 < s.outlen

write_byte-IsCounted : (c : ℕ) (s : PathState) → IsCounted s → IsCounted (write_byte c s)
write_byte-IsCounted c s h = ground (arith, length-append {0} s.out (c ∷ []))

write_plain-IsCounted : (c : ℕ) (s : PathState) → IsCounted s → IsCounted (write_plain c s)
write_plain-IsCounted c s h = ground (
  arith,
  length-append {0} s.out (c ∷ []),
  length-append {0} s.out (0x2f ∷ []),
  length-append {0} s.out (0x20 ∷ []),
)

write_escape-IsCounted : (a b : ℕ) (s : PathState) → IsCounted s → IsCounted (write_escape a b s)
write_escape-IsCounted a b s h =
    write_byte-IsCounted (bit_or (hex_digit a * 16) (hex_digit b) % 256)
      (record s { skip_utf8 = false }) (record { counted = h.counted; nonempty = h.nonempty })

path_loop-IsCounted : (raw : Bytes) (s : PathState) → IsCounted s → IsCounted (path_loop raw s)
unfolding path_loop
path_loop-IsCounted [] s h = h
path_loop-IsCounted (c ∷ []) s h = write_plain-IsCounted c s h
path_loop-IsCounted (c ∷ a ∷ []) s h =
    write_plain-IsCounted a (write_plain c s) (write_plain-IsCounted c s h)
path_loop-IsCounted (c ∷ a ∷ b ∷ rest) s h = elim (Bool-cases (c == 0x25)) [
  | inl escape ↦
      rw escape (path_loop-IsCounted rest (write_escape a b s) (write_escape-IsCounted a b s h))
  | inr plain ↦
      rw plain (path_loop-IsCounted (a ∷ b ∷ rest) (write_plain c s) (write_plain-IsCounted c s h))
]

-- Of the buffer, which still ends in bytes of the request where the path became shorter, setPath
-- takes exactly the bytes that its loop wrote, decodes them as UTF-8 if there was an escape, and
-- puts a slash in front if there is none; nothing of the request leaks behind the path.
set_path-written :
    (from_utf8 : Bytes → Bytes) (c : ℕ) (raw : Bytes)
    → set_path from_utf8 (c ∷ raw)
      ≡ lead_slash (
          if (path_loop (c ∷ raw) path_start).skip_utf8
          then (path_loop (c ∷ raw) path_start).out
          else from_utf8 (path_loop (c ∷ raw) path_start).out)
unfolding set_path path_text
set_path-written from_utf8 c raw =
    let s = path_loop (c ∷ raw) path_start in
    let h =
      path_loop-IsCounted (c ∷ raw) path_start (record { counted = refl; nonempty = λ p. cc }) in
    rw (h.counted, take-length-append)

-- A plain path: no escape, no plus, and no two slashes in a row (`after` tells whether a slash
-- stands in front).
abbrev pub IsPlain : Bool → Bytes → Type 0
IsPlain after [] = Unit
IsPlain after (c ∷ p) = (c ≢ 0x25) × (c ≢ 0x2b) × (after ≡ true → c ≢ 0x2f) × IsPlain (c == 0x2f) p

path_loop-IsPlain :
    (raw : Bytes) (s : PathState)
    → IsPlain s.last_slash raw
    → ((path_loop raw s).out ≡ s.out ++ raw) × ((path_loop raw s).skip_utf8 ≡ s.skip_utf8)
unfolding path_loop
path_loop-IsPlain [] s h = (sym (append-nil _), refl)
path_loop-IsPlain (c ∷ []) s h = ground arith
path_loop-IsPlain (c ∷ a ∷ []) s h = ground (arith, append_assoc s.out (c ∷ []) (a ∷ []))
path_loop-IsPlain (c ∷ a ∷ b ∷ rest) s h = ground (
  arith,
  path_loop-IsPlain (a ∷ b ∷ rest) (write_plain c s),
  append_assoc s.out (c ∷ []) (a ∷ b ∷ rest),
)

-- A path that starts with a slash, and has no percent sign, no plus sign and no two slashes in a
-- row, is taken as it is.
set_path-IsPlain :
    (from_utf8 : Bytes → Bytes) (p : Bytes)
    → IsPlain false (0x2f ∷ p)
    → set_path from_utf8 (0x2f ∷ p) ≡ 0x2f ∷ p
set_path-IsPlain from_utf8 p h =
    let (written, latin) = path_loop-IsPlain (0x2f ∷ p) path_start h in
    set_path-written from_utf8 0x2f p ∙ rw (latin, written)

-- The hexadecimal digits of either case, as a request may write them.
abbrev pub hex_upper : ℕ → ℕ
hex_upper n = if ltb n 10 then 0x30 + n else 0x41 + (n - 10)

abbrev pub hex_lower : ℕ → ℕ
hex_lower n = if ltb n 10 then 0x30 + n else 0x61 + (n - 10)

abbrev escaped_as : (ℕ → ℕ) → ℕ → ℕ
escaped_as digit n = bit_or (hex_digit (digit (n / 16)) * 16) (hex_digit (digit (n % 16))) % 256

escape_table :
    all_below 256 (λ n. escaped_as hex_upper n == n && escaped_as hex_lower n == n) ≡ true
unfolding hex_digit
escape_table = refl

pub escape_value : (n : ℕ) → n < 256 → (escaped_as hex_upper n ≡ n) × (escaped_as hex_lower n ≡ n)
escape_value n h =
    let e =
      all_below_sound 256 (λ n. escaped_as hex_upper n == n && escaped_as hex_lower n == n) n
        escape_table h in
    ground arith

-- In the path loop, an escape of two hexadecimal digits, of either case, writes the byte that they
-- spell and marks the path as UTF-8, for each of the 256 bytes and whatever follows.
path_loop-escape :
    (n : ℕ) (rest : Bytes) (s : PathState)
    → n < 256
    → (path_loop (0x25 ∷ hex_upper (n / 16) ∷ hex_upper (n % 16) ∷ rest) s
        ≡ path_loop rest (write_byte n (record s { skip_utf8 = false })))
      × (path_loop (0x25 ∷ hex_lower (n / 16) ∷ hex_lower (n % 16) ∷ rest) s
          ≡ path_loop rest (write_byte n (record s { skip_utf8 = false })))
unfolding path_loop
path_loop-escape n rest s h =
    let (up, low) = escape_value n h in
    (
      ap (λ (c : ℕ). path_loop rest (write_byte c (record s { skip_utf8 = false }))) up,
      ap (λ (c : ℕ). path_loop rest (write_byte c (record s { skip_utf8 = false }))) low,
    )
