-- ===== src/Http/Lines.antt =====
-- The end of a line in the read buffer: CrLfIndexIn of Cutelyst/Server/protocolhttp.cpp.
pub mod Laws
use cutelyst.Common.{ℕ, suc, ◌==◌, if◌then◌else◌, Bytes, [], ◌∷◌, drop, Option, none, some, ◌&&◌}

-- The search from a position on, given with the bytes from there to the end of the buffer. The code
-- jumps to the next carriage return by memchr; one without a line feed behind it is passed over, and
-- one at the end of the buffer ends the search.
pub crlf_from : Bytes → ℕ → Option ℕ
crlf_from [] position = none
crlf_from (c ∷ []) position = none
crlf_from (c ∷ d ∷ str) position =
    let later = crlf_from (d ∷ str) (suc position) in
    if c == 0xd && d == 0xa then some position else later

pub crlf_index_in : Bytes → ℕ → Option ℕ
unfolding crlf_from
crlf_index_in str from = crlf_from (drop from str) from
