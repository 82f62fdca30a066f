-- ===== src/Hpack/Strings/Tests.antt =====
-- String literals of Cutelyst/Server/hpack.cpp, a value and a key.
use cutelyst.Common.{ℕ}
use cutelyst.Hpack.Strings.{HuffDecode}

-- An automaton that accepts everything and has no symbols.
abbrev silent_table : ℕ → ℕ → HuffDecode
silent_table state nibble = record { state = 0; flags = 1; sym = 0 }
