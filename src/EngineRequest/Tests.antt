-- ===== src/EngineRequest/Tests.antt =====
-- Paths through EngineRequest::setPath (Cutelyst/enginerequest.cpp).
use cutelyst.Common.{◌≡◌, refl, Bytes, codes, arith, false}
use cutelyst.EngineRequest.{hex_digit, path_loop, path_text, set_path}
use cutelyst.EngineRequest.Paths.{IsPlain}

abbrev ascii_text : Bytes → Bytes
ascii_text s = s

-- Slashes merge, plus is a blank, and an escape is a byte.
merged : set_path ascii_text (codes "a//b+%41") ≡ codes "/a/b A"
unfolding set_path path_text path_loop hex_digit
merged = refl

ab-IsPlain : IsPlain false (codes "/a/b")
ab-IsPlain = ground arith
