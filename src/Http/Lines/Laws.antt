-- ===== src/Http/Lines/Laws.antt =====
-- The line ends that CrLfIndexIn finds.
use cutelyst.Common.{
  ◌≤◌, ◌<◌, length-drop, ℕ, suc, ◌+◌, Bytes, [], ◌∷◌, ◌++◌, length, drop, none, some, All, ◌≡◌, ◌≢◌,
  refl, ap, ◌∙◌, arith, drop-length-append,
}
use cutelyst.Http.Lines.{crlf_from, crlf_index_in}

-- A text of lines without a carriage return.
abbrev pub IsLine : Bytes → Type 0
IsLine s = All (λ c. c ≢ 0xd) s

abbrev pub crlf : Bytes → Bytes
crlf rest = 0xd ∷ 0xa ∷ rest

-- Behind a line, the line end is found, wherever in the line the search begins.
crlf_from-line :
    (line rest : Bytes) (position : ℕ)
    → IsLine line
    → crlf_from (line ++ (0xd ∷ 0xa ∷ rest)) position ≡ some (position + length line)
unfolding crlf_from
crlf_from-line [] rest position h = ground arith
crlf_from-line (c ∷ []) rest position h = ground arith
crlf_from-line (c ∷ d ∷ line) rest position (hc, h) =
    ground (arith, crlf_from-line (d ∷ line) rest (suc position))

crlf_from-none : (line : Bytes) (position : ℕ) → IsLine line → crlf_from line position ≡ none
unfolding crlf_from
crlf_from-none [] position h = refl
crlf_from-none (c ∷ []) position h = refl
crlf_from-none (c ∷ d ∷ line) position (hc, h) =
    ground (arith, crlf_from-none (d ∷ line) (suc position))

-- A carriage return at the end of what was read ends no line.
pub crlf_from-cut :
    (line : Bytes) (position : ℕ) → IsLine line → crlf_from (line ++ (0xd ∷ [])) position ≡ none
unfolding crlf_from
crlf_from-cut [] position h = refl
crlf_from-cut (c ∷ []) position (hc, h) = ground arith
crlf_from-cut (c ∷ d ∷ line) position (hc, h) =
    ground (arith, crlf_from-cut (d ∷ line) (suc position))

crlf_from-bounds : (s : Bytes) (p i : ℕ) → crlf_from s p ≡ some i → (p ≤ i) × (i + 2 ≤ p + length s)
unfolding crlf_from
crlf_from-bounds [] p i e = cc
crlf_from-bounds (c ∷ []) p i e = cc
crlf_from-bounds (c ∷ d ∷ s) p i e = ground (arith, crlf_from-bounds (d ∷ s) (suc p) i)

pub crlf_index_in-bounds :
    (s : Bytes) (from i : ℕ)
    → from < length s
    → crlf_index_in s from ≡ some i
    → (from ≤ i) × (i + 2 ≤ length s)
unfolding crlf_index_in
crlf_index_in-bounds s from i h e =
    omega (arith, crlf_from-bounds (drop from s) from i e, length-drop {0} from s)

-- A search behind what was looked at before.
pub crlf_index_in-append :
    (seen s : Bytes) → crlf_index_in (seen ++ s) (length seen) ≡ crlf_from s (length seen)
unfolding crlf_index_in
crlf_index_in-append seen s =
    ap (λ (t : Bytes). crlf_from t (length seen)) (drop-length-append seen s)

pub crlf_index_in-line :
    (seen line rest : Bytes)
    → IsLine line
    → crlf_index_in (seen ++ (line ++ crlf rest)) (length seen) ≡ some (length seen + length line)
crlf_index_in-line seen line rest h =
    crlf_index_in-append seen (line ++ crlf rest) ∙ crlf_from-line line rest (length seen) h

pub crlf_index_in-none :
    (seen line : Bytes) → IsLine line → crlf_index_in (seen ++ line) (length seen) ≡ none
crlf_index_in-none seen line h =
    crlf_index_in-append seen line ∙ crlf_from-none line (length seen) h
