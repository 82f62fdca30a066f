-- ===== src/Multipart/Boundary.antt =====
-- Searches in byte strings, and MultiPartFormDataParser::parse up to the call of `execute`: the
-- boundary that a content type names.
use cutelyst.Common.{
  ℕ, suc, ◌+◌, ◌==◌, Bytes, [], ◌∷◌, ◌++◌, Bool, true, false, ◌&&◌, ◌||◌, if◌then◌else◌, leb,
  Option, none, some, drop, is_empty, codes,
}

-- The first place of a pattern, as QByteArray::indexOf and QByteArrayMatcher::indexIn give it.
abbrev pub is_prefix : Bytes → Bytes → Bool
is_prefix [] ys = true
is_prefix (x ∷ xs) [] = false
is_prefix (x ∷ xs) (y ∷ ys) = x == y && is_prefix xs ys

unfoldable pub index_in : Bytes → Bytes → Option ℕ
index_in pattern_ [] = if is_empty pattern_ then some 0 else none
index_in pattern_ (x ∷ xs) =
    let later : Option ℕ = elim (index_in pattern_ xs) [ none ↦ none | some i ↦ some (suc i) ] in
    if is_prefix pattern_ (x ∷ xs) then some 0 else later

-- QByteArray::trimmed: white space is 9 to 13 and 32.
abbrev is_space : ℕ → Bool
is_space c = (leb 9 c && leb c 13) || c == 32

abbrev trim_start : Bytes → Bytes
trim_start [] = []
trim_start (c ∷ cs) = let rest = trim_start cs in if is_space c then rest else c ∷ cs

abbrev trim_end : Bytes → Bytes
trim_end [] = []
trim_end (c ∷ cs) = let rest = trim_end cs in if is_space c && is_empty rest then [] else c ∷ rest

abbrev pub trimmed : Bytes → Bytes
trimmed cs = trim_end (trim_start cs)

-- The loop over the content type behind `boundary=`; `later` is `i > start`.
unfoldable pub boundary_loop : ℕ → Bool → Bytes → Bytes → Bytes
boundary_loop quotes later boundary [] = boundary
boundary_loop quotes later boundary (ch ∷ rest) =
    let quoted = boundary_loop (suc quotes) true boundary rest in
    let on = boundary_loop quotes true (boundary ++ (ch ∷ [])) rest in
    if ch == 0x22
    then (if quotes == 0 && later then boundary else if quotes == 1 then boundary else quoted)
    else if ch == 0x3b
    then boundary
    else on

-- The boundary with the two dashes in front; `none` where the parser gives up.
unfoldable pub boundary_of : Bytes → Option Bytes
boundary_of content_type = elim (index_in (codes "boundary=") content_type) [
  | none ↦ none
  | some start ↦
      let boundary = boundary_loop 0 false [] (drop (start + 9) content_type) in
      if is_empty boundary then none else some (codes "--" ++ boundary)
]
