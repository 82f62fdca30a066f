-- ===== src/Headers/Etags.antt =====
-- The comparisons of entity tags of Cutelyst/headers.cpp: ifMatch and ifNoneMatch.
use cutelyst.Common.{
  ℕ, ◌-◌, leb, if◌then◌else◌, Bytes, [], ◌∷◌, ◌++◌, length, take, drop, Bool, true, false, Option,
  none, some, codes, bytes_eq, bytes_eq_refl, ◌≡◌, refl, ◌∙◌, ap, arith, take-length-append,
  length-append,
}
use cutelyst.Headers.{Headers, header, set_header}
use cutelyst.Headers.Laws.{header_or-set_header, same_key_refl}

-- `sliced(pos, size - cut)` of the value; `none` where the length is negative, which the function
-- does not allow. For the arguments of the code the slice ends within the value.
abbrev sliced : ℕ → ℕ → Bytes → Option Bytes
sliced position cut v =
    if leb cut (length v) then some (take (length v - cut) (drop position v)) else none

-- `a == etag || b == etag`, of which the second is not looked at where the first holds.
abbrev is_tag : Bytes → Option Bytes → Option Bool → Option Bool
is_tag etag none otherwise = none
is_tag etag (some a) otherwise = if bytes_eq a etag then some true else otherwise

abbrev matches : Bytes → Bytes → Option Bool
matches etag v = is_tag etag (sliced 1 2 v) (is_tag etag (sliced 3 4 v) (some false))

-- What both functions do with the value of their header.
abbrev match_or : Bool → Bytes → Bytes → Option Bool
match_or missing etag [] = some missing
match_or missing etag (c ∷ v) = matches etag (c ∷ v)

pub if_match : Bytes → Headers → Option Bool
if_match etag h = match_or true etag (header (codes "If-Match") h)

pub if_none_match : Bytes → Headers → Option Bool
if_none_match etag h = match_or false etag (header (codes "If-None-Match") h)

-- A tag as a client sends it, strong and weak.
abbrev pub strong_tag : Bytes → Bytes
strong_tag etag = 0x22 ∷ (etag ++ (0x22 ∷ []))

abbrev pub weak_tag : Bytes → Bytes
weak_tag etag = 0x57 ∷ 0x2f ∷ strong_tag etag

sliced-strong_tag : (etag : Bytes) → sliced 1 2 (strong_tag etag) ≡ some etag
sliced-strong_tag etag =
    ground (arith, length-append {0} etag (0x22 ∷ []), take-length-append {0} etag (0x22 ∷ []))

sliced-weak_tag : (etag : Bytes) → sliced 3 4 (weak_tag etag) ≡ some etag
sliced-weak_tag etag =
    ground (arith, length-append {0} etag (0x22 ∷ []), take-length-append {0} etag (0x22 ∷ []))

is_tag-same :
    (etag : Bytes) (v : Option Bytes) (otherwise : Option Bool)
    → v ≡ some etag
    → is_tag etag v otherwise ≡ some true
is_tag-same etag v otherwise e = ap (λ z. is_tag etag z otherwise) e ∙ rw (bytes_eq_refl etag) refl

matches-strong_tag : (etag : Bytes) → matches etag (strong_tag etag) ≡ some true
matches-strong_tag etag = is_tag-same etag _ _ (sliced-strong_tag etag)

-- The first slice is defined, so that the second decides.
is_tag-some :
    (etag a : Bytes) (v : Option Bytes) (otherwise : Option Bool)
    → v ≡ some a
    → otherwise ≡ some true
    → is_tag etag v otherwise ≡ some true
is_tag-some etag a v otherwise e o = ap (λ z. is_tag etag z otherwise) e ∙ ground arith

matches-weak_tag : (etag : Bytes) → matches etag (weak_tag etag) ≡ some true
matches-weak_tag etag =
    let v = weak_tag etag in
    is_tag-some etag (take (length v - 2) (drop 1 v)) (sliced 1 2 v) _ (ground arith)
      (is_tag-same etag _ _ (sliced-weak_tag etag))

pub header-set_header :
    (key value : Bytes) (h : Headers) → header key (set_header key value h) ≡ value
unfolding header
header-set_header key value h =
    header_or-set_header key value key [] h ∙ rw (same_key_refl key) refl

-- For a request whose If-Match or If-None-Match header is set to the tag in quotes, or to the same
-- as a weak tag, ifMatch and ifNoneMatch hold of the tag.
if_match-set_header :
    (etag : Bytes) (h : Headers)
    → (if_match etag (set_header (codes "If-Match") (strong_tag etag) h) ≡ some true)
      × (if_match etag (set_header (codes "If-Match") (weak_tag etag) h) ≡ some true)
      × (if_none_match etag (set_header (codes "If-None-Match") (strong_tag etag) h) ≡ some true)
      × (if_none_match etag (set_header (codes "If-None-Match") (weak_tag etag) h) ≡ some true)
unfolding if_match if_none_match
if_match-set_header etag h = (
  ap (match_or true etag) (header-set_header (codes "If-Match") (strong_tag etag) h)
      ∙ matches-strong_tag etag,
  ap (match_or true etag) (header-set_header (codes "If-Match") (weak_tag etag) h)
      ∙ matches-weak_tag etag,
  ap (match_or false etag) (header-set_header (codes "If-None-Match") (strong_tag etag) h)
      ∙ matches-strong_tag etag,
  ap (match_or false etag) (header-set_header (codes "If-None-Match") (weak_tag etag) h)
      ∙ matches-weak_tag etag,
)

-- For a request whose header is set to a single byte, such as the asterisk that stands for any tag,
-- ifMatch and ifNoneMatch slice with a negative length, whatever the tag.
if_match-asterisk :
    (etag : Bytes) (c : ℕ) (h : Headers)
    → (if_match etag (set_header (codes "If-Match") (c ∷ []) h) ≡ none)
      × (if_none_match etag (set_header (codes "If-None-Match") (c ∷ []) h) ≡ none)
unfolding if_match if_none_match
if_match-asterisk etag c h = (
  ap (match_or true etag) (header-set_header (codes "If-Match") (c ∷ []) h),
  ap (match_or false etag) (header-set_header (codes "If-None-Match") (c ∷ []) h),
)
