-- ===== src/FastCgi/Params/Laws.antt =====
-- What parseHeaders of Cutelyst/Server/protocolfastcgi.cpp makes of the pairs that a web server writes.
use cutelyst.Common.{
  ℕ, zero, suc, ◌-◌, ◌<◌, ◌≤◌, Bytes, [], ◌∷◌, ◌++◌, Bool, true, not, ◌||◌, ltb, leb, length, drop,
  take, codes, All, ◌≡◌, refl, ap, arith, length-drop, Bool-cases, inl, inr,
}
use cutelyst.Http.Requests.{ProtoRequest}
use cutelyst.Multipart.Boundary.{is_prefix}
use cutelyst.FastCgi.Params.{Readers, note_param, note_variable, add_field}

-- The name is compared with bytes of the key only, or differs from the key before its end.
abbrev pub settled : Bytes → Bytes → Bool
settled key name = not (is_prefix key name) || leb (length name) (length key)

-- A key that is not the beginning of a longer name that the code looks for.
abbrev pub IsKey : Bytes → Type 0
IsKey key =
    All (λ name. settled key name ≡ true)
      (codes "REQUEST_METHOD"
        ∷ codes "REQUEST_URI"
        ∷ codes "SERVER_PROTOCOL"
        ∷ codes "REMOTE_ADDR"
        ∷ codes "REMOTE_PORT"
        ∷ codes "CONTENT_TYPE"
        ∷ codes "CONTENT_LENGTH"
        ∷ codes "REQUEST_SCHEME"
        ∷ [])
    × ((leb (length key) 5 || settled (drop 5 key) (codes "HOST")) ≡ true)

is_prefix-settled :
    (name key rest : Bytes)
    → settled key name ≡ true
    → is_prefix name (key ++ rest) ≡ is_prefix name key
is_prefix-settled [] key rest h = refl
is_prefix-settled (x ∷ name) [] rest h = ground arith
is_prefix-settled (x ∷ name) (y ∷ key) rest h = ground (arith, is_prefix-settled name key rest)

is_prefix-long :
    (name key rest : Bytes)
    → length name ≤ length key
    → is_prefix name (key ++ rest) ≡ is_prefix name key
is_prefix-long [] key rest h = refl
is_prefix-long (x ∷ name) [] rest h = absurd (omega arith)
is_prefix-long (x ∷ name) (y ∷ key) rest h =
    ground (arith, is_prefix-long name key rest (omega arith))

drop-long : (n : ℕ) (key rest : Bytes) → n ≤ length key → drop n (key ++ rest) ≡ drop n key ++ rest
drop-long zero key rest h = refl
drop-long (suc n) [] rest h = absurd (omega arith)
drop-long (suc n) (x ∷ key) rest h = drop-long n key rest (omega arith)

take-long : (n : ℕ) (key rest : Bytes) → n ≤ length key → take n (key ++ rest) ≡ take n key
take-long zero key rest h = refl
take-long (suc n) [] rest h = absurd (omega arith)
take-long (suc n) (x ∷ key) rest h = ap (λ (t : Bytes). x ∷ t) (take-long n key rest (omega arith))

add_field-append :
    (key rest value : Bytes) (r : ProtoRequest)
    → 5 < length key
    → settled (drop 5 key) (codes "HOST") ≡ true
    → add_field (key ++ rest) (length key) value r ≡ add_field key (length key) value r
add_field-append key rest value r long h =
    let behind : drop 5 (key ++ rest) ≡ drop 5 key ++ rest = drop-long 5 key rest (omega arith) in
    let host = is_prefix-settled (codes "HOST") (drop 5 key) rest h in
    let name =
      take-long (length key - 5) (drop 5 key) rest (omega (arith, length-drop {0} 5 key)) in
    rw (behind) (rw (host, name) refl)

note_variable-append :
    (qt : Readers) (key rest value : Bytes) (r : ProtoRequest)
    → IsKey key
    → note_variable qt (key ++ rest) value r ≡ note_variable qt key value r
unfolding note_variable
note_variable-append qt key rest value r ((h1, (h2, (h3, (h4, (h5, (h6, (h7, (h8, _)))))))), hh) =
    rw
      (
        is_prefix-settled (codes "REQUEST_METHOD") key rest h1,
        is_prefix-settled (codes "REQUEST_URI") key rest h2,
        is_prefix-settled (codes "SERVER_PROTOCOL") key rest h3,
        is_prefix-settled (codes "REMOTE_ADDR") key rest h4,
        is_prefix-settled (codes "REMOTE_PORT") key rest h5,
        is_prefix-settled (codes "CONTENT_TYPE") key rest h6,
        is_prefix-settled (codes "CONTENT_LENGTH") key rest h7,
        is_prefix-settled (codes "REQUEST_SCHEME") key rest h8,
      )
      refl

-- Whatever stands behind such a key, it is taken for what it is.
pub note_param-append :
    (qt : Readers) (key rest value : Bytes) (r : ProtoRequest)
    → IsKey key
    → note_param qt (key ++ rest) (length key) value r ≡ note_param qt key (length key) value r
unfolding note_param
note_param-append qt key rest value r (h, hh) = elim (Bool-cases (ltb 5 (length key))) [
  | inr e ↦ rw e (note_variable-append qt key rest value r (h, hh))
  | inl e ↦
      let long : 5 < length key = ground arith in
      let host : settled (drop 5 key) (codes "HOST") ≡ true = ground arith in
      let found = is_prefix-long (codes "HTTP_") key rest (omega arith) in
      rw (e, found)
        (ground (
          arith,
          add_field-append key rest value r long host,
          note_variable-append qt key rest value r (h, hh),
        ))
]
