-- ===== src/Headers.antt =====
-- The header fields of requests and responses: Cutelyst/headers.cpp. Names are ASCII, for which
-- every comparison of the code with Qt::CaseInsensitive folds A to Z.
pub mod Laws
pub mod Keys
pub mod Etags
pub mod Authorization
mod Tests
use cutelyst.Common.{
  Bytes, List, [], ◌∷◌, ◌++◌, Bool, true, false, ◌||◌, if◌then◌else◌, same_key, map,
}

-- m_data; an entry is a HeaderKeyValue.
abbrev pub Headers : Type 0
Headers = List (Bytes × Bytes)

-- findHeaderConst: the entries from the first with the key on; empty stands for `end()`.
pub find_header_const : Bytes → Headers → Headers
find_header_const key [] = []
find_header_const key ((k, v) ∷ t) = if same_key key k then (k, v) ∷ t else find_header_const key t

-- header(key, defaultValue); header(key) has the empty default.
abbrev value_at : Headers → Bytes → Bytes
value_at [] default_value = default_value
value_at ((k, v) ∷ t) default_value = v

pub header_or : Bytes → Bytes → Headers → Bytes
header_or key default_value h = value_at (find_header_const key h) default_value

pub header : Bytes → Headers → Bytes
header key h = header_or key [] h

-- headers(key): `++result` from the first match to the end.
pub headers : Bytes → Headers → List Bytes
headers key h = map (λ f. f.1) (find_header_const key h)

abbrev any_left : Headers → Bool
any_left [] = false
any_left (_ ∷ _) = true

pub contains : Bytes → Headers → Bool
contains key h = any_left (find_header_const key h)

-- removeHeader: removeIf on the matching entries.
pub remove_header : Bytes → Headers → Headers
remove_header key [] = []
remove_header key ((k, v) ∷ t) =
    let rest = remove_header key t in if same_key key k then rest else (k, v) ∷ rest

-- setHeader: the first matching entry takes the value, the ones behind it go; else append.
pub set_header : Bytes → Bytes → Headers → Headers
set_header key value [] = (key, value) ∷ []
set_header key value ((k, v) ∷ t) =
    let later = set_header key value t in
    if same_key key k then (k, value) ∷ remove_header key t else (k, v) ∷ later

pub push_header : Bytes → Bytes → Headers → Headers
push_header key value h = h ++ ((key, value) ∷ [])

-- `std::ranges::any_of(ret, …)` in keys().
pub any_key : Bytes → List Bytes → Bool
any_key key [] = false
any_key key (k ∷ ks) = same_key key k || any_key key ks

-- The loop of keys().
pub keys_loop : List Bytes → Headers → List Bytes
keys_loop ret [] = ret
keys_loop ret ((k, v) ∷ t) = keys_loop (if any_key k ret then ret else ret ++ (k ∷ [])) t

pub keys : Headers → List Bytes
keys h = keys_loop [] h
