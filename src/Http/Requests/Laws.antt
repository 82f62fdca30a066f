-- ===== src/Http/Requests/Laws.antt =====
-- What ProtocolHttp::parseMethod and ProtocolHttp::parseHeader read from lines that a client writes.
use cutelyst.Common.{
  ℕ, ◌<◌, ◌==◌, Bytes, [], ◌∷◌, ◌++◌, length, Bool, true, false, ◌||◌, Option, none, some, All, ◌≡◌,
  refl, arith,
}
use cutelyst.Common.Int.{ℤ, pos, negsuc}
use cutelyst.EngineRequest.{set_path}
use cutelyst.Headers.{push_header}
use cutelyst.Http.Requests.{
  ProtoRequest, until, skip, is_blank, ends_path, query_of, parse_method, is_negative, is_not_set,
  with_length, note_header, parse_header,
}

until-append :
    (stop : ℕ → Bool) (word : Bytes) (x : ℕ) (rest : Bytes)
    → All (λ c. stop c ≡ false) word
    → stop x ≡ true
    → until stop (word ++ (x ∷ rest)) ≡ (word, x ∷ rest)
unfolding until
until-append stop [] x rest h e = rw e
until-append stop (c ∷ word) x rest (hc, h) e = rw (hc, until-append stop word x rest h e)

until-All :
    (stop : ℕ → Bool) (word : Bytes) → All (λ c. stop c ≡ false) word → until stop word ≡ (word, [])
unfolding until
until-All stop [] h = refl
until-All stop (c ∷ word) (hc, h) = rw (hc, until-All stop word h)

-- The words of a request line.
abbrev pub IsWord : Bytes → Type 0
IsWord s = All (λ c. is_blank c ≡ false) s

abbrev pub IsPathWord : Bytes → Type 0
IsPathWord s = All (λ c. ends_path c ≡ false) s

-- What a client writes: the path, and a query behind a question mark.
abbrev pub target : Bytes → Option Bytes → Bytes → Bytes
target path none rest = path ++ rest
target path (some query) rest = path ++ (0x3f ∷ query ++ rest)

abbrev pub request_line : Bytes → Bytes → Option Bytes → Bytes → Bytes
request_line method path query protocol = method ++ (0x20 ∷ target path query (0x20 ∷ protocol))

abbrev pub query_bytes : Option Bytes → Bytes
query_bytes none = []
query_bytes (some query) = query

skip-word : (s : Bytes) → IsWord s → skip is_blank (0x20 ∷ s) ≡ s
unfolding until
skip-word [] h = refl
skip-word (c ∷ s) (hc, h) = rw (hc, skip)

skip-target :
    (path : Bytes) (query : Option Bytes) (rest : Bytes)
    → IsPathWord path
    → 0 < length path
    → skip is_blank (0x20 ∷ target path query rest) ≡ target path query rest
unfolding until
skip-target [] query rest h lt = absurd (omega arith)
skip-target (c ∷ path) none rest (hc, h) lt = ground arith
skip-target (c ∷ path) (some query) rest (hc, h) lt = ground arith

until-target :
    (path : Bytes) (query : Option Bytes) (rest : Bytes)
    → IsPathWord path
    → until ends_path (target path query (0x20 ∷ rest)) ≡ (path, target [] query (0x20 ∷ rest))
until-target path none rest h = until-append ends_path path 0x20 rest h refl
until-target path (some query) rest h =
    until-append ends_path path 0x3f (query ++ (0x20 ∷ rest)) h refl

query_of-target :
    (query : Option Bytes) (rest : Bytes)
    → IsWord (query_bytes query)
    → query_of (target [] query (0x20 ∷ rest)) ≡ (query_bytes query, 0x20 ∷ rest)
unfolding query_of
query_of-target none rest h = refl
query_of-target (some query) rest h = until-append is_blank query 0x20 rest h refl

-- A request line is read back into its parts.
pub parse_method-request_line :
    (from_utf8 : Bytes → Bytes) (method path : Bytes) (query : Option Bytes) (protocol : Bytes)
    (r : ProtoRequest)
    → IsWord method
    → IsPathWord path
    → 0 < length path
    → IsWord (query_bytes query)
    → IsWord protocol
    → parse_method from_utf8 (request_line method path query protocol) r ≡ record r {
      method = method;
      path = set_path from_utf8 path;
      query = query_bytes query;
      protocol = protocol;
    }
unfolding parse_method
parse_method-request_line from_utf8 method path query protocol r hm hp lt hq hv =
    rw (until-append is_blank method 0x20 (target path query (0x20 ∷ protocol)) hm refl) (
      rw (skip-target path query (0x20 ∷ protocol) hp lt) (
        rw (until-target path query protocol hp) (
          rw (query_of-target query protocol hq)
            (rw (skip-word protocol hv) (rw (until-All is_blank protocol hv))))))

-- A header line is read back into its key and value, whatever the chain of tests makes of them.
abbrev pub IsKey : Bytes → Type 0
IsKey key = All (λ c. (c == 0x3a) ≡ false) key

abbrev pub is_gap : ℕ → Bool
is_gap c = c == 0x3a || c == 0x20

-- A value that begins neither with a colon nor with a blank.
abbrev pub IsValue : Bytes → Type 0
IsValue [] = Unit
IsValue (c ∷ s) = is_gap c ≡ false

abbrev pub header_line_of : Bytes → Bytes → Bytes
header_line_of key value = key ++ (0x3a ∷ 0x20 ∷ value)

skip-gap : (value : Bytes) → IsValue value → skip is_gap (0x3a ∷ 0x20 ∷ value) ≡ value
unfolding until
skip-gap [] h = refl
skip-gap (c ∷ s) h = rw (h, skip)

pub parse_header-header_line_of :
    (to_long_long : Bytes → Option ℤ) (using_frontend_proxy : Bool) (key value : Bytes)
    (r : ProtoRequest)
    → IsKey key
    → IsValue value
    → parse_header to_long_long using_frontend_proxy (header_line_of key value) r ≡ (
        let r' = note_header to_long_long using_frontend_proxy key value r in
        record r' { headers = push_header key value r'.headers })
unfolding parse_header
parse_header-header_line_of to_long_long proxy key value r hk hv =
    rw (until-append (λ c. c == 0x3a) key 0x3a (0x20 ∷ value) hk refl) (rw (skip-gap value hv))

module _ (to_long_long : Bytes → Option ℤ) where
  with_length-first :
      (z : Option ℤ) (r : ProtoRequest)
      → (is_negative r.content_length ≡ true)
      → ((with_length z r).header_connection ≡ r.header_connection)
        × ((with_length z r).header_host ≡ r.header_host)
        × ((with_length z r).server_address ≡ r.server_address)
  with_length-first (some (pos n)) r h = (refl, refl, refl)
  with_length-first (some (negsuc n)) r h = (refl, refl, refl)
  with_length-first none r h = (refl, refl, refl)

  note_header-first :
      (proxy : Bool) (key value : Bytes) (r : ProtoRequest)
      → let r' = note_header to_long_long proxy key value r in
        (is_negative r.content_length ≡ false → r'.content_length ≡ r.content_length)
        × (is_not_set r.header_connection ≡ false → r'.header_connection ≡ r.header_connection)
        × (r.header_host ≡ true → proxy ≡ false → r'.server_address ≡ r.server_address)
  unfolding note_header
  note_header-first proxy key value r = ground (arith, with_length-first (to_long_long value) r)

  -- Once the length, the connection and the host are known, no further header line changes them,
  -- unless a proxy in front is believed.
  parse_header-first :
      (line : Bytes) (r : ProtoRequest)
      → is_negative r.content_length ≡ false
      → is_not_set r.header_connection ≡ false
      → r.header_host ≡ true
      → ((parse_header to_long_long false line r).content_length ≡ r.content_length)
        × ((parse_header to_long_long false line r).header_connection ≡ r.header_connection)
        × ((parse_header to_long_long false line r).server_address ≡ r.server_address)
  unfolding parse_header
  parse_header-first line r has_length has_connection has_host =
      let (key, behind) = until (λ c. c == 0x3a) line in
      let (f, g, h) = note_header-first false key (skip is_gap behind) r in
      (f has_length, g has_connection, h has_host refl)
