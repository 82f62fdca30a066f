-- ===== src/Hpack/Tables.antt =====
-- The static tables of Cutelyst/Server/hpack_p.cpp.
use cutelyst.Common.{ℕ, Bytes, List, [], ◌∷◌, codes}

-- hpackStaticHeadersCode: the second byte of each code, whose first byte is 0x0f.
abbrev pub static_headers_code : List (Bytes × ℕ)
static_headers_code =
    (codes "ACCEPT_CHARSET", 0x00)
    ∷ (codes "ACCEPT_LANGUAGE", 0x02)
    ∷ (codes "ACCEPT_RANGES", 0x03)
    ∷ (codes "ACCEPT", 0x04)
    ∷ (codes "ACCESS_CONTROL_ALLOW_ORIGIN", 0x05)
    ∷ (codes "AGE", 0x06)
    ∷ (codes "ALLOW", 0x07)
    ∷ (codes "AUTHORIZATION", 0x08)
    ∷ (codes "CACHE_CONTROL", 0x09)
    ∷ (codes "CONTENT_DISPOSITION", 0x0a)
    ∷ (codes "CONTENT_ENCODING", 0x0b)
    ∷ (codes "CONTENT_LANGUAGE", 0x0c)
    ∷ (codes "CONTENT_LENGTH", 0x0d)
    ∷ (codes "CONTENT_LOCATION", 0x0e)
    ∷ (codes "CONTENT_RANGE", 0x0f)
    ∷ (codes "CONTENT_TYPE", 0x10)
    ∷ (codes "COOKIE", 0x11)
    ∷ (codes "DATE", 0x12)
    ∷ (codes "ETAG", 0x13)
    ∷ (codes "EXPECT", 0x14)
    ∷ (codes "EXPIRES", 0x15)
    ∷ (codes "FROM", 0x16)
    ∷ (codes "HOST", 0x17)
    ∷ (codes "IF_MATCH", 0x18)
    ∷ (codes "IF_MODIFIED_SINCE", 0x19)
    ∷ (codes "IF_NONE_MATCH", 0x1a)
    ∷ (codes "IF_RANGE", 0x1b)
    ∷ (codes "IF_UNMODIFIED_SINCE", 0x1c)
    ∷ (codes "LAST_MODIFIED", 0x1d)
    ∷ (codes "LINK", 0x1e)
    ∷ (codes "LOCATION", 0x1f)
    ∷ (codes "MAX_FORWARDS", 0x20)
    ∷ (codes "PROXY_AUTHENTICATE", 0x21)
    ∷ (codes "PROXY_AUTHORIZATION", 0x22)
    ∷ (codes "RANGE", 0x23)
    ∷ (codes "REFERER", 0x24)
    ∷ (codes "REFRESH", 0x25)
    ∷ (codes "RETRY_AFTER", 0x26)
    ∷ (codes "SERVER", 0x27)
    ∷ (codes "SET_COOKIE", 0x28)
    ∷ (codes "STRICT_TRANSPORT_SECURITY", 0x29)
    ∷ (codes "TRANSFER_ENCODING", 0x2a)
    ∷ (codes "USER_AGENT", 0x2b)
    ∷ (codes "VARY", 0x2c)
    ∷ (codes "VIA", 0x2d)
    ∷ (codes "WWW_AUTHENTICATE", 0x2e)
    ∷ []

-- hpackStaticHeaders.
abbrev pub static_headers : List (Bytes × Bytes)
static_headers =
    ([], [])
    ∷ (codes ":authority", [])
    ∷ (codes ":method", codes "GET")
    ∷ (codes ":method", codes "POST")
    ∷ (codes ":path", codes "/")
    ∷ (codes ":path", codes "/index.html")
    ∷ (codes ":scheme", codes "http")
    ∷ (codes ":scheme", codes "https")
    ∷ (codes ":status", codes "200")
    ∷ (codes ":status", codes "204")
    ∷ (codes ":status", codes "206")
    ∷ (codes ":status", codes "304")
    ∷ (codes ":status", codes "400")
    ∷ (codes ":status", codes "404")
    ∷ (codes ":status", codes "500")
    ∷ (codes "accept-charset", [])
    ∷ (codes "accept-encoding", codes "gzip, deflate")
    ∷ (codes "accept-language", [])
    ∷ (codes "accept-ranges", [])
    ∷ (codes "accept", [])
    ∷ (codes "access-control-allow-origin", [])
    ∷ (codes "age", [])
    ∷ (codes "allow", [])
    ∷ (codes "authorization", [])
    ∷ (codes "cache-control", [])
    ∷ (codes "content-disposition", [])
    ∷ (codes "content-encoding", [])
    ∷ (codes "content-language", [])
    ∷ (codes "content-length", [])
    ∷ (codes "content-location", [])
    ∷ (codes "content-range", [])
    ∷ (codes "content-type", [])
    ∷ (codes "cookie", [])
    ∷ (codes "date", [])
    ∷ (codes "etag", [])
    ∷ (codes "expect", [])
    ∷ (codes "expires", [])
    ∷ (codes "from", [])
    ∷ (codes "host", [])
    ∷ (codes "if-match", [])
    ∷ (codes "if-modified-since", [])
    ∷ (codes "if-none-match", [])
    ∷ (codes "if-range", [])
    ∷ (codes "if-unmodified-since", [])
    ∷ (codes "last-modified", [])
    ∷ (codes "link", [])
    ∷ (codes "location", [])
    ∷ (codes "max-forwards", [])
    ∷ (codes "proxy-authenticate", [])
    ∷ (codes "proxy-authorization", [])
    ∷ (codes "range", [])
    ∷ (codes "referer", [])
    ∷ (codes "refresh", [])
    ∷ (codes "retry-after", [])
    ∷ (codes "server", [])
    ∷ (codes "set-cookie", [])
    ∷ (codes "strict-transport-security", [])
    ∷ (codes "transfer-encoding", [])
    ∷ (codes "user-agent", [])
    ∷ (codes "vary", [])
    ∷ (codes "via", [])
    ∷ (codes "www-authenticate", [])
    ∷ []
