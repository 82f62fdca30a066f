-- ===== src/Http/Parse/Heads.antt =====
-- How ProtocolHttp::parse reads the head of a request, line by line.
use cutelyst.Common.{
  ℕ, suc, ◌+◌, ◌-◌, Bytes, List, [], ◌∷◌, ◌++◌, length, take, append_assoc, ◌≡◌, sym, ◌∙◌, ap, ap₂,
  arith, length-append, drop-length-append, take-length-append, All, All-append,
}
use cutelyst.Http.Lines.Laws.{IsLine, crlf, crlf_index_in-line}
use cutelyst.Headers.{push_header}
use cutelyst.Http.Requests.{ProtoRequest, note_header}
use cutelyst.Http.Requests.Laws.{IsKey, IsValue, header_line_of, parse_header-header_line_of}
use cutelyst.Http.Parse.{header_line, Connection, Server, go_on, take_line, end_of_head, line_loop}
use cutelyst.Http.Parse.Splits.{proceed, line_loop-line}

-- The header fields that a client writes, and the blank line.
abbrev pub fields : List (Bytes × Bytes) → Bytes → Bytes
fields [] rest = crlf rest
fields ((key, value) ∷ hs) rest = header_line_of key value ++ crlf (fields hs rest)

abbrev pub IsField : Bytes × Bytes → Type 0
IsField (key, value) = IsKey key × IsLine key × IsValue value × IsLine value

-- At the start of a line: `seen` stands before it in the buffer, `text` from it on.
abbrev pub standing : Bytes → Bytes → Connection → Connection
standing seen text c = record c {
  buffer = seen ++ text;
  last = length seen;
  begin_line = length seen;
}

-- The same among the header lines of the request `r`.
abbrev pub reading : Bytes → Bytes → ProtoRequest → Connection → Connection
reading seen text r c = standing seen text (record c { conn_state = header_line; request = r })

-- The rounds that the header lines take.
abbrev pub rounds : List (Bytes × Bytes) → ℕ → ℕ
rounds [] fuel = suc fuel
rounds (h ∷ hs) fuel = suc (rounds hs fuel)

module _ (server : Server) where
  abbrev noted : Bytes → Bytes → ProtoRequest → ProtoRequest
  noted key value r =
      let r' = note_header server.to_long_long server.using_frontend_proxy key value r in
      record r' { headers = push_header key value r'.headers }

  -- What the fields make of the request.
  abbrev pub read_fields : List (Bytes × Bytes) → ProtoRequest → ProtoRequest
  read_fields [] r = r
  read_fields ((key, value) ∷ hs) r = read_fields hs (noted key value r)

  joined :
      (seen line rest : Bytes) → (seen ++ (line ++ crlf [])) ++ rest ≡ seen ++ (line ++ crlf rest)
  joined seen line rest =
      append_assoc seen (line ++ crlf []) rest
      ∙ ap (λ (t : Bytes). seen ++ t) (append_assoc line (crlf []) rest)

  take_line-field :
      (key value : Bytes)
      → IsKey key
      → IsValue value
      → (c : Connection)
      → take_line server header_line (header_line_of key value) c
        ≡ go_on (record c { request = noted key value c.request })
  unfolding take_line
  take_line-field [] value hk hv c =
      ap (λ (r : ProtoRequest). go_on (record c { request = r }))
        (parse_header-header_line_of server.to_long_long server.using_frontend_proxy [] value
          c.request hk hv)
  take_line-field (x ∷ key) value hk hv c =
      ap (λ (r : ProtoRequest). go_on (record c { request = r }))
        (parse_header-header_line_of server.to_long_long server.using_frontend_proxy (x ∷ key) value
          c.request hk hv)

  pub standing-line :
      (fuel : ℕ) (seen line rest : Bytes) (c : Connection)
      → IsLine line
      → line_loop server (suc fuel) (standing seen (line ++ crlf rest) c)
        ≡ proceed server fuel
            (take_line server c.conn_state line (standing (seen ++ (line ++ crlf [])) rest c))
  standing-line fuel seen line rest c h =
      let whole = seen ++ (line ++ crlf rest) in
      let size = length-append {0} seen (line ++ crlf rest) in
      let line_size = length-append {0} line (crlf rest) in
      line_loop-line server fuel (standing seen (line ++ crlf rest) c) (length seen + length line)
        (omega arith) (crlf_index_in-line seen line rest h)
      ∙ ap₂
          (λ (l : Bytes) (c' : Connection).
            proceed server fuel (take_line server c.conn_state l c'))
          (ap₂ (λ (n : ℕ) (t : Bytes). take n t) {x = length seen + length line - length seen}
              (omega arith) (drop-length-append seen (line ++ crlf rest))
            ∙ take-length-append line (crlf rest))
          (ap₂ (λ (t : Bytes) (n : ℕ). record c { buffer = t; last = n; begin_line = n })
            (sym (joined seen line rest))
            (omega
              (arith, length-append {0} seen (line ++ crlf []), length-append {0} line (crlf []))))

  -- The header lines and the blank line, at any point of the buffer.
  pub line_loop-fields :
      (hs : List (Bytes × Bytes)) (fuel : ℕ) (seen rest : Bytes) (r : ProtoRequest) (c : Connection)
      → All IsField hs
      → line_loop server (rounds hs fuel) (reading seen (fields hs rest) r c)
        ≡ proceed server fuel (
            end_of_head server
              (read_fields hs r).content_length
              (reading (seen ++ fields hs []) rest (read_fields hs r) c))
  unfolding take_line
  line_loop-fields [] fuel seen rest r c h =
      standing-line fuel seen [] rest (record c { conn_state = header_line; request = r }) tt
  line_loop-fields ((key, value) ∷ hs) fuel seen rest r c ((hk, lk, hv, lv), h) =
      let line = header_line_of key value in
      let seen' = seen ++ (line ++ crlf []) in
      standing-line (rounds hs fuel) seen line (fields hs rest)
        (record c { conn_state = header_line; request = r })
        (All-append _ key (0x3a ∷ 0x20 ∷ value) lk (omega arith, (omega arith, lv)))
      ∙ ap (proceed server (rounds hs fuel))
          (take_line-field key value hk hv (reading seen' (fields hs rest) r c))
      ∙ line_loop-fields hs fuel seen' rest (noted key value r) c h
      ∙ ap
          (λ (t : Bytes). proceed server fuel (
            end_of_head server (read_fields hs (noted key value r)).content_length
              (reading t rest (read_fields hs (noted key value r)) c)))
          (joined seen line (fields hs []))
