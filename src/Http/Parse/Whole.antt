-- ===== src/Http/Parse/Whole.antt =====
-- A whole request in one read of ProtocolHttp::parse.
use cutelyst.Common.{
  ℕ, zero, suc, append-nil, Bool-cases, inl, inr, if◌then◌else◌, ◌+◌, ◌-◌, ◌≤◌, ◌<◌, ltb, Bytes,
  List, [], ◌∷◌, ◌++◌, length, drop, take, Bool, true, false, some, ◌≡◌, refl, ◌∙◌, ap, ap₂, arith,
  length-append, drop-length-append, take-of-le, All,
}
use cutelyst.Common.Int.{ℤ, pos, negsuc}
use cutelyst.Http.Lines.Laws.{IsLine, crlf}
use cutelyst.Http.Requests.{not_set, keep, close, upgrade, ProtoRequest, parse_method}
use cutelyst.Http.Parse.{
  ParserState, method_line, content_body, Event, processed, connection_close, Answer, finished,
  later, upgraded, Connection, Server, loop_if, take_line, reset_data, processing_finished,
  answered, process_request, start_body, end_of_head, line_loop, parse, is_body, fill,
}
use cutelyst.Http.Parse.Laws.{unseen, process_request-unseen}
use cutelyst.Http.Parse.Splits.{arrive, proceed, line_loop-done, parse-ready, fill-io}
use cutelyst.Http.Parse.Heads.{
  fields, IsField, standing, reading, rounds, read_fields, standing-line, line_loop-fields,
}

-- A connection that has just been made, or whose request was answered and nothing more was sent.
pub record IsFresh (c : Connection) : Type 0 where
  pub nothing_to_read : c.io ≡ []
  pub nothing_read : c.buffer ≡ []
  pub at_the_start : (c.last ≡ 0) × (c.begin_line ≡ 0)
  pub not_async : c.async ≡ false
  pub no_line_yet : c.conn_state ≡ method_line

rounds-eq : (hs : List (Bytes × Bytes)) (fuel : ℕ) → rounds hs fuel ≡ suc (length hs + fuel)
rounds-eq [] fuel = omega arith
rounds-eq (h ∷ hs) fuel = omega (arith, rounds-eq hs fuel)

length-fields : (hs : List (Bytes × Bytes)) (rest : Bytes) → length hs + 2 ≤ length (fields hs rest)
length-fields [] rest = omega arith
length-fields ((key, value) ∷ hs) rest = omega (
  arith,
  length-fields hs rest,
  length-append {0} (key ++ (0x3a ∷ 0x20 ∷ value)) (crlf (fields hs rest)),
)

-- No body is announced.
abbrev pub HasNoLength : ℤ → Type 0
HasNoLength (pos (suc n)) = ⊥
HasNoLength (pos zero) = Unit
HasNoLength (negsuc n) = Unit

-- The connection with the body read.
abbrev pub with_body : Bytes → Bytes → ProtoRequest → Connection → Connection
with_body seen body r c = record (reading seen body r c) {
  conn_state = content_body;
  body = some body;
  last = length seen + length body;
}

-- What is seen of an answer: the connection is closed, if the socket is still connected then.
abbrev pub closing_events : Answer → List Event
closing_events (finished close true) = connection_close ∷ []
closing_events _ = []

-- A request as it is sent.
abbrev pub request_text : Bytes → List (Bytes × Bytes) → Bytes → Bytes
request_text line hs body = line ++ crlf (fields hs body)

module _ (server : Server) where
  kept-events :
      (c : Connection)
      → (if ltb c.last (length c.buffer)
          then record (reset_data server c) { buffer = drop c.last c.buffer }
          else reset_data server c).events
        ≡ c.events ++ []
  unfolding reset_data
  kept-events c = elim (Bool-cases (ltb c.last (length c.buffer))) [
    | inl more ↦ rw (more, append-nil) refl
    | inr all ↦ rw (all, append-nil) refl
  ]

  answered-events :
      (a : Answer) (c : Connection) → (answered server a c).0.events ≡ c.events ++ closing_events a
  unfolding processing_finished
  answered-events (finished close true) c = refl
  answered-events (finished not_set true) c =
      kept-events (record c { request = record c.request { header_connection = not_set } })
  answered-events (finished keep true) c =
      kept-events (record c { request = record c.request { header_connection = keep } })
  answered-events (finished upgrade true) c =
      kept-events (record c { request = record c.request { header_connection = upgrade } })
  answered-events (finished close false) c = rw append-nil refl
  answered-events (finished not_set false) c = rw append-nil refl
  answered-events (finished keep false) c = rw append-nil refl
  answered-events (finished upgrade false) c = rw append-nil refl
  answered-events later c = rw append-nil refl
  answered-events upgraded c = rw append-nil refl

  -- The engine is given the request with its body, once.
  process_request-events :
      (c : Connection)
      → server.upgrade_h2c c.request ≡ false
      → (process_request server c).0.events
        ≡ (c.events ++ (processed c.request c.body ∷ []))
          ++ closing_events (server.answer c.request c.body)
  unfolding process_request
  process_request-events c no_h2c = rw no_h2c (answered-events (server.answer c.request c.body) _)

  loop_if-done :
      (r : Connection × Bool) (fuel : ℕ)
      → unseen r.0 ≡ 0
      → proceed server (suc fuel) (loop_if r) ≡ some r.0
  loop_if-done (c, true) fuel h = line_loop-done server fuel c (omega arith)
  loop_if-done (c, false) fuel h = refl

  pub processed-done :
      (c : Connection) (fuel : ℕ)
      → unseen c ≡ 0
      → proceed server (suc fuel) (loop_if (process_request server c))
        ≡ some (process_request server c).0
  processed-done c fuel h =
      loop_if-done (process_request server c) fuel (omega (arith, process_request-unseen server c))

  -- The request that the engine is given.
  abbrev pub request_of : Bytes → List (Bytes × Bytes) → ProtoRequest → ProtoRequest
  request_of line hs r =
      read_fields server hs
        (record (parse_method server.from_utf8 line r) { content_length = negsuc 0; headers = [] })

  pub end_of_head-none :
      (z : ℤ) (c : Connection)
      → HasNoLength z
      → end_of_head server z c ≡ loop_if (process_request server c)
  unfolding end_of_head
  end_of_head-none (pos (suc n)) c h = elim h [ ]
  end_of_head-none (pos zero) c h = refl
  end_of_head-none (negsuc n) c h = refl

  start_body-whole :
      (seen body : Bytes) (r : ProtoRequest) (c : Connection)
      → server.can_create_body (length body) ≡ true
      → start_body server (length body) (reading seen body r c)
        ≡ loop_if (process_request server (with_body seen body r c))
  unfolding start_body
  start_body-whole seen body r c made =
      let taken : ◌≡◌ {A = Bytes} (take (length body) (drop (length seen) (seen ++ body))) body =
        ap (λ (t : Bytes). take (length body) t) (drop-length-append seen body)
        ∙ take-of-le (length body) body (omega arith) in
      let all : ltb (length body) (length body) ≡ false = ground arith in rw taken (rw (made, all))

  end_of_head-some :
      (n : ℕ) (c : Connection) → 0 < n → end_of_head server (pos n) c ≡ start_body server n c
  unfolding end_of_head
  end_of_head-some zero c h = absurd (omega arith)
  end_of_head-some (suc n) c h = refl

  -- The connection behind the head of a request.
  abbrev pub behind_head : Bytes → List (Bytes × Bytes) → Bytes → Connection → Connection
  behind_head line hs body c =
      reading ((line ++ crlf []) ++ fields hs []) body (request_of line hs c.request)
        (record c { io = [] })

  module _ (c : Connection) (line : Bytes) (hs : List (Bytes × Bytes)) (body : Bytes)
      (fresh : IsFresh c) (reads : server.read_fails ≡ false) (one_line : IsLine line)
      (all_fields : All IsField hs)
      (room : length (request_text line hs body) ≤ server.buffer_size) where
    abbrev text : Bytes
    text = request_text line hs body

    filled : fill server (arrive text c) ≡ standing [] text (record c { io = [] })
    filled =
        ap (λ (i : Bytes). fill server (record c { io = i ++ text })) fresh.nothing_to_read
        ∙ fill-io server c text (omega (arith, ap (λ (t : Bytes). length t) fresh.nothing_read))
        ∙ ap (λ (b : Bytes). record c { buffer = b ++ text; io = [] }) fresh.nothing_read
        ∙ ap₂ (λ l b. record c { buffer = text; io = []; last = l; begin_line = b })
            fresh.at_the_start.0 fresh.at_the_start.1

    pub parse-head :
        (fuel : ℕ) × (parse server (arrive text c)
          ≡ proceed server (suc (suc fuel)) (
              end_of_head server
                (request_of line hs c.request).content_length
                (behind_head line hs body c)))
    unfolding take_line
    parse-head =
        let fuel : ℕ = length text - length hs - 3 in
        let enough : length text ≡ rounds hs (suc (suc fuel)) = omega (
          arith,
          rounds-eq hs (suc (suc fuel)),
          length-fields hs body,
          length-append {0} line (crlf (fields hs body)),
        ) in
        (
          fuel,
          parse-ready server (arrive text c) reads fresh.not_async (ap is_body fresh.no_line_yet)
              ∙ ap (λ (d : Connection). line_loop server (suc (length d.buffer)) d) filled
              ∙ ap (λ (n : ℕ). line_loop server (suc n) (standing [] text (record c { io = [] })))
                  enough
              ∙ standing-line server (rounds hs (suc (suc fuel))) [] line (fields hs body)
                  (record c { io = [] }) one_line
              ∙ ap
                  (λ (s : ParserState). proceed server (rounds hs (suc (suc fuel))) (
                    take_line server s line
                      (standing (line ++ crlf []) (fields hs body) (record c { io = [] }))))
                  fresh.no_line_yet
              ∙ line_loop-fields server hs (suc (suc fuel)) (line ++ crlf []) body
                  (record (parse_method server.from_utf8 line c.request) {
                    content_length = negsuc 0;
                    headers = [];
                  })
                  (record c { io = [] }) all_fields,
        )

    -- A request without a body, read whole, is handed to the engine.
    pub parse-no_body :
        body ≡ []
        → HasNoLength (request_of line hs c.request).content_length
        → parse server (arrive (request_text line hs body) c)
          ≡ some (process_request server (behind_head line hs body c)).0
    parse-no_body empty none_given =
        let (fuel, e) = parse-head in
        e
        ∙ ap (proceed server (suc (suc fuel))) (
            end_of_head-none (request_of line hs c.request).content_length
              (behind_head line hs body c) none_given)
        ∙ processed-done (behind_head line hs body c) (suc fuel) (
            omega (
              arith,
              ap (λ (t : Bytes). length t) empty,
              length-append {0} ((line ++ crlf []) ++ fields hs []) body,
            ))

    parse-with_body :
        0 < length body
        → (request_of line hs c.request).content_length ≡ pos (length body)
        → server.can_create_body (length body) ≡ true
        → parse server (arrive (request_text line hs body) c)
          ≡ some
              (process_request server (
                with_body
                  ((line ++ crlf []) ++ fields hs [])
                  body
                  (request_of line hs c.request)
                  (record c { io = [] }))).0
    parse-with_body some_body given made =
        let (fuel, e) = parse-head in
        let seen = (line ++ crlf []) ++ fields hs [] in
        let r = request_of line hs c.request in
        e
        ∙ ap
            (λ z.
              proceed server (suc (suc fuel)) (end_of_head server z (behind_head line hs body c)))
            given
        ∙ ap (proceed server (suc (suc fuel))) (
            end_of_head-some (length body) (behind_head line hs body c) some_body
            ∙ start_body-whole seen body r (record c { io = [] }) made)
        ∙ processed-done (with_body seen body r (record c { io = [] })) (suc fuel)
            (omega (arith, length-append {0} seen body))

    -- A request that comes whole in one read, on a connection without anything before it, whose
    -- lines hold no carriage return, whose field names hold no colon and whose values begin neither
    -- with a colon nor with a blank, and whose Content-Length is that of its body, at least 1, is
    -- handed to the engine once, as the request that parseMethod and parseHeader make of its lines
    -- and with that body; besides, the connection is closed if the answer says so on a connected
    -- socket. A body can be made, the request fits the buffer, and it is not upgraded to HTTP/2.
    pub parse-body :
        0 < length body
        → (request_of line hs c.request).content_length ≡ pos (length body)
        → server.can_create_body (length body) ≡ true
        → server.upgrade_h2c (request_of line hs c.request) ≡ false
        → (c' : Connection) × (parse server (arrive (request_text line hs body) c) ≡ some c')
          × (c'.events
              ≡ (c.events ++ (processed (request_of line hs c.request) (some body) ∷ []))
                ++ closing_events (server.answer (request_of line hs c.request) (some body)))
    parse-body some_body given made no_h2c =
        let whole =
          with_body ((line ++ crlf []) ++ fields hs []) body (request_of line hs c.request)
            (record c { io = [] }) in
        (
          (process_request server whole).0,
          parse-with_body some_body given made,
          process_request-events whole no_h2c,
        )
