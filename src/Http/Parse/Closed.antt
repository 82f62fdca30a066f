-- ===== src/Http/Parse/Closed.antt =====
-- What ProtocolHttp::parse does behind a request that is answered with its connection to be closed.
use cutelyst.Common.{
  suc, ◌≤◌, Bytes, List, [], ◌∷◌, ◌++◌, length, append_assoc, true, false, some, ◌≡◌, refl, ◌∙◌, ap,
  arith, length-append, All,
}
use cutelyst.Http.Lines.Laws.{IsLine, crlf}
use cutelyst.Http.Requests.{HeaderConnection, ProtoRequest, close}
use cutelyst.Http.Parse.{
  Connection, Server, loop_if, take_line, process_request, parse, finished, processed,
  connection_close, processing_finished,
}
use cutelyst.Http.Parse.Splits.{arrive, proceed}
use cutelyst.Http.Parse.Heads.{fields, IsField, standing, standing-line}
use cutelyst.Http.Parse.Whole.{
  IsFresh, HasNoLength, request_text, request_of, behind_head, parse-head, processed-done,
  end_of_head-none,
}

abbrev closing : Connection → Connection
closing c = record c {
  events = (c.events ++ (processed c.request c.body ∷ [])) ++ (connection_close ∷ []);
  request = record c.request { header_connection = close };
}

module _ (server : Server) where
  -- What an answer leaves that closes the connection.
  process_request-close :
      (c : Connection)
      → server.upgrade_h2c c.request ≡ false
      → server.answer c.request c.body ≡ finished close true
      → process_request server c ≡ (closing c, true)
  unfolding process_request processing_finished
  process_request-close c no_h2c answers = rw (no_h2c, answers)

  -- Where the socket is not connected any more, nothing but the request is seen.
  process_request-gone :
      (c : Connection) (connection : HeaderConnection)
      → server.upgrade_h2c c.request ≡ false
      → server.answer c.request c.body ≡ finished connection false
      → (process_request server c).0.events ≡ c.events ++ (processed c.request c.body ∷ [])
  unfolding process_request processing_finished
  process_request-gone c connection no_h2c answers = rw (no_h2c, answers) refl

module _ (server : Server) (c : Connection) (line : Bytes) (hs : List (Bytes × Bytes))
    (fresh : IsFresh c) (reads : server.read_fails ≡ false) (one_line : IsLine line)
    (all_fields : All IsField hs)
    (room : length (request_text line hs (crlf [])) ≤ server.buffer_size) where
  -- A request without a body, well-formed, in one read that fits the buffer, on a connection without
  -- anything before it and not upgraded to HTTP/2, is answered with its connection to be closed, on
  -- a connected socket. If a blank line stands behind it in the same read, it is handed to the
  -- engine a second time, now with `header_connection` set to close, where the socket is no longer
  -- connected: nothing but the two requests and the one closing is seen, whatever Connection the
  -- second answer has.
  pub parse-closed_twice :
      HasNoLength (request_of server line hs c.request).content_length
      → ((q : ProtoRequest) → server.upgrade_h2c q ≡ false)
      → server.answer (request_of server line hs c.request) c.body ≡ finished close true
      → (connection : HeaderConnection)
      → server.answer
          (record (request_of server line hs c.request) { header_connection = close })
          c.body
        ≡ finished connection false
      → (c' : Connection) × (parse server (arrive (request_text line hs (crlf [])) c) ≡ some c')
        × (c'.events
            ≡ c.events
              ++ (processed (request_of server line hs c.request) c.body
                  ∷ connection_close
                  ∷ processed
                      (record (request_of server line hs c.request) { header_connection = close })
                      c.body
                  ∷ []))
  unfolding take_line
  parse-closed_twice none_given no_h2c answers connection answers_again =
      let r = request_of server line hs c.request in
      let (fuel, e) = parse-head server c line hs (crlf []) fresh reads one_line all_fields room in
      let first = behind_head server line hs (crlf []) c in
      let seen = (line ++ crlf []) ++ fields hs [] in
      let again = standing (seen ++ crlf []) [] (closing first) in
      (
        (process_request server again).0,
        e
            ∙ ap (proceed server (suc (suc fuel))) (
                end_of_head-none server r.content_length first none_given
                ∙ ap loop_if (process_request-close server first (no_h2c first.request) answers))
            ∙ standing-line server (suc fuel) seen [] [] (closing first) tt
            ∙ ap (proceed server (suc fuel))
                (end_of_head-none server r.content_length again none_given)
            ∙ processed-done server again fuel
                (omega (arith, length-append {0} (seen ++ crlf []) [])),
        process_request-gone server again connection (no_h2c again.request) answers_again
            ∙ append_assoc (c.events ++ (processed r c.body ∷ [])) (connection_close ∷ [])
                (processed again.request c.body ∷ [])
            ∙ append_assoc c.events (processed r c.body ∷ [])
                (connection_close ∷ processed again.request c.body ∷ []),
      )
